-- ===== src/Worker/Gate.antt =====
-- src/worker.c: the stages of `handle_client_read` behind the parser: each closes the slot, or passes
-- the request on.
use nexus_gateway.Base.{
  Bool-cases, Bytes, List, Option, Option-cases, [], c_str, codes, false, get_elem?, inl, inr, none,
  refl, set, some, starts_with, take, true, ℕ, ◌==◌, ◌∷◌, ◌≡◌, ◌⊎◌,
}
use nexus_gateway.Base.Int.{pos}
use nexus_gateway.Blacklist.{bl_check, listed}
use nexus_gateway.Config.{Config}
use nexus_gateway.Connection.{connecting_upstream}
use nexus_gateway.Parser.{HpState, Request, done}
use nexus_gateway.Parser.Serialize.{serialize}
use nexus_gateway.RateLimit.{rl_check}
use nexus_gateway.Rewrite.{rewrite_request}
use nexus_gateway.Upstream.{Node, pick}
use nexus_gateway.Worker.{
  Effect, Out, ProxyConn, Worker, both, close_client_conn, connect_to, epoll_add, epoll_mod,
  proxy_free, readable,
}
use nexus_gateway.Worker.Client.{
  ClientEnv, admit, and_then, connect_node, forward, handle_parsed, route, serve_path, to_node,
}

-- What a forwarded request leaves in the slot.
pub record Sent (cfg : Config) (ip : Bytes) (fd : ℕ) (req : Request) (node : Node) (env : ClientEnv)
    (c' : ProxyConn) (es : List Effect) : Type 0 where
  pub node_fd : ℕ
  pub connected : env.connected node.host node.port ≡ some node_fd
  pub effects :
      es ≡ connect_to node.host node.port ∷ epoll_add node_fd both ∷ epoll_mod fd readable ∷ []
  pub on_node : c'.upstream_fd ≡ pos node_fd
  pub sent_text :
      serialize
        (rewrite_request req
          (some ip)
          (some (codes "1.0.0"))
          (some cfg)
          env.timestamp
          env.rand1
          env.rand2)
        4096
      ≡ some c'.req_buf

-- The same, behind the choice of a node.
pub record Routed (req : Request) (env : ClientEnv) (w : Worker) (c c' : ProxyConn)
    (es : List Effect) : Type 0 where
  pub dynamic : starts_with req.path (codes "/static/") ≡ false
  pub index : ℕ
  pub node : Node
  pub picked : (pick w.upstream).1 ≡ some index
  pub at_index : get_elem? (pick w.upstream).0.nodes index ≡ some node
  pub sent : Sent w.cfg c.client_ip c.fd req node env c' es

-- The same, behind the blacklist and the rate limit.
pub record Admitted (req : Request) (env : ClientEnv) (w : Worker) (c c' : ProxyConn)
    (es : List Effect) : Type 0 where
  pub unlisted : bl_check w.bl c.client_ip ≡ false
  pub passed : (rl_check w.rl c.client_ip env.rl_created_ms env.rl_now_ms).1 ≡ true
  pub routed : Routed req env w c c' es

-- The same, of a whole request.
pub record Whole (req : Request) (env : ClientEnv) (w : Worker) (st : HpState) (c c' : ProxyConn)
    (es : List Effect) : Type 0 where
  pub whole : st ≡ done
  pub admitted : Admitted req env w c c' es

-- Slot `i` of the pool is closed, or it holds a connection of which `P` holds with the effects.
abbrev pub Ends : List ProxyConn → ℕ → (ProxyConn → List Effect → Type 0) → Out → Type 0
Ends cs i P o = (c' : ProxyConn) × (o.0.pool ≡ set cs i c') × ((c'.fd ≡ 0) ⊎ P c' o.1)

pub close_client_conn-Ends :
    (w : Worker) (i : ℕ) (c : ProxyConn) (es : List Effect) (P : ProxyConn → List Effect → Type 0)
    → Ends w.pool i P ((close_client_conn w i c).0, es)
unfolding close_client_conn proxy_free
close_client_conn-Ends w i c es P = elim (Bool-cases (c.fd == 0)) [
  | inl e ↦ rw e (proxy_free c, refl, inl refl)
  | inr e ↦ rw e (proxy_free c, refl, inl refl)
]

pub Ends-map :
    (cs : List ProxyConn) (i : ℕ) (P Q : ProxyConn → List Effect → Type 0) (o : Out)
    → ((c' : ProxyConn) (es : List Effect) → P c' es → Q c' es)
    → Ends cs i P o
    → Ends cs i Q o
Ends-map cs i P Q o f (c', pool, inl e) = (c', pool, inl e)
Ends-map cs i P Q o f (c', pool, inr p) = (c', pool, inr (f c' o.1 p))

module _ (i : ℕ) (req : Request) (env : ClientEnv) where
  connect_node-Ends :
      (w : Worker) (c : ProxyConn) (ip : Bytes) (node : Node) (r : Option ℕ)
      → env.connected node.host node.port ≡ r
      → serialize
          (rewrite_request req
            (some ip)
            (some (codes "1.0.0"))
            (some w.cfg)
            env.timestamp
            env.rand1
            env.rand2)
          4096
        ≡ some c.req_buf
      → Ends w.pool i
          (Sent w.cfg ip c.fd req node env)
          (and_then (connect_to node.host node.port ∷ []) (connect_node w i c r))
  unfolding connect_node
  connect_node-Ends w c ip node none e text =
      close_client_conn-Ends w i c _ (Sent w.cfg ip c.fd req node env)
  connect_node-Ends w c ip node (some u) e text = (
    record c { upstream_fd = pos u; state = connecting_upstream },
    refl,
    inr (record { node_fd = u; connected = e; effects = refl; on_node = refl; sent_text = text }),
  )

  forward-Ends :
      (w : Worker) (c : ProxyConn) (node : Node)
      → Ends w.pool i (Sent w.cfg c.client_ip c.fd req node env) (forward w i c req node env)
  unfolding forward
  forward-Ends w c node =
      let req' =
        rewrite_request req (some c.client_ip) (some (codes "1.0.0")) (some w.cfg) env.timestamp
          env.rand1 env.rand2 in
      elim (Option-cases (serialize req' 4096)) [
        | inl e ↦
            rw (e, forward)
              (close_client_conn-Ends w i c _ (Sent w.cfg c.client_ip c.fd req node env))
        | inr (text, e) ↦
            rw (e, forward)
              (connect_node-Ends w _ c.client_ip node (env.connected node.host node.port) refl e)
      ]

  to_node-Ends :
      (w : Worker) (c : ProxyConn) (b : Option ℕ)
      → starts_with req.path (codes "/static/") ≡ false
      → (pick w.upstream).1 ≡ b
      → Ends w.pool i
          (Routed req env w c)
          (to_node (record w { upstream = (pick w.upstream).0 }) i c req env b)
  unfolding to_node
  to_node-Ends w c none other e =
      close_client_conn-Ends (record w { upstream = (pick w.upstream).0 }) i c _
        (Routed req env w c)
  to_node-Ends w c (some b) other e =
      let chosen = record w { upstream = (pick w.upstream).0 } in
      elim (Option-cases (get_elem? (pick w.upstream).0.nodes b)) [
        | inl f ↦ rw (f, to_node) (close_client_conn-Ends chosen i c _ (Routed req env w c))
        | inr (node, f) ↦
            rw (f, to_node)
              (Ends-map w.pool i (Sent w.cfg c.client_ip c.fd req node env) (Routed req env w c)
                (forward chosen i c req node env)
                (λ c' es s. record {
                  dynamic = other;
                  index = b;
                  node = node;
                  picked = e;
                  at_index = f;
                  sent = s;
                })
                (forward-Ends chosen c node))
      ]

  route-Ends :
      (w : Worker) (c : ProxyConn) → Ends w.pool i (Routed req env w c) (route w i c req env)
  unfolding route serve_path
  route-Ends w c = elim (Bool-cases (starts_with req.path (codes "/static/"))) [
    | inl static ↦ rw static (close_client_conn-Ends w i c _ (Routed req env w c))
    | inr other ↦ rw other (to_node-Ends w c (pick w.upstream).1 other refl)
  ]

  admit-Ends :
      (w : Worker) (c : ProxyConn) → Ends w.pool i (Admitted req env w c) (admit w i c req env)
  unfolding admit
  admit-Ends w c =
      let r = rl_check w.rl c.client_ip env.rl_created_ms env.rl_now_ms in
      let w' = record w { rl = r.0 } in
      elim (Bool-cases (bl_check w.bl c.client_ip)) [
        | inl listed ↦ rw listed (close_client_conn-Ends w i c _ (Admitted req env w c))
        | inr unlisted ↦ rw unlisted (elim (Bool-cases r.1) [
          | inl passed ↦ rw passed (
              Ends-map w.pool i (Routed req env w' c) (Admitted req env w c) (route w' i c req env)
                (λ c' es r. record {
                  unlisted = unlisted;
                  passed = passed;
                  routed = record {
                    dynamic = r.dynamic;
                    index = r.index;
                    node = r.node;
                    picked = r.picked;
                    at_index = r.at_index;
                    sent = r.sent;
                  };
                })
                (route-Ends w' c))
          | inr limited ↦ rw limited (close_client_conn-Ends w' i c _ (Admitted req env w c))
        ])
      ]

  pub handle_parsed-Ends :
      (w : Worker) (c : ProxyConn) (st : HpState)
      → Ends w.pool i (Whole req env w st c) (handle_parsed w i c st req env)
  unfolding handle_parsed
  handle_parsed-Ends w c done =
      let c1 = record c {
        method = take 15 (c_str req.method);
        path = take 1023 (c_str req.path);
        version = take 15 (c_str req.version);
      } in
      Ends-map w.pool i (Admitted req env w c1) (Whole req env w done c) (admit w i c1 req env)
        (λ c' es a. record {
          whole = refl;
          admitted = record {
            unlisted = a.unlisted;
            passed = a.passed;
            routed = record {
              dynamic = a.routed.dynamic;
              index = a.routed.index;
              node = a.routed.node;
              picked = a.routed.picked;
              at_index = a.routed.at_index;
              sent = a.routed.sent;
            };
          };
        })
        (admit-Ends w c1)
  handle_parsed-Ends w c st =
      close_client_conn-Ends w i c (close_client_conn w i c).1 (Whole req env w st c)
