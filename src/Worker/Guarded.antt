-- ===== src/Worker/Guarded.antt =====
-- src/worker.c: what a client's bytes must come to before a node is connected for them.
use nexus_gateway.Base.{
  Bytes, List, Option, Option-cases, [], ap, arith, codes, false, get_elem?, inl, inr, none, refl,
  set, some, starts_with, subst, suc, sym, true, zero, ℕ, ◌∙◌, ◌∷◌, ◌≡◌, ◌≢◌,
}
use nexus_gateway.Base.Int.{pos}
use nexus_gateway.Blacklist.{bl_check}
use nexus_gateway.Parser.{Request, done, feed, req_init}
use nexus_gateway.Parser.Serialize.{serialize}
use nexus_gateway.RateLimit.{rl_check}
use nexus_gateway.Rewrite.{rewrite_request}
use nexus_gateway.Upstream.{Node, pick}
use nexus_gateway.Worker.{
  Effect, Out, ProxyConn, Worker, both, close_client_conn, connect_to, epoll_add, epoll_mod,
  readable,
}
use nexus_gateway.Worker.Client.{ClientEnv, handle_client_read, handle_parsed}
use nexus_gateway.Worker.Gate.{Ends, Ends-map, Whole, close_client_conn-Ends, handle_parsed-Ends}

-- What holds when a node is connected for the connection `c`, whose slot then holds `c'`.
pub record Forwarded (w : Worker) (c : ProxyConn) (env : ClientEnv) (c' : ProxyConn) : Type 0 where
  pub bytes : Bytes
  pub req : Request
  pub consumed : ℕ
  pub index : ℕ
  pub node : Node
  pub node_fd : ℕ
  pub received : env.received ≡ some bytes
  pub parsed : feed req_init bytes ≡ some (req, consumed)
  pub whole : req.state ≡ done
  pub unlisted : bl_check w.bl c.client_ip ≡ false
  pub passed : (rl_check w.rl c.client_ip env.rl_created_ms env.rl_now_ms).1 ≡ true
  pub dynamic : starts_with req.path (codes "/static/") ≡ false
  pub picked : (pick w.upstream).1 ≡ some index
  pub at_index : get_elem? (pick w.upstream).0.nodes index ≡ some node
  pub connected : env.connected node.host node.port ≡ some node_fd
  pub on_node : c'.upstream_fd ≡ pos node_fd
  pub sent_text :
      serialize
        (rewrite_request req
          (some c.client_ip)
          (some (codes "1.0.0"))
          (some w.cfg)
          env.timestamp
          env.rand1
          env.rand2)
        4096
      ≡ some c'.req_buf

-- What is done for it, in order: the connection to the node's host and port, and the interest in both
-- descriptors.
abbrev pub Connects :
    (w : Worker) → (c : ProxyConn) → (env : ClientEnv) → ProxyConn → List Effect → Type 0
Connects w c env c' es =
    (f : Forwarded w c env c') × (es
      ≡ connect_to f.node.host f.node.port
        ∷ epoll_add f.node_fd both
        ∷ epoll_mod c.fd readable
        ∷ [])

-- `handle_client_read` with the bytes apart from what else the system answers.
abbrev on_bytes : Worker → ℕ → ProxyConn → ClientEnv → Option Bytes → Out
on_bytes w i c env r = elim r [
  | none ↦ close_client_conn w i c
  | some bytes ↦
      let c' = record c { req_buf = bytes; start_ms = env.now_ms } in
      elim (feed req_init bytes) [
        | none ↦ close_client_conn w i c'
        | some (req, consumed) ↦ handle_parsed w i c' req.state req env
      ]
]

-- A read that gives nothing.
handle_client_read-none :
    (w : Worker) (i : ℕ) (c : ProxyConn) (env : ClientEnv)
    → env.received ≡ none
    → handle_client_read w i c env ≡ close_client_conn w i c
unfolding handle_client_read
handle_client_read-none w i c env e = ap (on_bytes w i c env) e

-- Bytes that the parser does not take.
handle_client_read-refused :
    (w : Worker) (i : ℕ) (c : ProxyConn) (env : ClientEnv) {bytes : Bytes}
    → env.received ≡ some bytes
    → feed req_init bytes ≡ none
    → handle_client_read w i c env
      ≡ close_client_conn w i (record c { req_buf = bytes; start_ms = env.now_ms })
unfolding handle_client_read
handle_client_read-refused w i c env e f = ap (on_bytes w i c env) e ∙ rw (f, on_bytes) refl

-- Bytes that the parser takes.
handle_client_read-taken :
    (w : Worker) (i : ℕ) (c : ProxyConn) (env : ClientEnv) {bytes : Bytes} {req : Request}
    {consumed : ℕ}
    → env.received ≡ some bytes
    → feed req_init bytes ≡ some (req, consumed)
    → handle_client_read w i c env
      ≡ handle_parsed w i (record c { req_buf = bytes; start_ms = env.now_ms }) req.state req env
unfolding handle_client_read
handle_client_read-taken w i c env e f = ap (on_bytes w i c env) e ∙ rw (f, on_bytes) refl

-- The slot of a client that was read from is closed, or a node is connected for it.
handle_client_read-Ends :
    (w : Worker) (i : ℕ) (c : ProxyConn) (env : ClientEnv)
    → Ends w.pool i (Connects w c env) (handle_client_read w i c env)
handle_client_read-Ends w i c env =
    let P = Connects w c env in
    let ends = λ (o : Out). Ends w.pool i P o in
    elim (Option-cases env.received) [
      | inl e ↦
          subst ends (sym (handle_client_read-none w i c env e)) (close_client_conn-Ends w i c _ P)
      | inr (bytes, e) ↦
          let c1 = record c { req_buf = bytes; start_ms = env.now_ms } in
          elim (Option-cases (feed req_init bytes)) [
            | inl f ↦
                subst ends (sym (handle_client_read-refused w i c env {bytes = bytes} e f))
                  (close_client_conn-Ends w i c1 _ P)
            | inr ((req, consumed), f) ↦
                subst ends
                  (sym (
                    handle_client_read-taken w i c env {bytes = bytes} {req = req}
                      {consumed = consumed} e f))
                  (Ends-map w.pool i (Whole req env w req.state c1) P
                    (handle_parsed w i c1 req.state req env)
                    (λ c' es p. (
                      record {
                        bytes = bytes;
                        req = req;
                        consumed = consumed;
                        index = p.admitted.routed.index;
                        node = p.admitted.routed.node;
                        node_fd = p.admitted.routed.sent.node_fd;
                        received = e;
                        parsed = f;
                        whole = p.whole;
                        unlisted = p.admitted.unlisted;
                        passed = p.admitted.passed;
                        dynamic = p.admitted.routed.dynamic;
                        picked = p.admitted.routed.picked;
                        at_index = p.admitted.routed.at_index;
                        connected = p.admitted.routed.sent.connected;
                        on_node = p.admitted.routed.sent.on_node;
                        sent_text = p.admitted.routed.sent.sent_text;
                      },
                      p.admitted.routed.sent.effects,
                    ))
                    (handle_parsed-Ends i req env w c1 req.state))
          ]
    ]

set-held {ℓ} :
    {A : Type ℓ} (xs : List A) (i : ℕ) (a : A) {b : A} → get_elem? (set xs i a) i ≡ some b → a ≡ b
set-held [] i a e = absurd (ground arith)
set-held (x ∷ xs) zero a e = ground arith
set-held (x ∷ xs) (suc i) a {b} e = set-held xs i a {b = b} e

-- Where a read of a client's bytes leaves a descriptor in its slot, the bytes parse to a whole
-- request whose path is not a static one, the client's address is not refused and its rate has
-- passed, a node of the upstream was picked and a connection to its host and port opened, the
-- buffer is the text of the rewritten request, and the effects are that connection, the interest
-- in the node's descriptor and the interest in the client's, and no other.
pub handle_client_read-Forwarded :
    (w : Worker) (i : ℕ) (c : ProxyConn) (env : ClientEnv) {c' : ProxyConn}
    → get_elem? (handle_client_read w i c env).0.pool i ≡ some c'
    → c'.fd ≢ 0
    → Connects w c env c' (handle_client_read w i c env).1
handle_client_read-Forwarded w i c env {c'} at held =
    let (d, pool, end) = handle_client_read-Ends w i c env in
    let set_at : get_elem? (set w.pool i d) i ≡ some c' =
      subst (λ cs. get_elem? cs i ≡ some c') pool at in
    let same = set-held w.pool i d {b = c'} set_at in
    elim end [
      | inl shut ↦ absurd (held (sym (ap (λ x. x.fd) same) ∙ shut))
      | inr forwarded ↦
          subst (λ x. Connects w c env x (handle_client_read w i c env).1) same forwarded
    ]
