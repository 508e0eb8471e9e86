-- ===== src/Worker/Count.antt =====
-- src/worker.c: `g_active_conns` and the slots in use, over what a client's bytes set off.
use nexus_gateway.Base.{
  Bool-cases, List, Option, Option-cases, [], ap, arith, codes, get_elem?, if◌then◌else◌, inl, inr,
  none, refl, set, some, starts_with, suc, zero, ℕ, ◌+◌, ◌==◌, ◌∙◌, ◌∷◌, ◌≡◌,
}
use nexus_gateway.Base.Int.{int_laws, pos, ◌+ℤ◌, ◌-ℤ◌}
use nexus_gateway.Blacklist.{bl_check, listed}
use nexus_gateway.Connection.{connecting_upstream}
use nexus_gateway.Parser.{HpState, Request, done, feed, req_init}
use nexus_gateway.Parser.Serialize.{serialize}
use nexus_gateway.RateLimit.{rl_check}
use nexus_gateway.Rewrite.{rewrite_request}
use nexus_gateway.Upstream.{Node, pick}
use nexus_gateway.Worker.{ProxyConn, Worker, close_client_conn, proxy_free, put}
use nexus_gateway.Worker.Client.{
  ClientEnv, admit, connect_node, forward, handle_client_read, handle_parsed, route, serve_path,
  to_node,
}

-- 1 for a slot in use.
abbrev pub used : ProxyConn → ℕ
used c = if c.fd == 0 then 0 else 1

unfoldable pub used_slots : List ProxyConn → ℕ
used_slots [] = 0
used_slots (c ∷ cs) = used c + used_slots cs

-- The counter is `k` more than the number of slots in use.
abbrev pub Counts : ℕ → Worker → Type 0
Counts k w = w.active_conns ≡ pos (used_slots w.pool + k)

-- Slot `i` belongs to the descriptor `fd`.
pub record Holds (w : Worker) (i fd : ℕ) : Type 0 where
  pub conn : ProxyConn
  pub at : get_elem? w.pool i ≡ some conn
  pub same_fd : conn.fd ≡ fd

pub used_slots-set :
    (cs : List ProxyConn) (i : ℕ) (d : ProxyConn) {c : ProxyConn}
    → get_elem? cs i ≡ some c
    → used_slots (set cs i d) + used c ≡ used_slots cs + used d
unfolding used_slots
used_slots-set [] i d e = cc
used_slots-set (x ∷ cs) zero d e = ground arith
used_slots-set (x ∷ cs) (suc i) d {c} e = omega (arith, used_slots-set cs i d {c = c} e)

-- Writing a slot's content back under the same descriptor changes no count.
pub put-Counts :
    (k : ℕ) (w : Worker) (i : ℕ) (c : ProxyConn)
    → Holds w i c.fd
    → Counts k w
    → Counts k (put w i c)
put-Counts k w i c h n =
    let slots = used_slots-set w.pool i c {c = h.conn} h.at in
    let same : used h.conn ≡ used c = ap (λ (x : ℕ). if x == 0 then 0 else 1) h.same_fd in
    n ∙ ap pos (omega (arith, slots, same))

pub minus_one : (a b : ℕ) → a + 1 ≡ b → pos b -ℤ pos 1 ≡ pos a
minus_one a b e = omega (int_laws, e)

pub plus_one : (a b : ℕ) → a ≡ b + 1 → pos b +ℤ pos 1 ≡ pos a
plus_one a b e = omega (int_laws, e)

module _ (w : Worker) (i : ℕ) (c : ProxyConn) (h : Holds w i c.fd) where
  -- Freeing the slot takes its use away.
  pub freed : used_slots (set w.pool i (proxy_free c)) + used c ≡ used_slots w.pool
  unfolding proxy_free
  freed =
      let slots = used_slots-set w.pool i (proxy_free c) {c = h.conn} h.at in
      let same : used h.conn ≡ used c = ap (λ (x : ℕ). if x == 0 then 0 else 1) h.same_fd in
      omega (arith, slots, same)

pub close_client_conn-Counts :
    (k : ℕ) (w : Worker) (i : ℕ) (c : ProxyConn)
    → Holds w i c.fd
    → Counts k w
    → Counts k (close_client_conn w i c).0
unfolding close_client_conn
close_client_conn-Counts k w i c h n =
    let f = freed w i c h in
    elim (Bool-cases (c.fd == 0)) [
      | inl free ↦
          let none_used : used c ≡ 0 = simp free refl in
          simp free (n ∙ ap pos (omega (arith, f, none_used)))
      | inr busy ↦
          let one_used : used c ≡ 1 = simp busy refl in
          simp busy (ap (λ a. a -ℤ pos 1) n ∙ minus_one _ _ (omega (arith, f, one_used)))
    ]

pub connect_node-Counts :
    (k : ℕ) (w : Worker) (i : ℕ) (c : ProxyConn) (r : Option ℕ)
    → Holds w i c.fd
    → Counts k w
    → Counts k (connect_node w i c r).0
unfolding connect_node
connect_node-Counts k w i c none h n = close_client_conn-Counts k w i c h n
connect_node-Counts k w i c (some ufd) h n =
    put-Counts k w i (record c { upstream_fd = pos ufd; state = connecting_upstream }) h n

pub forward-Counts :
    (k : ℕ) (w : Worker) (i : ℕ) (c : ProxyConn) (req : Request) (node : Node) (env : ClientEnv)
    → Holds w i c.fd
    → Counts k w
    → Counts k (forward w i c req node env).0
unfolding forward
forward-Counts k w i c req node env h n =
    let req' =
      rewrite_request req (some c.client_ip) (some (codes "1.0.0")) (some w.cfg) env.timestamp
        env.rand1 env.rand2 in
    elim (Option-cases (serialize req' 4096)) [
      | inl e ↦ rw (e, forward) (close_client_conn-Counts k w i c h n)
      | inr (text, e) ↦
          rw (e, forward) (connect_node-Counts k w i _ (env.connected node.host node.port) h n)
    ]

pub to_node-Counts :
    (k : ℕ) (w : Worker) (i : ℕ) (c : ProxyConn) (req : Request) (env : ClientEnv) (b : Option ℕ)
    → Holds w i c.fd
    → Counts k w
    → Counts k (to_node w i c req env b).0
unfolding to_node
to_node-Counts k w i c req env none h n = close_client_conn-Counts k w i c h n
to_node-Counts k w i c req env (some b) h n = elim (Option-cases (get_elem? w.upstream.nodes b)) [
  | inl e ↦ rw (e, to_node) (close_client_conn-Counts k w i c h n)
  | inr (node, e) ↦ rw (e, to_node) (forward-Counts k w i c req node env h n)
]

pub route-Counts :
    (k : ℕ) (w : Worker) (i : ℕ) (c : ProxyConn) (req : Request) (env : ClientEnv)
    → Holds w i c.fd
    → Counts k w
    → Counts k (route w i c req env).0
unfolding route serve_path
route-Counts k w i c req env h n = elim (Bool-cases (starts_with req.path (codes "/static/"))) [
  | inl static ↦ rw static (close_client_conn-Counts k w i c h n)
  | inr other ↦ rw other (
      to_node-Counts k (record w { upstream = (pick w.upstream).0 }) i c req env (pick w.upstream).1
        (record { conn = h.conn; at = h.at; same_fd = h.same_fd }) n)
]

pub admit-Counts :
    (k : ℕ) (w : Worker) (i : ℕ) (c : ProxyConn) (req : Request) (env : ClientEnv)
    → Holds w i c.fd
    → Counts k w
    → Counts k (admit w i c req env).0
unfolding admit
admit-Counts k w i c req env h n =
    let r = rl_check w.rl c.client_ip env.rl_created_ms env.rl_now_ms in
    let w' = record w { rl = r.0 } in
    let h' : Holds w' i c.fd = record { conn = h.conn; at = h.at; same_fd = h.same_fd } in
    elim (Bool-cases (bl_check w.bl c.client_ip)) [
      | inl listed ↦ rw listed (close_client_conn-Counts k w i c h n)
      | inr free ↦ rw free (elim (Bool-cases r.1) [
        | inl passed ↦ rw passed (route-Counts k w' i c req env h' n)
        | inr stopped ↦ rw stopped (close_client_conn-Counts k w' i c h' n)
      ])
    ]

pub handle_parsed-Counts :
    (k : ℕ) (w : Worker) (i : ℕ) (c : ProxyConn) (st : HpState) (req : Request) (env : ClientEnv)
    → Holds w i c.fd
    → Counts k w
    → Counts k (handle_parsed w i c st req env).0
unfolding handle_parsed
handle_parsed-Counts k w i c done req env h n = admit-Counts k w i _ req env h n
handle_parsed-Counts k w i c _ req env h n = close_client_conn-Counts k w i c h n

pub handle_client_read-Counts :
    (k : ℕ) (w : Worker) (i : ℕ) (c : ProxyConn) (env : ClientEnv)
    → Holds w i c.fd
    → Counts k w
    → Counts k (handle_client_read w i c env).0
unfolding handle_client_read
handle_client_read-Counts k w i c env h n = elim (Option-cases env.received) [
  | inl e ↦ rw (e, handle_client_read) (close_client_conn-Counts k w i c h n)
  | inr (bytes, e) ↦ elim (Option-cases (feed req_init bytes)) [
    | inl f ↦ rw (e, handle_client_read, f) (close_client_conn-Counts k w i _ h n)
    | inr ((req, consumed), f) ↦
        rw (e, handle_client_read, f) (handle_parsed-Counts k w i _ req.state req env h n)
  ]
]
