-- ===== src/Worker/Steps.antt =====
-- src/worker.c: the handlers of an event, against the life of a slot.
use nexus_gateway.Base.{
  Bool, Bool-cases, Bytes, Option, Option-cases, ap, codes, false, get_elem?, inl, inr, none, refl,
  set, some, starts_with, subst, suc, sym, true, zero, ℕ, ◌||◌, ◌∙◌, ◌≡◌, ◌≢◌,
}
use nexus_gateway.Base.Int.{pos, ℤ}
use nexus_gateway.Blacklist.{bl_check, listed}
use nexus_gateway.Connection.{connecting_upstream, reading_req, reading_upstream}
use nexus_gateway.Parser.{HpState, Request, done, feed, req_init}
use nexus_gateway.Parser.Serialize.{serialize}
use nexus_gateway.RateLimit.{rl_check}
use nexus_gateway.Rewrite.{rewrite_request}
use nexus_gateway.Upstream.{Node, pick}
use nexus_gateway.Worker.{ProxyConn, Worker, close_client_conn}
use nexus_gateway.Worker.Backend.{
  ReadResult, again, broken, end_of_file, got, sent_request, upstream_readable, upstream_writable,
}
use nexus_gateway.Worker.Client.{
  ClientEnv, admit, connect_node, forward, handle_client_read, handle_parsed, route, serve_path,
  to_node,
}
use nexus_gateway.Worker.Count.{used}
use nexus_gateway.Worker.Events.{EventEnv, on_conn}
use nexus_gateway.Worker.Lifecycle.{
  Leads, SlotUse, Views, answering, broken-Leads, close_client_conn-Leads, connecting, opens_node,
  reading, sends_request, stays-Leads, unused,
}

-- A worker that differs from `w` elsewhere than in its pool.
same_pool :
    (P : ℕ → Type 0) (w v : Worker) (i : ℕ) (s : SlotUse) (w' : Worker)
    → v.pool ≡ w.pool
    → Leads P v i s w'
    → Leads P w i s w'
same_pool P w v i s w' same l = record {
  conn = l.conn;
  slot = l.slot;
  pool = l.pool ∙ ap (λ p. set p i l.conn) same;
  views = l.views;
  next = l.next;
}

module _ (P : ℕ → Type 0) (i fd : ℕ) (env : ClientEnv)
    (new : (host : Bytes) (port : ℤ) (u : ℕ) → env.connected host port ≡ some u → P u) where
  connect_node-Leads :
      (w : Worker) (c : ProxyConn) (r : Option ℕ)
      → ((u : ℕ) → r ≡ some u → P u)
      → Views (reading fd) c
      → Leads P w i (reading fd) (connect_node w i c r).0
  unfolding connect_node
  connect_node-Leads w c none fresh v = close_client_conn-Leads P w i (reading fd) c
  connect_node-Leads w c (some u) fresh v = record {
    conn = record c { upstream_fd = pos u; state = connecting_upstream };
    slot = connecting fd u;
    pool = refl;
    views = (v.0, v.1, refl, refl);
    next = opens_node fd u (fresh u refl);
  }

  forward-Leads :
      (w : Worker) (c : ProxyConn) (req : Request) (node : Node)
      → Views (reading fd) c
      → Leads P w i (reading fd) (forward w i c req node env).0
  unfolding forward
  forward-Leads w c req node v =
      let req' =
        rewrite_request req (some c.client_ip) (some (codes "1.0.0")) (some w.cfg) env.timestamp
          env.rand1 env.rand2 in
      elim (Option-cases (serialize req' 4096)) [
        | inl e ↦ rw (e, forward) (close_client_conn-Leads P w i (reading fd) c)
        | inr (text, e) ↦
            rw (e, forward)
              (connect_node-Leads w _ (env.connected node.host node.port) (new node.host node.port)
                v)
      ]

  to_node-Leads :
      (w : Worker) (c : ProxyConn) (req : Request) (b : Option ℕ)
      → Views (reading fd) c
      → Leads P w i (reading fd) (to_node w i c req env b).0
  unfolding to_node
  to_node-Leads w c req none v = close_client_conn-Leads P w i (reading fd) c
  to_node-Leads w c req (some b) v = elim (Option-cases (get_elem? w.upstream.nodes b)) [
    | inl e ↦ rw (e, to_node) (close_client_conn-Leads P w i (reading fd) c)
    | inr (node, e) ↦ rw (e, to_node) (forward-Leads w c req node v)
  ]

  route-Leads :
      (w : Worker) (c : ProxyConn) (req : Request)
      → Views (reading fd) c
      → Leads P w i (reading fd) (route w i c req env).0
  unfolding route serve_path
  route-Leads w c req v = elim (Bool-cases (starts_with req.path (codes "/static/"))) [
    | inl static ↦ rw static (close_client_conn-Leads P w i (reading fd) c)
    | inr other ↦
        let picked = record w { upstream = (pick w.upstream).0 } in
        rw other (
          same_pool P w picked i (reading fd) (to_node picked i c req env (pick w.upstream).1).0
            refl (to_node-Leads picked c req (pick w.upstream).1 v))
  ]

  admit-Leads :
      (w : Worker) (c : ProxyConn) (req : Request)
      → Views (reading fd) c
      → Leads P w i (reading fd) (admit w i c req env).0
  unfolding admit
  admit-Leads w c req v =
      let r = rl_check w.rl c.client_ip env.rl_created_ms env.rl_now_ms in
      let w' = record w { rl = r.0 } in
      elim (Bool-cases (bl_check w.bl c.client_ip)) [
        | inl listed ↦ rw listed (close_client_conn-Leads P w i (reading fd) c)
        | inr unlisted ↦ rw unlisted (elim (Bool-cases r.1) [
          | inl passed ↦ rw passed (
              same_pool P w w' i (reading fd) (route w' i c req env).0 refl
                (route-Leads w' c req v))
          | inr limited ↦ rw limited (
              same_pool P w w' i (reading fd) (close_client_conn w' i c).0 refl
                (close_client_conn-Leads P w' i (reading fd) c))
        ])
      ]

  handle_parsed-Leads :
      (w : Worker) (c : ProxyConn) (st : HpState) (req : Request)
      → Views (reading fd) c
      → Leads P w i (reading fd) (handle_parsed w i c st req env).0
  unfolding handle_parsed
  handle_parsed-Leads w c done req v = admit-Leads w _ req v
  handle_parsed-Leads w c _ req v = close_client_conn-Leads P w i (reading fd) c

  handle_client_read-Leads :
      (w : Worker) (c : ProxyConn)
      → Views (reading fd) c
      → Leads P w i (reading fd) (handle_client_read w i c env).0
  unfolding handle_client_read
  handle_client_read-Leads w c v = elim (Option-cases env.received) [
    | inl e ↦ rw (e, handle_client_read) (close_client_conn-Leads P w i (reading fd) c)
    | inr (bytes, e) ↦ elim (Option-cases (feed req_init bytes)) [
      | inl f ↦ rw (e, handle_client_read, f) (close_client_conn-Leads P w i (reading fd) _)
      | inr ((req, consumed), f) ↦
          rw (e, handle_client_read, f) (handle_parsed-Leads w _ req.state req v)
    ]
  ]

module _ (P : ℕ → Type 0) (w : Worker) (i : ℕ) (c : ProxyConn) (fd u : ℕ)
    (at : get_elem? w.pool i ≡ some c) where
  writable-Leads :
      (failed : Bool) (taken : Option ℕ)
      → Views (connecting fd u) c
      → Leads P w i (connecting fd u) (upstream_writable w i c (pos u) failed taken).0
  unfolding upstream_writable sent_request
  writable-Leads true taken v = close_client_conn-Leads P w i (connecting fd u) c
  writable-Leads false none v = stays-Leads P w i (connecting fd u) c at v
  writable-Leads false (some zero) v = stays-Leads P w i (connecting fd u) c at v
  writable-Leads false (some (suc n)) v = record {
    conn = record c { state = reading_upstream };
    slot = answering fd u;
    pool = refl;
    views = (v.0, v.1, refl, v.3);
    next = sends_request fd u;
  }

  readable-Leads :
      (r : ReadResult)
      → Views (answering fd u) c
      → Leads P w i (answering fd u) (upstream_readable w i c (pos u) r).0
  unfolding upstream_readable
  readable-Leads (got bytes) v = close_client_conn-Leads P w i (answering fd u) _
  readable-Leads end_of_file v = close_client_conn-Leads P w i (answering fd u) c
  readable-Leads again v = stays-Leads P w i (answering fd u) c at v
  readable-Leads broken v = broken-Leads P w i (answering fd u) c u

pub on_conn-Leads :
    (P : ℕ → Type 0) (w : Worker) (i : ℕ) (c : ProxyConn) (s : SlotUse) (can_read can_write : Bool)
    (env : EventEnv)
    → ((host : Bytes) (port : ℤ) (u : ℕ) → env.client.connected host port ≡ some u → P u)
    → get_elem? w.pool i ≡ some c
    → s ≢ unused
    → Views s c
    → Leads P w i s (on_conn w i c c.state can_read can_write env).0
unfolding on_conn
on_conn-Leads P w i c unused can_read can_write env new at used v = absurd (used refl)
on_conn-Leads P w i c (reading fd) can_read can_write env new at used v =
    let events : Leads P w i (reading fd) (on_conn w i c reading_req can_read can_write env).0 =
      elim (Bool-cases can_read) [
        | inl e ↦ rw e (handle_client_read-Leads P i fd env.client new w c v)
        | inr e ↦ rw e (stays-Leads P w i (reading fd) c at v)
      ] in
    subst (λ st. Leads P w i (reading fd) (on_conn w i c st can_read can_write env).0) (sym v.2)
      events
on_conn-Leads P w i c (connecting fd u) can_read can_write env new at used v =
    let events : Leads P w i (connecting fd u)
        (on_conn w i c connecting_upstream can_read can_write env).0 =
      elim (Bool-cases (can_write || can_read)) [
        | inl e ↦ rw e (
            subst
              (λ x.
                Leads P w i (connecting fd u)
                  (upstream_writable w i c x env.socket_failed env.taken).0)
              (sym v.3) (writable-Leads P w i c fd u at env.socket_failed env.taken v))
        | inr e ↦ rw e (stays-Leads P w i (connecting fd u) c at v)
      ] in
    subst (λ st. Leads P w i (connecting fd u) (on_conn w i c st can_read can_write env).0)
      (sym v.2) events
on_conn-Leads P w i c (answering fd u) can_read can_write env new at used v =
    let events : Leads P w i (answering fd u)
        (on_conn w i c reading_upstream can_read can_write env).0 =
      elim (Bool-cases can_read) [
        | inl e ↦ rw e (
            subst (λ x. Leads P w i (answering fd u) (upstream_readable w i c x env.read).0)
              (sym v.3) (readable-Leads P w i c fd u at env.read v))
        | inr e ↦ rw e (stays-Leads P w i (answering fd u) c at v)
      ] in
    subst (λ st. Leads P w i (answering fd u) (on_conn w i c st can_read can_write env).0) (sym v.2)
      events
