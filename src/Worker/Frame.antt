-- ===== src/Worker/Frame.antt =====
-- src/worker.c: what no event of a worker changes: its configuration, its listening socket, its
-- blacklist and its generation.
use nexus_gateway.Base.{
  Bool, Bool-cases, List, Option, Option-cases, codes, false, get_elem?, inl, inr, none, refl, some,
  starts_with, suc, true, zero, ℕ, ◌==◌, ◌||◌, ◌≡◌,
}
use nexus_gateway.Base.Int.{negsuc, pos, ℤ}
use nexus_gateway.Blacklist.{Blacklist, bl_check, listed}
use nexus_gateway.Config.{Config}
use nexus_gateway.Connection.{ConnState, connecting_upstream, reading_req, reading_upstream}
use nexus_gateway.Parser.{HpState, Request, done, feed, req_init}
use nexus_gateway.Parser.Serialize.{serialize}
use nexus_gateway.RateLimit.{rl_check}
use nexus_gateway.Rewrite.{rewrite_request}
use nexus_gateway.Upstream.{Node, pick}
use nexus_gateway.Worker.{ProxyConn, Worker, close_client_conn, proxy_alloc, proxy_get}
use nexus_gateway.Worker.Backend.{
  ReadResult, again, broken, end_of_file, got, sent_request, upstream_readable, upstream_writable,
}
use nexus_gateway.Worker.Client.{
  ClientEnv, admit, connect_node, forward, handle_client_read, handle_parsed, route, serve_path,
  to_node,
}
use nexus_gateway.Worker.Events.{
  Accepted, EventEnv, Shared, accept_client, on_conn, on_event, on_slot, register, should_drain,
}

abbrev pub Fixed : Type 0
Fixed = Config × ℕ × Blacklist × ℤ

abbrev pub fixed : Worker → Fixed
fixed w = (w.cfg, w.listen_fd, w.bl, w.my_generation)

close_client_conn-fixed :
    (w : Worker) (i : ℕ) (c : ProxyConn) → fixed (close_client_conn w i c).0 ≡ fixed w
unfolding close_client_conn
close_client_conn-fixed w i c = elim (Bool-cases (c.fd == 0)) [
  | inl e ↦ rw e refl
  | inr e ↦ rw e refl
]

connect_node-fixed :
    (w : Worker) (i : ℕ) (c : ProxyConn) (r : Option ℕ) → fixed (connect_node w i c r).0 ≡ fixed w
unfolding connect_node
connect_node-fixed w i c none = close_client_conn-fixed w i c
connect_node-fixed w i c (some ufd) = refl

forward-fixed :
    (w : Worker) (i : ℕ) (c : ProxyConn) (req : Request) (node : Node) (env : ClientEnv)
    → fixed (forward w i c req node env).0 ≡ fixed w
unfolding forward
forward-fixed w i c req node env =
    let req' =
      rewrite_request req (some c.client_ip) (some (codes "1.0.0")) (some w.cfg) env.timestamp
        env.rand1 env.rand2 in
    elim (Option-cases (serialize req' 4096)) [
      | inl e ↦ rw (e, forward) (close_client_conn-fixed w i c)
      | inr (text, e) ↦
          rw (e, forward) (connect_node-fixed w i _ (env.connected node.host node.port))
    ]

to_node-fixed :
    (w : Worker) (i : ℕ) (c : ProxyConn) (req : Request) (env : ClientEnv) (b : Option ℕ)
    → fixed (to_node w i c req env b).0 ≡ fixed w
unfolding to_node
to_node-fixed w i c req env none = close_client_conn-fixed w i c
to_node-fixed w i c req env (some b) = elim (Option-cases (get_elem? w.upstream.nodes b)) [
  | inl e ↦ rw (e, to_node) (close_client_conn-fixed w i c)
  | inr (node, e) ↦ rw (e, to_node) (forward-fixed w i c req node env)
]

route-fixed :
    (w : Worker) (i : ℕ) (c : ProxyConn) (req : Request) (env : ClientEnv)
    → fixed (route w i c req env).0 ≡ fixed w
unfolding route serve_path
route-fixed w i c req env = elim (Bool-cases (starts_with req.path (codes "/static/"))) [
  | inl static ↦ rw static (close_client_conn-fixed w i c)
  | inr other ↦
      rw other (
        to_node-fixed (record w { upstream = (pick w.upstream).0 }) i c req env (pick w.upstream).1)
]

admit-fixed :
    (w : Worker) (i : ℕ) (c : ProxyConn) (req : Request) (env : ClientEnv)
    → fixed (admit w i c req env).0 ≡ fixed w
unfolding admit
admit-fixed w i c req env =
    let r = rl_check w.rl c.client_ip env.rl_created_ms env.rl_now_ms in
    let w' = record w { rl = r.0 } in
    elim (Bool-cases (bl_check w.bl c.client_ip)) [
      | inl listed ↦ rw listed (close_client_conn-fixed w i c)
      | inr free ↦ rw free (elim (Bool-cases r.1) [
        | inl passed ↦ rw passed (route-fixed w' i c req env)
        | inr limited ↦ rw limited (close_client_conn-fixed w' i c)
      ])
    ]

handle_parsed-fixed :
    (w : Worker) (i : ℕ) (c : ProxyConn) (st : HpState) (req : Request) (env : ClientEnv)
    → fixed (handle_parsed w i c st req env).0 ≡ fixed w
unfolding handle_parsed
handle_parsed-fixed w i c done req env = admit-fixed w i _ req env
handle_parsed-fixed w i c _ req env = close_client_conn-fixed w i c

handle_client_read-fixed :
    (w : Worker) (i : ℕ) (c : ProxyConn) (env : ClientEnv)
    → fixed (handle_client_read w i c env).0 ≡ fixed w
unfolding handle_client_read
handle_client_read-fixed w i c env = elim (Option-cases env.received) [
  | inl e ↦ rw (e, handle_client_read) (close_client_conn-fixed w i c)
  | inr (bytes, e) ↦ elim (Option-cases (feed req_init bytes)) [
    | inl f ↦ rw (e, handle_client_read, f) (close_client_conn-fixed w i _)
    | inr ((req, consumed), f) ↦
        rw (e, handle_client_read, f) (handle_parsed-fixed w i _ req.state req env)
  ]
]

upstream_writable-fixed :
    (w : Worker) (i : ℕ) (c : ProxyConn) (u : ℤ) (failed : Bool) (taken : Option ℕ)
    → fixed (upstream_writable w i c u failed taken).0 ≡ fixed w
unfolding upstream_writable sent_request
upstream_writable-fixed w i c (negsuc _) failed taken = refl
upstream_writable-fixed w i c (pos ufd) true taken = close_client_conn-fixed w i c
upstream_writable-fixed w i c (pos ufd) false none = refl
upstream_writable-fixed w i c (pos ufd) false (some zero) = refl
upstream_writable-fixed w i c (pos ufd) false (some (suc m)) = refl

upstream_readable-fixed :
    (w : Worker) (i : ℕ) (c : ProxyConn) (u : ℤ) (r : ReadResult)
    → fixed (upstream_readable w i c u r).0 ≡ fixed w
unfolding upstream_readable
upstream_readable-fixed w i c (negsuc _) r = refl
upstream_readable-fixed w i c (pos ufd) (got bytes) =
    close_client_conn-fixed w i (record c { resp_buf = bytes; status_code = 200 })
upstream_readable-fixed w i c (pos ufd) end_of_file = close_client_conn-fixed w i c
upstream_readable-fixed w i c (pos ufd) again = refl
upstream_readable-fixed w i c (pos ufd) broken = refl

register-fixed :
    (w : Worker) (a : Accepted) (cs : List ProxyConn) (r : Option ℕ)
    → fixed (register w a cs r).0 ≡ fixed w
unfolding register
register-fixed w a cs none = refl
register-fixed w a cs (some i) = elim (Option-cases (get_elem? cs i)) [
  | inl e ↦ rw (e, register) refl
  | inr (c, e) ↦ rw (e, register) refl
]

accept_client-fixed : (w : Worker) (a : Option Accepted) → fixed (accept_client w a).0 ≡ fixed w
unfolding accept_client
accept_client-fixed w none = refl
accept_client-fixed w (some a) =
    register-fixed w a (proxy_alloc w.pool a.fd).0 (proxy_alloc w.pool a.fd).1

on_conn-fixed :
    (w : Worker) (i : ℕ) (c : ProxyConn) (st : ConnState) (can_read can_write : Bool)
    (env : EventEnv)
    → fixed (on_conn w i c st can_read can_write env).0 ≡ fixed w
unfolding on_conn
on_conn-fixed w i c reading_req true can_write env = handle_client_read-fixed w i c env.client
on_conn-fixed w i c reading_req false can_write env = refl
on_conn-fixed w i c connecting_upstream can_read can_write env =
    elim (Bool-cases (can_write || can_read)) [
      | inl e ↦ rw e (upstream_writable-fixed w i c c.upstream_fd env.socket_failed env.taken)
      | inr e ↦ rw e refl
    ]
on_conn-fixed w i c reading_upstream true can_write env =
    upstream_readable-fixed w i c c.upstream_fd env.read
on_conn-fixed w i c reading_upstream false can_write env = refl
on_conn-fixed w i c _ can_read can_write env = refl

on_slot-fixed :
    (w : Worker) (slot : Option ℕ) (can_read can_write : Bool) (env : EventEnv)
    → fixed (on_slot w slot can_read can_write env).0 ≡ fixed w
unfolding on_slot
on_slot-fixed w none can_read can_write env = refl
on_slot-fixed w (some i) can_read can_write env = elim (Option-cases (get_elem? w.pool i)) [
  | inl e ↦ rw (e, on_slot) refl
  | inr (c, e) ↦ rw (e, on_slot) (on_conn-fixed w i c c.state can_read can_write env)
]

pub on_event-fixed :
    (w : Worker) (s : Shared) (fd : ℕ) (can_read can_write : Bool) (env : EventEnv)
    → fixed (on_event w s fd can_read can_write env).0 ≡ fixed w
unfolding on_event
on_event-fixed w s fd can_read can_write env = elim (Bool-cases (fd == w.listen_fd)) [
  | inr other ↦ simp other (on_slot-fixed w (proxy_get w.pool fd) can_read can_write env)
  | inl listening ↦ simp listening (elim (Bool-cases (should_drain w s)) [
    | inl draining ↦ simp draining refl
    | inr serving ↦ simp serving (accept_client-fixed w env.accepted)
  ])
]
