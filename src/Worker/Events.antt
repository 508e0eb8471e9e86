-- ===== src/Worker/Events.antt =====
-- src/worker.c: `on_event`, and the drain test of the loop in `nexus_worker_run`.
use nexus_gateway.Base.{
  Bool, Bytes, List, Option, [], c_str, get_elem?, if◌then◌else◌, none, set, some, take, ℕ, ◌&&◌,
  ◌==◌, ◌||◌, ◌∷◌,
}
use nexus_gateway.Base.Int.{eq_ℤ, ltb_ℤ, pos, ℤ, ◌+ℤ◌}
use nexus_gateway.Connection.{ConnState, connecting_upstream, reading_req, reading_upstream}
use nexus_gateway.Worker.{
  Out, ProxyConn, Worker, epoll_add, log_accepted, proxy_alloc, proxy_get, readable,
}
use nexus_gateway.Worker.Backend.{ReadResult, handle_upstream_readable, handle_upstream_writable}
use nexus_gateway.Worker.Client.{ClientEnv, handle_client_read}

-- The shared variables that the master writes.
pub record Shared : Type 0 where
  pub shutting_down : Bool
  pub drain_generation : ℤ

-- A client that `nexus_acceptor_accept_ext` accepted: its descriptor, address and port.
pub record Accepted : Type 0 where
  pub fd : ℕ
  pub ip : Bytes
  pub port : ℕ

-- What the system answers during one event.
pub record EventEnv : Type 0 where
  pub accepted : Option Accepted
  pub client : ClientEnv
  pub socket_failed : Bool
  pub taken : Option ℕ
  pub read : ReadResult

-- `shutting_down && drain_generation > g_my_generation`
unfoldable pub should_drain : Worker → Shared → Bool
should_drain w s = s.shutting_down && ltb_ℤ w.my_generation s.drain_generation

-- Behind `proxy_alloc`: without a slot the descriptor is left alone.
unfoldable pub register : Worker → Accepted → List ProxyConn → Option ℕ → Out
register w a pool none = (record w { pool = pool }, [])
register w a pool (some i) = elim (get_elem? pool i) [
  | none ↦ (record w { pool = pool }, [])
  | some c ↦ (
    record w {
      pool = set pool i (record c {
        client_ip = take 63 (c_str a.ip);
        client_port = a.port;
        state = reading_req;
      });
      active_conns = w.active_conns +ℤ pos 1;
    },
    log_accepted (w.active_conns +ℤ pos 1) ∷ epoll_add a.fd readable ∷ [],
  )
]

unfoldable pub accept_client : Worker → Option Accepted → Out
accept_client w none = (w, [])
accept_client w (some a) = register w a (proxy_alloc w.pool a.fd).0 (proxy_alloc w.pool a.fd).1

-- The event of a connection, by its state; the flags are EPOLLIN and EPOLLOUT.
unfoldable pub on_conn : Worker → ℕ → ProxyConn → ConnState → Bool → Bool → EventEnv → Out
on_conn w i c reading_req can_read can_write env =
    if can_read then handle_client_read w i c env.client else (w, [])
on_conn w i c connecting_upstream can_read can_write env =
    if can_write || can_read
    then handle_upstream_writable w i c env.socket_failed env.taken
    else (w, [])
on_conn w i c reading_upstream can_read can_write env =
    if can_read then handle_upstream_readable w i c env.read else (w, [])
on_conn w i c _ can_read can_write env = (w, [])

unfoldable pub on_slot : Worker → Option ℕ → Bool → Bool → EventEnv → Out
on_slot w none can_read can_write env = (w, [])
on_slot w (some i) can_read can_write env = elim (get_elem? w.pool i) [
  | none ↦ (w, [])
  | some c ↦ on_conn w i c c.state can_read can_write env
]

-- `on_event`
unfoldable pub on_event : Worker → Shared → ℕ → Bool → Bool → EventEnv → Out
on_event w s fd can_read can_write env =
    if fd == w.listen_fd
    then (if should_drain w s then (w, []) else accept_client w env.accepted)
    else on_slot w (proxy_get w.pool fd) can_read can_write env

-- `if (should_drain && g_active_conns == 0)` leaves the loop of `nexus_worker_run`.
unfoldable pub exits : Worker → Shared → Bool
unfolding should_drain
exits w s = should_drain w s && eq_ℤ w.active_conns (pos 0)
