-- ===== src/Worker/Blocked.antt =====
-- src/worker.c: a configured blacklist, from the start of a worker to a request.
use nexus_gateway.Acceptor.{ListenEnv}
use nexus_gateway.Base.{
  Bool, Bytes, List, [], ap, arith, c_str, codes, false, length, refl, some, true, ℕ, ◌==◌, ◌∙◌,
  ◌∷◌, ◌≡◌, ◌≢◌, ◌≤◌,
}
use nexus_gateway.Base.Int.{pos, ℤ, ◌-ℤ◌}
use nexus_gateway.Blacklist.{
  bl_check, bl_check-load_blacklist, bl_max, listed, load_blacklist, tokens_loop,
}
use nexus_gateway.Config.{Config, config_get}
use nexus_gateway.Parser.{Request, done, feed, req_init}
use nexus_gateway.Worker.{
  Effect, ProxyConn, Worker, blocked, close, close_client_conn, close_positive, epoll_del,
  log_access, log_closed, write,
}
use nexus_gateway.Worker.Boot.{run_events-fixed, worker_start-Starts}
use nexus_gateway.Worker.Client.{ClientEnv, admit, forbidden, handle_client_read, handle_parsed}
use nexus_gateway.Worker.Drain.{Event, run_events}
use nexus_gateway.Worker.Frame.{Fixed}
use nexus_gateway.Worker.Start.{running, worker_start}

-- A whole request of a listed client is answered with 403, logged, and its connection closed.
handle_client_read_blocked :
    (w : Worker) (i : ℕ) (c : ProxyConn) (env : ClientEnv) {bytes : Bytes} {req : Request} {n : ℕ}
    → (c.fd == 0) ≡ false
    → bl_check w.bl c.client_ip ≡ true
    → env.received ≡ some bytes
    → feed req_init bytes ≡ some (req, n)
    → req.state ≡ done
    → (handle_client_read w i c env).1
      ≡ write c.fd forbidden
        ∷ log_access blocked c.client_ip req.method req.path
        ∷ log_closed (w.active_conns -ℤ pos 1)
        ∷ close c.fd
        ∷ epoll_del c.fd
        ∷ close_positive c.upstream_fd
unfolding handle_client_read handle_parsed admit close_client_conn
handle_client_read_blocked w i c env g listed e f d =
    rw (e, handle_client_read, f, d, listed, g) refl

-- A worker that starts with a configured list of at most 1024 addresses answers, after any
-- events, a whole request of a client with a descriptor other than 0 whose address is in the list
-- with 403, one line of the access log and one of the error log, closes the descriptor and takes
-- it off epoll, with the node's if it has one, and does nothing else.
pub worker_start-blocks :
    (cfg : Config) (reuse : Bool) (listen_env : ListenEnv) (generation : ℤ) {w : Worker}
    {effects : List Effect} (es : List Event) (i : ℕ) (c : ProxyConn) (env : ClientEnv)
    {csv bytes : Bytes} {req : Request} {n : ℕ}
    → c.fd ≢ 0
    → worker_start cfg reuse listen_env generation ≡ running w effects
    → config_get cfg (codes "security") (codes "blacklist") ≡ some csv
    → length (tokens_loop [] (c_str csv)) ≤ bl_max
    → listed c.client_ip (tokens_loop [] (c_str csv)) ≡ true
    → env.received ≡ some bytes
    → feed req_init bytes ≡ some (req, n)
    → req.state ≡ done
    → (handle_client_read (run_events w es) i c env).1
      ≡ write c.fd forbidden
        ∷ log_access blocked c.client_ip req.method req.path
        ∷ log_closed ((run_events w es).active_conns -ℤ pos 1)
        ∷ close c.fd
        ∷ epoll_del c.fd
        ∷ close_positive c.upstream_fd
worker_start-blocks cfg reuse listen_env generation {w} es i c env {csv} open_fd s configured room
      is_listed e f d =
    let begun = worker_start-Starts cfg reuse listen_env generation s in
    let kept = ap (λ (x : Fixed). x.2) (run_events-fixed w es) ∙ begun.blocks in
    let same = kept ∙ ap load_blacklist configured in
    let refuses = bl_check-load_blacklist csv c.client_ip room ∙ is_listed in
    handle_client_read_blocked (run_events w es) i c env (ground (arith, open_fd))
      (ap (λ bl. bl_check bl c.client_ip) same ∙ refuses) e f d
