-- ===== src/Tests/Processes.antt =====
-- src/worker.c, from the start of a worker on, at concrete inputs.
use nexus_gateway.Acceptor.{ListenEnv, acceptor_listen, bind_and_listen}
use nexus_gateway.Base.{
  Bytes, [], ap, arith, bytes_eq, c_str, codes, false, inl, inr, length, none, refl, replicate,
  some, split_at_byte, starts_with, subst, suc, sym, true, zero, ℕ, ◌++◌, ◌↔◌, ◌∷◌, ◌≡◌, ◌≢◌, ◌≤◌,
}
use nexus_gateway.Base.Int.{ltb_ℤ, negsuc, pos, pos_part, ◌-ℤ◌}
use nexus_gateway.Blacklist.{add_all, bl_add, listed, load_blacklist, tokens_loop}
use nexus_gateway.Config.{Config, compound, config_get, config_get_int, find_kv}
use nexus_gateway.Connection.{reading_req}
use nexus_gateway.Headers.{find_hash, headers_get}
use nexus_gateway.Parser.{
  Request, content_length, done, end_of_headers, feed, feed_line, feed_loop, feed_round, find_eol,
  line_buffer, line_round, parse_path, parse_request_line, parse_version, req_init,
}
use nexus_gateway.RateLimit.{rl_init}
use nexus_gateway.Tests.Events.{same_accepted}
use nexus_gateway.Upstream.{add_node, positive_weight, upstream_init}
use nexus_gateway.Util.{fnv1a_from, fnv1a_round, hash_fnv1a, to_lower}
use nexus_gateway.Util.Atoi.{atoi, digits_from, is_digit, is_space, minus, signed, skip_space}
use nexus_gateway.Worker.{
  ProxyConn, Worker, blocked, close, close_positive, epoll_add, epoll_del, log_access, log_closed,
  proxy_alloc, proxy_get, proxy_pool_size, readable, write, zero_conn,
}
use nexus_gateway.Worker.Backend.{again}
use nexus_gateway.Worker.Blocked.{worker_start-blocks}
use nexus_gateway.Worker.Boot.{worker_start-eq-overrun, worker_start-exits}
use nexus_gateway.Worker.Client.{forbidden, handle_client_read}
use nexus_gateway.Worker.Count.{used_slots}
use nexus_gateway.Worker.Drain.{Event, run_events}
use nexus_gateway.Worker.Events.{
  EventEnv, Shared, accept_client, exits, on_event, register, should_drain,
}
use nexus_gateway.Worker.Owners.{NewIn}
use nexus_gateway.Worker.Routed.{worker_start-proxy_get}
use nexus_gateway.Worker.Start.{
  address_of, configured_upstream, copy_host, copy_to, last_colon, overrun, parse_listen_addr,
  running, server_node, server_of, start_on, store, with_listener, worker_start,
}
use nexus_gateway.Worker.Views.{HoldsFd}

abbrev pub start_config : Config
start_config = record {
  current_section = [];
  kvs =
      (codes "server.listen", codes "0.0.0.0:8080")
      ∷ (codes "upstream.api.server", codes "10.0.0.9:80")
      ∷ [];
  custom_headers = [];
}

abbrev long_host : Bytes
long_host = replicate 64 b'a'

-- A configuration whose server has a host of 64 bytes.
abbrev long_server : Bytes
long_server = long_host ++ codes ":80"

abbrev long_config : Config
long_config = record start_config {
  kvs =
      (codes "server.listen", codes "0.0.0.0:8080")
      ∷ (codes "upstream.api.server", long_server)
      ∷ [];
}

abbrev pub listens : ListenEnv
listens = record { socket_fd = some 3; bind_ok = true; listen_ok = true }

worker_start-eq-overrun_example :
    (worker_start long_config true listens (pos 0) ≡ overrun) ↔ (64 ≤ length long_host)
unfolding config_get find_kv compound c_str bytes_eq last_colon
worker_start-eq-overrun_example =
    worker_start-eq-overrun long_config true listens (pos 0) {address = codes "0.0.0.0:8080"}
      {srv = long_server} {host = long_host} {port = codes "80"}
      {parts = (codes "0.0.0.0", codes "8080")} refl refl refl refl

overrun_test : worker_start long_config true listens (pos 0) ≡ overrun
overrun_test = worker_start-eq-overrun_example.1 (omega arith)

-- The worker of the short configuration.
abbrev pub first_worker : Worker
first_worker = record {
  cfg = start_config;
  upstream = record {
    name = codes "api";
    nodes =
        record {
          host = codes "10.0.0.9";
          port = pos 80;
          weight = 1;
          healthy = true;
          active_conns = pos 0;
        }
        ∷ [];
    cur_weight = 0;
    max_weight = 0;
    gcd_weight = 0;
  };
  listen_fd = 3;
  active_conns = pos 0;
  rl = rl_init 100;
  bl = [];
  pool = replicate proxy_pool_size zero_conn;
  my_generation = pos 0;
}

pub worker_start_test :
    worker_start start_config true listens (pos 0)
    ≡ running first_worker (epoll_add 3 readable ∷ [])
unfolding worker_start acceptor_listen bind_and_listen start_on address_of parse_listen_addr
    configured_upstream server_of server_node copy_host copy_to store with_listener last_colon
    config_get config_get_int find_kv compound c_str bytes_eq upstream_init add_node positive_weight
    load_blacklist atoi skip_space digits_from signed minus is_digit is_space
worker_start_test = refl

-- A restart has begun: the generation is 1.
abbrev draining : Shared
draining = record { shutting_down = true; drain_generation = pos 1 }

abbrev no_client : EventEnv
no_client = record {
  accepted = none;
  client = record {
    received = none;
    now_ms = 5;
    rl_created_ms = 5;
    rl_now_ms = 5;
    timestamp = 5;
    rand1 = 1;
    rand2 = 2;
    connected = λ host port. none;
  };
  socket_failed = false;
  taken = none;
  read = again;
}

abbrev idle_event : Event
idle_event = record {
  shared = draining;
  fd = 3;
  can_read = true;
  can_write = false;
  env = no_client;
}

worker_start-exits_example : (exits (run_events first_worker (idle_event ∷ [])) draining ≡ true) ↔ (
    (draining.shutting_down ≡ true)
    × (ltb_ℤ (pos 0) draining.drain_generation ≡ true)
    × (used_slots (run_events first_worker (idle_event ∷ [])).pool ≡ 0))
worker_start-exits_example =
    worker_start-exits start_config true listens (pos 0) {w = first_worker}
      {effects = epoll_add 3 readable ∷ []} (idle_event ∷ []) draining worker_start_test
      ((tt, λ b. b), tt)

-- A configuration that refuses two addresses, and the worker that starts with it.
abbrev strict_config : Config
strict_config = record start_config {
  kvs =
      (codes "server.listen", codes "0.0.0.0:8080")
      ∷ (codes "upstream.api.server", codes "10.0.0.9:80")
      ∷ (codes "security.blacklist", codes "10.0.0.1, 10.0.0.2")
      ∷ [];
}

abbrev strict_worker : Worker
strict_worker = record first_worker {
  cfg = strict_config;
  bl = codes "10.0.0.1" ∷ codes "10.0.0.2" ∷ [];
}

strict_start_test :
    worker_start strict_config true listens (pos 0)
    ≡ running strict_worker (epoll_add 3 readable ∷ [])
unfolding worker_start acceptor_listen bind_and_listen start_on address_of parse_listen_addr
    configured_upstream server_of server_node copy_host copy_to store with_listener last_colon
    config_get config_get_int find_kv compound c_str bytes_eq upstream_init add_node positive_weight
    load_blacklist add_all bl_add tokens_loop atoi skip_space digits_from signed minus is_digit
    is_space
strict_start_test = refl

abbrev refused_conn : ProxyConn
refused_conn = record zero_conn {
  fd = 7;
  state = reading_req;
  upstream_fd = negsuc 0;
  client_ip = codes "10.0.0.2";
}

abbrev plain_get : Bytes
plain_get = codes "GET /a HTTP/1.1\r\n\r\n"

abbrev plain_request : Request
plain_request = record req_init {
  state = done;
  method = codes "GET";
  path = codes "/a";
  version = codes "HTTP/1.1";
}

plain_get_test : feed req_init plain_get ≡ some (plain_request, 19)
unfolding feed feed_loop feed_round line_round feed_line line_buffer find_eol parse_request_line
    parse_path parse_version end_of_headers content_length headers_get find_hash c_str split_at_byte
    bytes_eq starts_with hash_fnv1a fnv1a_from fnv1a_round to_lower
plain_get_test = refl

worker_start-blocks_example :
    (handle_client_read
      (run_events strict_worker (idle_event ∷ []))
      0
      refused_conn
      (record no_client.client { received = some plain_get })).1
    ≡ write 7 forbidden
      ∷ log_access blocked (codes "10.0.0.2") (codes "GET") (codes "/a")
      ∷ log_closed ((run_events strict_worker (idle_event ∷ [])).active_conns -ℤ pos 1)
      ∷ close 7
      ∷ epoll_del 7
      ∷ close_positive refused_conn.upstream_fd
unfolding config_get find_kv compound c_str bytes_eq tokens_loop listed
worker_start-blocks_example =
    worker_start-blocks strict_config true listens (pos 0) {w = strict_worker}
      {effects = epoll_add 3 readable ∷ []} (idle_event ∷ []) 0 refused_conn
      (record no_client.client { received = some plain_get }) {csv = codes "10.0.0.1, 10.0.0.2"}
      {bytes = plain_get} {req = plain_request} {n = 19} (omega arith) strict_start_test refl
      (omega arith) refl refl plain_get_test refl

-- A client is accepted with descriptor 8.
abbrev new_client : Event
new_client = record idle_event {
  shared = record { shutting_down = false; drain_generation = pos 0 };
  env = record no_client {
    accepted = some (record { fd = 8; ip = codes "10.0.0.2"; port = 4000 });
  };
}

replicate-NewIn : (n fd : ℕ) → fd ≢ 0 → NewIn (replicate n zero_conn) fd
replicate-NewIn zero fd ne i c e h = absurd (ground (arith, e))
replicate-NewIn (suc n) fd ne zero c e h =
    let same : zero_conn ≡ c = ground arith in
    elim (subst (λ x. HoldsFd x fd) (sym same) h) [
      | inl z ↦ ne (sym z)
      | inr z ↦ ne (sym (ap pos_part z))
    ]
replicate-NewIn (suc n) fd ne (suc i) c e h = replicate-NewIn n fd ne i c e h

worker_start-proxy_get_example :
    proxy_get (run_events first_worker (new_client ∷ [])).pool 8 ≡ some 0
unfolding run_events on_event should_drain accept_client register proxy_alloc
worker_start-proxy_get_example =
    worker_start-proxy_get start_config true listens (pos 0) {w = first_worker}
      {effects = epoll_add 3 readable ∷ []} (new_client ∷ []) 8 0 worker_start_test
      (
        (
          omega arith,
          omega arith,
          (
            (λ a e.
                subst (λ fd. NewIn first_worker.pool fd) (sym (same_accepted a _ e))
                  (replicate-NewIn proxy_pool_size 8 (omega arith))),
            λ host port u e. absurd (ground (arith, e)),
          ),
        ),
        tt,
      )
      (omega arith) refl (inl refl)
