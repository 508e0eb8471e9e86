-- ===== src/Worker.antt =====
-- src/worker.c: the state of a worker process, its pool of proxied connections, and how a connection
-- is closed. A connection is the index of its slot; a handler takes the slot's content `c`, which it
-- writes back. System calls and access log lines are listed as effects, in order; what the system
-- answers is an argument.
pub mod Client
pub mod Backend
pub mod Events
pub mod Count
pub mod Leak
pub mod Drain
pub mod Frame
pub mod Loop
pub mod Lifecycle
pub mod Steps
pub mod Slots
pub mod Views
pub mod Above
pub mod Stepped
pub mod Start
pub mod HostCopy
pub mod Boot
pub mod Owners
pub mod Routed
pub mod Blocked
pub mod Gate
pub mod Guarded
pub mod Delivered
use mathlib.Core.Option
use nexus_gateway.Base.{
  Bytes, List, Option, [], if◌then◌else◌, none, set, some, suc, zero, ℕ, ◌++◌, ◌==◌, ◌||◌, ◌∷◌,
}
use nexus_gateway.Base.Int.{eq_ℤ, negsuc, pos, ℤ, ◌-ℤ◌}
use nexus_gateway.Blacklist.{Blacklist}
use nexus_gateway.Config.{Config}
use nexus_gateway.Connection.{ConnState, idle}
use nexus_gateway.RateLimit.{RateLimiter}
use nexus_gateway.Upstream.{Upstream}

-- Interest in a descriptor: EPOLLIN, or EPOLLOUT | EPOLLIN.
pub data Interest : Type 0 where
  readable both : Interest

-- The line of the access log that ends a request.
pub data Outcome : Type 0 where
  blocked rate_limited static_file : Outcome

pub data Effect : Type 0 where
  close : ℕ → Effect
  epoll_add : ℕ → Interest → Effect
  epoll_mod : ℕ → Interest → Effect
  epoll_del : ℕ → Effect
  write : ℕ → Bytes → Effect
  serve_static : ℕ → Bytes → Bytes → Effect
  log_access : Outcome → Bytes → Bytes → Bytes → Effect
  log_closed log_accepted : (active : ℤ) → Effect
  connect_to : (host : Bytes) → (port : ℤ) → Effect
  log_request : (client_ip : Bytes) → (port status bytes : ℕ) → (req_id : Bytes) → Effect

-- `proxy_conn_t`. The buffers are their valid bytes: `req_len` and `resp_len` are lengths.
pub record ProxyConn : Type 0 where
  pub fd : ℕ
  pub state : ConnState
  pub upstream_fd : ℤ
  pub req_buf : Bytes
  pub resp_buf : Bytes
  pub client_ip : Bytes
  pub client_port : ℕ
  pub req_id : Bytes
  pub start_ms : ℕ
  pub method : Bytes
  pub path : Bytes
  pub version : Bytes
  pub status_code : ℕ

-- PROXY_POOL_SIZE
abbrev pub proxy_pool_size : ℕ
proxy_pool_size = 1024

-- The file's static variables.
pub record Worker : Type 0 where
  pub cfg : Config
  pub upstream : Upstream
  pub listen_fd : ℕ
  pub active_conns : ℤ
  pub rl : RateLimiter
  pub bl : Blacklist
  pub pool : List ProxyConn
  pub my_generation : ℤ

abbrev pub Out : Type 0
Out = Worker × List Effect

-- A slot of the zeroed pool.
abbrev pub zero_conn : ProxyConn
zero_conn = record {
  fd = 0;
  state = idle;
  upstream_fd = pos 0;
  req_buf = [];
  resp_buf = [];
  client_ip = [];
  client_port = 0;
  req_id = [];
  start_ms = 0;
  method = [];
  path = [];
  version = [];
  status_code = 0;
}

-- `proxy_alloc`: the pool, and the slot taken if one is free.
unfoldable pub proxy_alloc : List ProxyConn → ℕ → List ProxyConn × Option ℕ
proxy_alloc [] fd = ([], none)
proxy_alloc (c ∷ cs) fd =
    let (cs', i) = proxy_alloc cs fd in
    if c.fd == 0
    then (record c { fd = fd; state = idle; upstream_fd = negsuc 0 } ∷ cs, some 0)
    else (c ∷ cs', Option.map suc i)

-- `proxy_free`
unfoldable pub proxy_free : ProxyConn → ProxyConn
proxy_free c = record {
  fd = 0;
  state = c.state;
  upstream_fd = negsuc 0;
  req_buf = [];
  resp_buf = [];
  client_ip = [];
  client_port = 0;
  req_id = [];
  start_ms = 0;
  method = [];
  path = [];
  version = [];
  status_code = 0;
}

-- `proxy_get`: the first slot with the descriptor on either side.
unfoldable pub proxy_get : List ProxyConn → ℕ → Option ℕ
proxy_get [] fd = none
proxy_get (c ∷ cs) fd =
    if c.fd == fd || eq_ℤ c.upstream_fd (pos fd) then some 0 else Option.map suc (proxy_get cs fd)

-- The slot `i` holds `c`.
abbrev pub put : Worker → ℕ → ProxyConn → Worker
put w i c = record w { pool = set w.pool i c }

-- `close(fd); nexus_epoll_del(fd);`
abbrev pub close_fd : ℕ → List Effect
close_fd fd = close fd ∷ epoll_del fd ∷ []

-- The same, where the code tests `fd > 0`.
unfoldable pub close_positive : ℤ → List Effect
close_positive (pos zero) = []
close_positive (pos (suc n)) = close_fd (suc n)
close_positive (negsuc n) = []

-- `close_client_conn`
unfoldable pub close_client_conn : Worker → ℕ → ProxyConn → Out
close_client_conn w i c =
    let w' = put w i (proxy_free c) in
    if c.fd == 0 then (w', close_positive c.upstream_fd) else (
      record w' { active_conns = w.active_conns -ℤ pos 1 },
      log_closed (w.active_conns -ℤ pos 1) ∷ close_fd c.fd ++ close_positive c.upstream_fd,
    )
