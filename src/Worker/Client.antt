-- ===== src/Worker/Client.antt =====
-- src/worker.c: `handle_client_read`, from the bytes of one read to the connection to a node.
use nexus_gateway.Base.{
  Bytes, List, Option, [], c_str, codes, drop, get_elem?, if◌then◌else◌, none, some, starts_with,
  take, ℕ, ◌++◌, ◌∷◌,
}
use nexus_gateway.Base.Int.{pos, ℤ}
use nexus_gateway.Blacklist.{bl_check}
use nexus_gateway.Config.{config_get}
use nexus_gateway.Connection.{connecting_upstream}
use nexus_gateway.Headers.{headers_get}
use nexus_gateway.Parser.{HpState, Request, done, feed, req_init}
use nexus_gateway.Parser.Serialize.{serialize}
use nexus_gateway.RateLimit.{rl_check}
use nexus_gateway.Rewrite.{or_default, rewrite_request}
use nexus_gateway.Upstream.{Node, pick}
use nexus_gateway.Worker.{
  Effect, Out, Outcome, ProxyConn, Worker, blocked, both, close_client_conn, connect_to, epoll_add,
  epoll_mod, log_access, put, rate_limited, readable, serve_static, static_file, write,
}

-- What the system answers while the handler runs: the bytes read (`none` for end of file and for an
-- error), the clock, `rand`, and the descriptor that
-- `nexus_proxy_connect_upstream` returns for a node's host and port, if there is one.
pub record ClientEnv : Type 0 where
  pub received : Option Bytes
  pub now_ms : ℕ
  pub rl_created_ms : ℕ
  pub rl_now_ms : ℕ
  pub timestamp : ℕ
  pub rand1 : ℕ
  pub rand2 : ℕ
  pub connected : (host : Bytes) → (port : ℤ) → Option ℕ

abbrev pub forbidden : Bytes
forbidden = codes "HTTP/1.1 403 Forbidden\r\nContent-Length: 0\r\n\r\n"

abbrev pub too_many : Bytes
too_many = codes "HTTP/1.1 429 Too Many Requests\r\nContent-Length: 0\r\n\r\n"

-- `effects`, then what `out` does.
abbrev pub and_then : List Effect → Out → Out
and_then effects out = (out.0, effects ++ out.1)

-- The answer that ends a request at the gateway.
abbrev pub refuse : Worker → ℕ → ProxyConn → Outcome → Request → Bytes → Out
refuse w i c outcome req answer =
    and_then (write c.fd answer ∷ log_access outcome c.client_ip req.method req.path ∷ [])
      (close_client_conn w i c)

-- Behind the connection attempt.
unfoldable pub connect_node : Worker → ℕ → ProxyConn → Option ℕ → Out
connect_node w i c none = close_client_conn w i c
connect_node w i c (some ufd) = (
  put w i (record c { upstream_fd = pos ufd; state = connecting_upstream }),
  epoll_add ufd both ∷ epoll_mod c.fd readable ∷ [],
)

-- `if (req_id) snprintf(c->req_id, …)`
unfoldable pub stored_id : Bytes → Option Bytes → Bytes
stored_id old none = old
stored_id old (some id) = take 15 (c_str id)

-- Behind `nexus_upstream_pick`.
unfoldable pub forward : Worker → ℕ → ProxyConn → Request → Node → ClientEnv → Out
forward w i c req node env =
    let req' =
      rewrite_request req (some c.client_ip) (some (codes "1.0.0")) (some w.cfg) env.timestamp
        env.rand1 env.rand2 in
    elim (serialize req' 4096) [
      | none ↦ close_client_conn w i c
      | some text ↦ and_then (connect_to node.host node.port ∷ []) (
          connect_node w i
            (record c {
              req_buf = text;
              req_id = stored_id c.req_id (headers_get req'.headers (codes "X-Gateway-Req-Id"));
            })
            (env.connected node.host node.port))
    ]

-- `/static` paths: the file under the configured root, whatever comes of it.
unfoldable pub serve_path : Worker → ℕ → ProxyConn → Request → Out
serve_path w i c req =
    let configured = config_get w.cfg (codes "upstream.static") (codes "root") in
    let root = or_default configured (codes "/var/www/html") in
    and_then
      (serve_static c.fd root (drop 7 req.path)
        ∷ log_access static_file c.client_ip req.method req.path
        ∷ [])
      (close_client_conn w i c)

-- The node is a pointer into `g_upstream`: the index is always one of its nodes.
unfoldable pub to_node : Worker → ℕ → ProxyConn → Request → ClientEnv → Option ℕ → Out
to_node w i c req env none = close_client_conn w i c
to_node w i c req env (some b) = elim (get_elem? w.upstream.nodes b) [
  | none ↦ close_client_conn w i c
  | some node ↦ forward w i c req node env
]

-- The static files, or the next node.
unfoldable pub route : Worker → ℕ → ProxyConn → Request → ClientEnv → Out
route w i c req env =
    if starts_with req.path (codes "/static/")
    then serve_path w i c req
    else to_node (record w { upstream = (pick w.upstream).0 }) i c req env (pick w.upstream).1

-- The blacklist, then the rate limit.
unfoldable pub admit : Worker → ℕ → ProxyConn → Request → ClientEnv → Out
admit w i c req env =
    if bl_check w.bl c.client_ip
    then refuse w i c blocked req forbidden
    else let (rl, passed) = rl_check w.rl c.client_ip env.rl_created_ms env.rl_now_ms in
      let w' = record w { rl = rl } in
      if passed then route w' i c req env else refuse w' i c rate_limited req too_many

-- Behind the parser: only a whole request goes on.
unfoldable pub handle_parsed : Worker → ℕ → ProxyConn → HpState → Request → ClientEnv → Out
handle_parsed w i c done req env =
    let c' = record c {
      method = take 15 (c_str req.method);
      path = take 1023 (c_str req.path);
      version = take 15 (c_str req.version);
    } in
    admit w i c' req env
handle_parsed w i c _ req env = close_client_conn w i c

-- `handle_client_read`
unfoldable pub handle_client_read : Worker → ℕ → ProxyConn → ClientEnv → Out
handle_client_read w i c env = elim env.received [
  | none ↦ close_client_conn w i c
  | some bytes ↦
      let c' = record c { req_buf = bytes; start_ms = env.now_ms } in
      elim (feed req_init bytes) [
        | none ↦ close_client_conn w i c'
        | some (req, consumed) ↦ handle_parsed w i c' req.state req env
      ]
]
