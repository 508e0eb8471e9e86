-- ===== src/Worker/Start.antt =====
-- src/worker.c: the part of `nexus_worker_run` before its loop.
use mathlib.Core.Option
use nexus_gateway.Acceptor.{ListenEnv, acceptor_listen}
use nexus_gateway.Base.{
  Bool, Bytes, List, Option, [], c_str, codes, if◌then◌else◌, length, none, replicate, some, suc,
  take, zero, ℕ, ◌+◌, ◌==◌, ◌∷◌,
}
use nexus_gateway.Base.Int.{pos, pos_part, ℤ}
use nexus_gateway.Blacklist.{load_blacklist}
use nexus_gateway.Config.{Config, config_get, config_get_int}
use nexus_gateway.RateLimit.{rl_init}
use nexus_gateway.Upstream.{Upstream, add_node, upstream_init}
use nexus_gateway.Util.Atoi.{atoi}
use nexus_gateway.Worker.{Effect, Worker, epoll_add, proxy_pool_size, readable, zero_conn}

-- `strrchr(s, ':')`: the bytes before the last colon and those behind it.
unfoldable pub last_colon : Bytes → Option (Bytes × Bytes)
last_colon [] = none
last_colon (c ∷ cs) = elim (last_colon cs) [
  | some (before, behind) ↦ some (c ∷ before, behind)
  | none ↦ if c == b':' then some ([], cs) else none
]

-- `parse_listen_addr`: the address, of at most 63 bytes, and the port.
unfoldable pub parse_listen_addr : Bytes → Option (Bytes × ℤ)
parse_listen_addr s =
    Option.map (λ (parts : Bytes × Bytes). (take 63 parts.0, atoi parts.1)) (last_colon (c_str s))

-- `char host[64]`
abbrev pub host_size : ℕ
host_size = 64

-- `a[j] = v`; C gives no meaning to a write outside the array, which is `none`.
unfoldable pub store : Bytes → ℕ → ℕ → Option Bytes
store [] j v = none
store (x ∷ a) zero v = some (v ∷ a)
store (x ∷ a) (suc j) v = Option.map (◌∷◌ x) (store a j v)

-- `memcpy(a + j, s, …)`, byte by byte.
unfoldable pub copy_to : Bytes → ℕ → Bytes → Option Bytes
copy_to a j [] = some a
copy_to a j (b ∷ s) = elim (store a j b) [ none ↦ none | some a' ↦ copy_to a' (j + 1) s ]

-- `memcpy(host, srv, hl); host[hl] = '\0';`, with no test of `hl`.
unfoldable pub copy_host : Bytes → Option Bytes
copy_host s = elim (copy_to (replicate host_size 0) 0 s) [
  | none ↦ none
  | some a ↦ store a (length s) 0
]

-- The node of `[upstream.api] server`; `none` where the copy leaves `host`.
unfoldable pub server_node : Upstream → Option (Bytes × Bytes) → Option Upstream
server_node u none = some u
server_node u (some (s, port)) = elim (copy_host s) [
  | none ↦ none
  | some host ↦ some (add_node u (c_str host) (atoi port) (pos 1)).0
]

unfoldable pub server_of : Upstream → Option Bytes → Option Upstream
server_of u none = some u
server_of u (some srv) = server_node u (last_colon (c_str srv))

unfoldable pub configured_upstream : Config → Option Upstream
configured_upstream cfg =
    server_of (upstream_init (codes "api")) (config_get cfg (codes "upstream.api") (codes "server"))

-- What the start comes to: it returns 1, it writes outside `host`, or the loop begins, after the
-- effects.
pub data Startup : Type 0 where
  not_started : Startup
  overrun : Startup
  running : Worker → List Effect → Startup

-- Behind `nexus_acceptor_listen`, whose result is the argument; the file's static variables begin at
-- zero. A rate below 0 lets no request pass, as 0 does. The health checker that is started runs by
-- itself.
unfoldable pub with_listener : Config → Upstream → Option ℕ → ℤ → Startup
with_listener cfg u none generation = not_started
with_listener cfg u (some fd) generation =
    running
      (record {
        cfg = cfg;
        upstream = u;
        listen_fd = fd;
        active_conns = pos 0;
        rl = rl_init (
            pos_part (config_get_int cfg (codes "security") (codes "rate_limit_per_ip") (pos 100)));
        bl = load_blacklist (config_get cfg (codes "security") (codes "blacklist"));
        pool = replicate proxy_pool_size zero_conn;
        my_generation = generation;
      })
      (epoll_add fd readable ∷ [])

-- The address of `[server] listen`, if it is there and has a colon.
unfoldable pub address_of : Option Bytes → Option (Bytes × ℤ)
address_of none = none
address_of (some listen) = parse_listen_addr listen

unfoldable pub start_on :
    Config → (Bytes → ℤ → Option ℕ) → ℤ → Option (Bytes × ℤ) → Option Upstream → Startup
start_on cfg listen generation none u = not_started
start_on cfg listen generation (some (ip, port)) none = overrun
start_on cfg listen generation (some (ip, port)) (some u) =
    with_listener cfg u (listen ip port) generation

-- The start: `reuse` says whether the master forked the process, and `env` what the system answers
-- to the listening socket.
unfoldable pub worker_start : Config → (reuse : Bool) → ListenEnv → ℤ → Startup
worker_start cfg reuse env generation =
    start_on cfg (λ ip port. (acceptor_listen ip port reuse env).0) generation
      (address_of (config_get cfg (codes "server") (codes "listen"))) (configured_upstream cfg)
