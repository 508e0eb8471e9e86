-- ===== src/Worker/Boot.antt =====
-- src/worker.c: what the configuration makes of a worker that starts.
use nexus_gateway.Acceptor.{ListenEnv, acceptor_listen}
use nexus_gateway.Base.{
  Bool, Bytes, List, Option, Option-cases, [], ap, arith, c_str, codes, inl, inr, length, none,
  refl, replicate, some, subst, suc, take, true, zero, ℕ, ◌&&◌, ◌↔◌, ◌∙◌, ◌∷◌, ◌≡◌, ◌≤◌,
}
use nexus_gateway.Base.Int.{ltb_ℤ, pos, ℤ}
use nexus_gateway.Blacklist.{load_blacklist}
use nexus_gateway.Config.{Config, config_get}
use nexus_gateway.Upstream.{Upstream, upstream_init}
use nexus_gateway.Util.Atoi.{atoi}
use nexus_gateway.Worker.{Effect, Worker, proxy_pool_size, zero_conn}
use nexus_gateway.Worker.Count.{Counts, used_slots}
use nexus_gateway.Worker.Drain.{Event, IsRegular, run_events, run_events-exits}
use nexus_gateway.Worker.Events.{Shared, exits, on_event, should_drain}
use nexus_gateway.Worker.Frame.{Fixed, fixed, on_event-fixed}
use nexus_gateway.Worker.HostCopy.{copy_host-eq-none}
use nexus_gateway.Worker.Start.{
  Startup, address_of, configured_upstream, copy_host, host_size, last_colon, not_started, overrun,
  parse_listen_addr, running, server_node, server_of, start_on, with_listener, worker_start,
}

-- With an address to listen on, only the host's buffer decides.
start_on-eq-overrun :
    (cfg : Config) (listen : Bytes → ℤ → Option ℕ) (generation : ℤ) (parts : Bytes × ℤ)
    (u : Option Upstream)
    → (start_on cfg listen generation (some parts) u ≡ overrun) ↔ (u ≡ none)
unfolding start_on with_listener
start_on-eq-overrun cfg listen generation (ip, port) none = ((λ e. refl), λ e. refl)
start_on-eq-overrun cfg listen generation (ip, port) (some u) =
    elim (Option-cases (listen ip port)) [
      | inl l ↦ rw l ((λ e. cc), λ e. cc)
      | inr (n, l) ↦ rw l ((λ e. cc), λ e. cc)
    ]

server_node-eq-none :
    (u : Upstream) (host port : Bytes)
    → (server_node u (some (host, port)) ≡ none) ↔ (host_size ≤ length host)
unfolding server_node
server_node-eq-none u host port = elim (Option-cases (copy_host host)) [
  | inl e ↦ rw (e, server_node) ((λ _. (copy_host-eq-none host).0 e), λ _. refl)
  | inr (a, e) ↦ rw (e, server_node) ((λ q. cc), λ long. cc (e, (copy_host-eq-none host).1 long))
]

-- Where [server] listen and [upstream.api] server are there and have a colon, the start writes
-- past the end of its buffer for the host exactly when the host has 64 bytes or more.
pub worker_start-eq-overrun :
    (cfg : Config) (reuse : Bool) (env : ListenEnv) (generation : ℤ) {address srv host port : Bytes}
    {parts : Bytes × Bytes}
    → config_get cfg (codes "server") (codes "listen") ≡ some address
    → last_colon (c_str address) ≡ some parts
    → config_get cfg (codes "upstream.api") (codes "server") ≡ some srv
    → last_colon (c_str srv) ≡ some (host, port)
    → (worker_start cfg reuse env generation ≡ overrun) ↔ (host_size ≤ length host)
unfolding worker_start address_of parse_listen_addr configured_upstream server_of
worker_start-eq-overrun cfg reuse env generation {host = host} {port = port} {parts = parts} e f g
      h =
    let u = upstream_init (codes "api") in
    let only_none =
      start_on-eq-overrun cfg (λ ip port. (acceptor_listen ip port reuse env).0) generation
        (take 63 parts.0, atoi parts.1) in
    let long = server_node-eq-none u host port in
    rw (e, f, g, h)
      (
        (λ q. long.0 ((only_none (server_node u (some (host, port)))).0 q)),
        λ q. (only_none (server_node u (some (host, port)))).1 (long.1 q),
      )

used_slots-replicate : (n : ℕ) → used_slots (replicate n zero_conn) ≡ 0
unfolding used_slots
used_slots-replicate zero = refl
used_slots-replicate (suc n) = omega (arith, used_slots-replicate n)

-- A worker that runs counts no connection.
abbrev CountsNone : Startup → Type 0
CountsNone not_started = Unit
CountsNone overrun = Unit
CountsNone (running w effects) = Counts 0 w

with_listener-CountsNone :
    (cfg : Config) (u : Upstream) (fd : Option ℕ) (generation : ℤ)
    → CountsNone (with_listener cfg u fd generation)
unfolding with_listener
with_listener-CountsNone cfg u none generation = tt
with_listener-CountsNone cfg u (some n) generation =
    ap pos (omega (arith, used_slots-replicate proxy_pool_size))

start_on-CountsNone :
    (cfg : Config) (listen : Bytes → ℤ → Option ℕ) (generation : ℤ) (address : Option (Bytes × ℤ))
    (u : Option Upstream)
    → CountsNone (start_on cfg listen generation address u)
unfolding start_on
start_on-CountsNone cfg listen generation none u = tt
start_on-CountsNone cfg listen generation (some (ip, port)) none = tt
start_on-CountsNone cfg listen generation (some (ip, port)) (some u) =
    with_listener-CountsNone cfg u (listen ip port) generation

pub run_events-fixed : (w : Worker) (es : List Event) → fixed (run_events w es) ≡ fixed w
unfolding run_events
run_events-fixed w [] = refl
run_events-fixed w (e ∷ es) =
    run_events-fixed (on_event w e.shared e.fd e.can_read e.can_write e.env).0 es
    ∙ on_event-fixed w e.shared e.fd e.can_read e.can_write e.env

-- A worker that runs has read the generation, and refuses the configured addresses.
abbrev IsConfigured : Config → ℤ → Startup → Type 0
IsConfigured cfg generation not_started = Unit
IsConfigured cfg generation overrun = Unit
IsConfigured cfg generation (running w effects) =
    (w.my_generation ≡ generation)
    × (w.bl ≡ load_blacklist (config_get cfg (codes "security") (codes "blacklist")))

start_on-IsConfigured :
    (cfg : Config) (listen : Bytes → ℤ → Option ℕ) (generation : ℤ) (address : Option (Bytes × ℤ))
    (u : Option Upstream)
    → IsConfigured cfg generation (start_on cfg listen generation address u)
unfolding start_on with_listener
start_on-IsConfigured cfg listen generation none u = tt
start_on-IsConfigured cfg listen generation (some (ip, port)) none = tt
start_on-IsConfigured cfg listen generation (some (ip, port)) (some u) =
    elim (Option-cases (listen ip port)) [ inl l ↦ rw l tt | inr (n, l) ↦ rw l (refl, refl) ]

-- What a worker that starts is.
pub record Starts (cfg : Config) (generation : ℤ) (w : Worker) : Type 0 where
  pub counts : Counts 0 w
  pub same : w.my_generation ≡ generation
  pub blocks : w.bl ≡ load_blacklist (config_get cfg (codes "security") (codes "blacklist"))

pub worker_start-Starts :
    (cfg : Config) (reuse : Bool) (env : ListenEnv) (generation : ℤ) {w : Worker}
    {effects : List Effect}
    → worker_start cfg reuse env generation ≡ running w effects
    → Starts cfg generation w
unfolding worker_start
worker_start-Starts cfg reuse env generation {w} e =
    let address = address_of (config_get cfg (codes "server") (codes "listen")) in
    let u = configured_upstream cfg in
    let configured = subst (IsConfigured cfg generation) e (
      start_on-IsConfigured cfg (λ ip port. (acceptor_listen ip port reuse env).0) generation
        address u) in
    record {
      counts = subst CountsNone e (
          start_on-CountsNone cfg (λ ip port. (acceptor_listen ip port reuse env).0) generation
            address u);
      same = configured.0;
      blocks = configured.1;
    }

-- A worker that starts with a generation, after any events in which no accepted descriptor is 0
-- and no read of a node's socket fails but with EAGAIN, leaves its loop exactly when the master
-- is draining for a later generation and its last connection is closed.
pub worker_start-exits :
    (cfg : Config) (reuse : Bool) (env : ListenEnv) (generation : ℤ) {w : Worker}
    {effects : List Effect} (es : List Event) (s : Shared)
    → worker_start cfg reuse env generation ≡ running w effects
    → IsRegular es
    → (exits (run_events w es) s ≡ true) ↔ (
        (s.shutting_down ≡ true)
        × (ltb_ℤ generation s.drain_generation ≡ true)
        × (used_slots (run_events w es).pool ≡ 0))
unfolding should_drain
worker_start-exits cfg reuse env generation {w} es s e h =
    let begun = worker_start-Starts cfg reuse env generation e in
    let kept = ap (λ (f : Fixed). f.3) (run_events-fixed w es) ∙ begun.same in
    let ended = run_events-exits w es s h begun.counts in
    let drains = ap (λ g. s.shutting_down && ltb_ℤ g s.drain_generation) kept in
    ground (arith, ended, drains)
