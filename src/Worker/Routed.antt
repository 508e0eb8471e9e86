-- ===== src/Worker/Routed.antt =====
-- src/worker.c: the owners of descriptors over the whole life of a worker.
use nexus_gateway.Acceptor.{ListenEnv, acceptor_listen}
use nexus_gateway.Base.{
  Bool, Bytes, List, Option, Option-cases, [], arith, codes, get_elem?, inl, inr, none, refl,
  replicate, some, subst, suc, sym, zero, ℕ, ◌∷◌, ◌≡◌, ◌≢◌,
}
use nexus_gateway.Base.Int.{ℤ}
use nexus_gateway.Config.{Config, config_get}
use nexus_gateway.Upstream.{Upstream}
use nexus_gateway.Worker.{Effect, ProxyConn, Worker, proxy_get, proxy_pool_size, zero_conn}
use nexus_gateway.Worker.Drain.{Event, run_events}
use nexus_gateway.Worker.Events.{on_event}
use nexus_gateway.Worker.Leak.{IsDescriptor}
use nexus_gateway.Worker.Lifecycle.{unused}
use nexus_gateway.Worker.Owners.{NewIn, Owned, on_event-Owned, proxy_get-owner}
use nexus_gateway.Worker.Slots.{Uses}
use nexus_gateway.Worker.Start.{
  Startup, address_of, configured_upstream, running, start_on, with_listener, worker_start,
}
use nexus_gateway.Worker.Stepped.{AllNew}
use nexus_gateway.Worker.Views.{HoldsFd, ViewsAll}

-- What an event needs: a descriptor other than 0, as the accepted client has, and new descriptors.
abbrev BringsNew : Worker → Event → Type 0
BringsNew w e = (e.fd ≢ 0) × IsDescriptor e.env.accepted × AllNew (NewIn w.pool) e.env

abbrev AllBringNew : Worker → List Event → Type 0
AllBringNew w [] = Unit
AllBringNew w (e ∷ es) =
    BringsNew w e × AllBringNew (on_event w e.shared e.fd e.can_read e.can_write e.env).0 es

run_events-Owned :
    (w : Worker) (es : List Event) → AllBringNew w es → Owned w.pool → Owned (run_events w es).pool
unfolding run_events
run_events-Owned w [] new o = o
run_events-Owned w (e ∷ es) new o =
    run_events-Owned (on_event w e.shared e.fd e.can_read e.can_write e.env).0 es new.1
      (on_event-Owned w e.shared e.fd e.can_read e.can_write e.env new.0.0 new.0.1 new.0.2 o)

ViewsAll-replicate : (n : ℕ) → ViewsAll (replicate n unused) (replicate n zero_conn)
ViewsAll-replicate zero = tt
ViewsAll-replicate (suc n) = ((refl, inr refl), ViewsAll-replicate n)

replicate-at {ℓ} :
    {A : Type ℓ} (n i : ℕ) (a : A) {b : A} → get_elem? (replicate n a) i ≡ some b → a ≡ b
replicate-at zero i a e = absurd (ground arith)
replicate-at (suc n) zero a e = ground arith
replicate-at (suc n) (suc i) a {b} e = replicate-at n i a {b = b} e

replicate-Owned : (n : ℕ) → Owned (replicate n zero_conn)
replicate-Owned n = record {
  slots = replicate n unused;
  views = ViewsAll-replicate n;
  apart = λ i j fd s t ei ej u u'.
      elim (subst (λ x. Uses x fd) (sym (replicate-at n i unused {b = s} ei)) u) [ ];
}

abbrev StartsOwned : Startup → Type 0
StartsOwned (running w effects) = Owned w.pool
StartsOwned _ = Unit

start_on-StartsOwned :
    (cfg : Config) (listen : Bytes → ℤ → Option ℕ) (generation : ℤ) (address : Option (Bytes × ℤ))
    (u : Option Upstream)
    → StartsOwned (start_on cfg listen generation address u)
unfolding start_on with_listener
start_on-StartsOwned cfg listen generation none u = tt
start_on-StartsOwned cfg listen generation (some (ip, port)) none = tt
start_on-StartsOwned cfg listen generation (some (ip, port)) (some u) =
    elim (Option-cases (listen ip port)) [
      | inl l ↦ rw l tt
      | inr (n, l) ↦ rw l (replicate-Owned proxy_pool_size)
    ]

-- After any events of a worker that has started, in which no event and no accepted client is of
-- descriptor 0 and every descriptor that a client or a node gets is new to the pool, proxy_get
-- finds for a descriptor other than 0 that a connection has open the slot of that connection.
pub worker_start-proxy_get :
    (cfg : Config) (reuse : Bool) (env : ListenEnv) (generation : ℤ) {w : Worker}
    {effects : List Effect} (es : List Event) (fd i : ℕ) {c : ProxyConn}
    → worker_start cfg reuse env generation ≡ running w effects
    → AllBringNew w es
    → fd ≢ 0
    → get_elem? (run_events w es).pool i ≡ some c
    → HoldsFd c fd
    → proxy_get (run_events w es).pool fd ≡ some i
unfolding worker_start
worker_start-proxy_get cfg reuse env generation {w} {effects} es fd i {c} e new ne at h =
    let owned = subst StartsOwned e (
      start_on-StartsOwned cfg (λ ip port. (acceptor_listen ip port reuse env).0) generation
        (address_of (config_get cfg (codes "server") (codes "listen")))
        (configured_upstream cfg)) in
    proxy_get-owner (run_events w es).pool fd i {c = c} (run_events-Owned w es new owned) ne at h
