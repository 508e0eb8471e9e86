-- ===== src/Worker/Drain.antt =====
-- src/worker.c: the loop of `nexus_worker_run`, as the events that `nexus_epoll_wait` reports, and
-- when it ends.
use nexus_gateway.Base.{All, Bool, List, [], ap, arith, false, true, ℕ, ◌+◌, ◌<◌, ◌↔◌, ◌∷◌, ◌≡◌}
use nexus_gateway.Base.Int.{neg_part, pos_part}
use nexus_gateway.Worker.{Worker}
use nexus_gateway.Worker.Count.{Counts, used_slots}
use nexus_gateway.Worker.Events.{EventEnv, Shared, exits, on_event, should_drain}
use nexus_gateway.Worker.Leak.{IsBroken, IsDescriptor, on_event-Counts}

-- One event, with what the shared variables say and the system answers at that time.
pub record Event : Type 0 where
  pub shared : Shared
  pub fd : ℕ
  pub can_read : Bool
  pub can_write : Bool
  pub env : EventEnv

unfoldable pub run_events : Worker → List Event → Worker
run_events w [] = w
run_events w (e ∷ es) = run_events (on_event w e.shared e.fd e.can_read e.can_write e.env).0 es

-- No accepted descriptor is 0, and no read of a node's socket fails but with EAGAIN.
abbrev pub IsRegular : List Event → Type 0
IsRegular = All (λ e. IsDescriptor e.env.accepted × ¬ IsBroken e.env.read)

pub run_events-Counts :
    (k : ℕ) (w : Worker) (es : List Event) → IsRegular es → Counts k w → Counts k (run_events w es)
unfolding run_events
run_events-Counts k w [] h n = n
run_events-Counts k w (e ∷ es) h n =
    run_events-Counts k (on_event w e.shared e.fd e.can_read e.can_write e.env).0 es h.1
      (on_event-Counts k w e.shared e.fd e.can_read e.can_write e.env h.0.0 h.0.1 n)

pub exits-Counts :
    (k : ℕ) (w : Worker) (s : Shared)
    → Counts k w
    → (exits w s ≡ true) ↔ ((should_drain w s ≡ true) × (used_slots w.pool + k ≡ 0))
unfolding exits
exits-Counts k w s n =
    let count = ap pos_part n in let sign = ap neg_part n in ground (arith, count, sign)

-- From a worker whose counter is the number of its slots in use, after any events in which no
-- accepted descriptor is 0 and no read of a node's socket fails but with EAGAIN, the loop ends
-- exactly when the worker is to drain and its last connection is closed.
pub run_events-exits :
    (w : Worker) (es : List Event) (s : Shared)
    → IsRegular es
    → Counts 0 w
    → (exits (run_events w es) s ≡ true)
      ↔ ((should_drain (run_events w es) s ≡ true) × (used_slots (run_events w es).pool ≡ 0))
run_events-exits w es s h n =
    let e = exits-Counts 0 (run_events w es) s (run_events-Counts 0 w es h n) in ground (arith, e)

-- A worker whose counter is above the number of its slots in use never leaves its loop, whatever
-- events follow in which no accepted descriptor is 0 and no read of a node's socket fails but
-- with EAGAIN.
pub run_events_stuck :
    (k : ℕ) (w : Worker) (es : List Event) (s : Shared)
    → 0 < k
    → IsRegular es
    → Counts k w
    → exits (run_events w es) s ≡ false
run_events_stuck k w es s more h n =
    let e = exits-Counts k (run_events w es) s (run_events-Counts k w es h n) in ground (arith, e)
