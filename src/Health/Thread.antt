-- ===== src/Health/Thread.antt =====
-- src/health.c: the thread of the health checker. The thread's identifier is the system's; a thread
-- reads `running` before each round.
use nexus_gateway.Base.{
  Bool, List, Option, [], false, if◌then◌else◌, none, refl, true, ℕ, ◌++◌, ◌∷◌, ◌≡◌,
}
use nexus_gateway.Health.{Checker, health_create, health_round, health_run}
use nexus_gateway.Upstream.{Upstream}

-- `struct nexus_health_checker_t` with its thread: `running`, and `tid` once a thread was created.
pub record Thread : Type 0 where
  pub checker : Checker
  pub running : Bool
  pub tid : Option ℕ

-- `calloc` and the fields of `nexus_health_create`.
abbrev pub thread_create : ℕ → Thread
thread_create threshold = record { checker = health_create threshold; running = false; tid = none }

-- `nexus_health_start`, given what `pthread_create` answers; the answer is not looked at.
unfoldable pub health_start : Thread → Option ℕ → Thread
health_start h created = record h { running = true; tid = created }

-- `nexus_health_stop`: the checker, and the thread that is joined.
unfoldable pub health_stop : Thread → Thread × Option ℕ
health_stop h = (record h { running = false }, h.tid)

-- `run`: a turn for each reading of `running`, with what the probes of its round find. The flag says
-- whether the thread has returned.
unfoldable pub thread_run :
    Checker → List (Bool × (ℕ → Bool)) → Upstream → (Checker × Upstream) × Bool
thread_run c [] u = ((c, u), false)
thread_run c ((running, ok) ∷ turns) u =
    let (c', u') = health_round c ok u in
    let rest = thread_run c' turns u' in if running then rest else ((c, u), true)

-- The rounds before the first reading that is not set.
unfoldable pub rounds_of : List (Bool × (ℕ → Bool)) → List (ℕ → Bool)
rounds_of [] = []
rounds_of ((running, ok) ∷ turns) = let rest = rounds_of turns in if running then ok ∷ rest else []

-- The thread makes the rounds of its turns before it is stopped, and no other.
pub thread_run-health_run :
    (c : Checker) (turns : List (Bool × (ℕ → Bool))) (u : Upstream)
    → (thread_run c turns u).0 ≡ health_run c (rounds_of turns) u
unfolding thread_run rounds_of health_run
thread_run-health_run c [] u = refl
thread_run-health_run c ((true, ok) ∷ turns) u =
    thread_run-health_run (health_round c ok u).0 turns (health_round c ok u).1
thread_run-health_run c ((false, ok) ∷ turns) u = refl

-- A thread that reads `running` behind `nexus_health_stop` returns.
pub thread_run-returns :
    (c : Checker) (turns : List (Bool × (ℕ → Bool))) (h : Thread) (ok : ℕ → Bool) (u : Upstream)
    → (thread_run c (turns ++ ((health_stop h).0.running, ok) ∷ []) u).1 ≡ true
unfolding thread_run health_stop
thread_run-returns c [] h ok u = refl
thread_run-returns c ((true, f) ∷ turns) h ok u =
    thread_run-returns (health_round c f u).0 turns h ok (health_round c f u).1
thread_run-returns c ((false, f) ∷ turns) h ok u = refl
