-- ===== src/Gateway.antt =====
-- src/master.c and src/worker.c: the master and its workers as processes that take their steps in any
-- order, over the two shared variables of a restart. Restarts are fewer than 2 ^ 31, so the generation
-- does not wrap around.
pub mod Draining
pub mod Restarted
use nexus_gateway.Acceptor.{ListenEnv}
use nexus_gateway.Base.{
  Bool, List, [], false, get_elem?, if◌then◌else◌, map, set, some, true, ℕ, ◌+◌, ◌∷◌, ◌≡◌,
}
use nexus_gateway.Base.Int.{eq_ℤ, ltb_ℤ, pos, ℤ}
use nexus_gateway.Config.{Config}
use nexus_gateway.Master.Restart.{
  Action, bump_generation, fork_worker, kill_worker, set_shutting_down, write_config,
}
use nexus_gateway.Worker.{Effect, Worker}
use nexus_gateway.Worker.Events.{EventEnv, Shared, exits, on_event}
use nexus_gateway.Worker.Start.{running, worker_start}

-- A worker process: forked and not yet at its loop, in its loop, in the loop's test with
-- `g_shutting_down` loaded as the Bool and `g_drain_generation` not loaded yet, or ended.
pub data Phase : Type 0 where
  booting ended : Phase
  working : Worker → Phase
  testing : Worker → Bool → Phase

-- A forked process, with its configuration; `born` is the generation when it was forked.
pub record Peer : Type 0 where
  pub pid : ℤ
  pub cfg : Config
  pub born : ℕ
  pub phase : Phase

-- `g_drain_generation`, `g_shutting_down`, and the processes, the youngest first.
pub record System : Type 0 where
  pub generation : ℕ
  pub shutting_down : Bool
  pub peers : List Peer

abbrev pub first_system : System
first_system = record { generation = 0; shutting_down = false; peers = [] }

-- What a worker has of the shared variables when it loads the generation after `shutting_down`.
abbrev pub both_loaded : Bool → System → Shared
both_loaded shutting_down s = record {
  shutting_down = shutting_down;
  drain_generation = pos s.generation;
}

abbrev pub end_pid : ℤ → Peer → Peer
end_pid pid p = if eq_ℤ p.pid pid then record p { phase = ended } else p

-- The effect of an action of the master on the processes; `fork` fails with a negative pid.
unfoldable pub act : Action → System → System
act (write_config cfg) s = s
act bump_generation s = record s { generation = s.generation + 1 }
act (set_shutting_down b) s = record s { shutting_down = b }
act (fork_worker cfg pid) s = if ltb_ℤ pid (pos 0) then s else record s {
  peers = record { pid = pid; cfg = cfg; born = s.generation; phase = booting } ∷ s.peers;
}
act (kill_worker pid) s = record s { peers = map (end_pid pid) s.peers }

unfoldable pub act_all : List Action → System → System
act_all [] s = s
act_all (a ∷ rest) s = act_all rest (act a s)

abbrev pub put_phase : System → ℕ → Peer → Phase → System
put_phase s i p phase = record s { peers = set s.peers i (record p { phase = phase }) }

-- A step of one process: an action of the master, or a worker that reaches its loop, handles an event
-- (any one, with any values for its two loads in an accept), loads one of the shared variables in the
-- loop's test, or ends another way. The loop ends when the test holds at the second load.
pub data Step (s : System) : System → Type 0 where
  master_acts : (a : Action) → Step s (act a s)
  worker_boots :
      (i : ℕ) (p : Peer) (reuse : Bool) (env : ListenEnv) (w : Worker) (effects : List Effect)
      → get_elem? s.peers i ≡ some p
      → p.phase ≡ booting
      → worker_start p.cfg reuse env (pos s.generation) ≡ running w effects
      → Step s (put_phase s i p (working w))
  worker_handles :
      (i : ℕ) (p : Peer) (w : Worker) (shared : Shared) (fd : ℕ) (can_read can_write : Bool)
      (env : EventEnv)
      → get_elem? s.peers i ≡ some p
      → p.phase ≡ working w
      → Step s (put_phase s i p (working (on_event w shared fd can_read can_write env).0))
  worker_loads :
      (i : ℕ) (p : Peer) (w : Worker)
      → get_elem? s.peers i ≡ some p
      → p.phase ≡ working w
      → Step s (put_phase s i p (testing w s.shutting_down))
  worker_stays :
      (i : ℕ) (p : Peer) (w : Worker) (shutting_down : Bool)
      → get_elem? s.peers i ≡ some p
      → p.phase ≡ testing w shutting_down
      → exits w (both_loaded shutting_down s) ≡ false
      → Step s (put_phase s i p (working w))
  worker_leaves :
      (i : ℕ) (p : Peer) (w : Worker) (shutting_down : Bool)
      → get_elem? s.peers i ≡ some p
      → p.phase ≡ testing w shutting_down
      → exits w (both_loaded shutting_down s) ≡ true
      → Step s (put_phase s i p ended)
  worker_ends : (i : ℕ) (p : Peer) → get_elem? s.peers i ≡ some p → Step s (put_phase s i p ended)

-- The systems that any interleaving of steps leads to.
pub data Reach : System → Type 0 where
  begin : Reach first_system
  later : {s t : System} → Reach s → Step s t → Reach t
