-- ===== src/Master/Restart.antt =====
-- src/master.c: the processes of the master: a graceful restart, and the workers that are respawned.
-- A process is its `pid_t`; what `fork` and `waitpid` answer are arguments, and the actions that other
-- processes can see are listed in order.
use nexus_gateway.Base.{
  Bool, Bytes, List, Option, [], false, if◌then◌else◌, length, map, none, not, some, suc, true,
  zero, ℕ, ◌++◌, ◌+◌, ◌-◌, ◌==◌, ◌^◌, ◌∷◌,
}
use nexus_gateway.Base.Int.{eq_ℤ, ltb_ℤ, negsuc, pos, pos_part, ℤ, ◌+ℤ◌}
use nexus_gateway.Config.{Config, config_load}
use nexus_gateway.Master.{Shadow, Slot, reload_config, serialize_config, worker_count}

-- An action of the master.
pub data Action : Type 0 where
  write_config : Config → Action
  bump_generation : Action
  set_shutting_down : Bool → Action
  fork_worker : Config → ℤ → Action
  kill_worker : ℤ → Action

-- The master's variables, those in shared memory among them.
pub record Master : Type 0 where
  pub cfg : Config
  pub shadow : Shadow
  pub shutting_down : Bool
  pub drain_generation : ℤ
  pub worker_pids : List ℤ

-- What the system answers during a restart: the bytes of the configuration's file, the result of each
-- `fork`, and whether a process is waited for in a round.
pub record RestartEnv : Type 0 where
  pub file : Option Bytes
  pub forks : ℕ → ℤ
  pub exited : ℕ → ℤ → Bool

-- `atomic_fetch_add(g_drain_generation, 1)`, which wraps around.
unfoldable pub next_generation : ℤ → ℤ
next_generation g = if eq_ℤ g (pos (2 ^ 31 - 1)) then negsuc (2 ^ 31 - 1) else g +ℤ pos 1

-- The loops over `spawn_worker` and `spawn_worker_after_reload`, from the worker `i`.
unfoldable pub spawn_all : (ℕ → ℤ) → ℕ → ℕ → List ℤ
spawn_all forks i zero = []
spawn_all forks i (suc n) = forks i ∷ spawn_all forks (i + 1) n

-- One round over `old_pids`, with `alive`.
unfoldable pub drain_round : (ℤ → Bool) → List ℤ → List ℤ × ℕ
drain_round exited [] = ([], 0)
drain_round exited (p ∷ ps) =
    let (ps', alive) = drain_round exited ps in
    if not (ltb_ℤ (pos 0) p)
    then (p ∷ ps', alive)
    else if exited p
    then (pos 0 ∷ ps', alive)
    else (p ∷ ps', alive + 1)

-- The loop on `drain_deadline`, from the round `t`.
unfoldable pub drain_loop : ℕ → (ℕ → ℤ → Bool) → ℕ → List ℤ → List ℤ
drain_loop zero exited t ps = ps
drain_loop (suc deadline) exited t ps =
    let (ps', alive) = drain_round (exited t) ps in
    let rest = drain_loop deadline exited (t + 1) ps' in if alive == 0 then ps' else rest

-- The processes that get SIGKILL; their number is `leaked`.
unfoldable pub kill_left : List ℤ → List ℤ
kill_left [] = []
kill_left (p ∷ ps) = if ltb_ℤ (pos 0) p then p ∷ kill_left ps else kill_left ps

-- The old processes that are killed, after at most 30 rounds.
unfoldable pub killed : Master → RestartEnv → List ℤ
killed m env = kill_left (drain_loop 30 env.exited 0 m.worker_pids)

-- The body of `if (g_sighup)`: a configuration that is not loaded changes nothing.
unfoldable pub restart : Master → RestartEnv → Master × List Action
restart m env = elim (config_load env.file) [
  | none ↦ (m, [])
  | some new_cfg ↦
      let new_pids = spawn_all env.forks 0 (length m.worker_pids) in
      (
        record m {
          shadow = reload_config new_cfg m.shadow;
          drain_generation = next_generation m.drain_generation;
          worker_pids = new_pids;
          shutting_down = false;
        },
        write_config new_cfg
              ∷ bump_generation
              ∷ set_shutting_down true
              ∷ map (fork_worker new_cfg) new_pids
            ++ (map kill_worker (killed m env) ++ set_shutting_down false ∷ []),
      )
]

-- The loop that respawns the dead: what `waitpid` answers for a process, and `fork` for a slot.
unfoldable pub respawn_loop : (ℤ → ℤ) → (ℕ → ℤ) → ℕ → List ℤ → List ℤ
respawn_loop waits forks i [] = []
respawn_loop waits forks i (p ∷ ps) =
    (if eq_ℤ (waits p) p then forks i else p) ∷ respawn_loop waits forks (i + 1) ps

-- A round without a reload.
unfoldable pub respawn : Master → (ℤ → ℤ) → (ℕ → ℤ) → Master
respawn m waits forks = record m { worker_pids = respawn_loop waits forks 0 m.worker_pids }

-- `memset(g_shadow, 0, …)` of `setup_shared_memory_master`, with the active slot 0.
abbrev pub zero_shadow : Shadow
zero_shadow =
    let zero_slot : Slot = record { version = 0; total_size = 0; text = [] } in
    record { slot0 = zero_slot; slot1 = zero_slot; active_slot = false }

-- `nexus_master_run` up to its loop, on the zeroed shared memory.
unfoldable pub master_start : Config → ℤ → (ℕ → ℤ) → Master
master_start cfg processors forks =
    let (text, n) = serialize_config cfg in
    record {
      cfg = cfg;
      shadow = record zero_shadow { slot0 = record { version = 1; total_size = n; text = text } };
      shutting_down = false;
      drain_generation = pos 0;
      worker_pids = spawn_all forks 0 (pos_part (worker_count cfg processors));
    }
