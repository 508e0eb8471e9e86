-- ===== src/Master/Loop.antt =====
-- src/master.c: the loop of `nexus_master_run`, turn by turn.
use nexus_gateway.Base.{
  Bool, Bool-cases, List, Option-cases, [], arith, false, if◌then◌else◌, inl, inr, length, none,
  refl, some, suc, zero, ℕ, ◌+◌, ◌∙◌, ◌∷◌, ◌≡◌, ◌≤◌,
}
use nexus_gateway.Base.Int.{pos_part, ℤ}
use nexus_gateway.Config.{Config, config_load}
use nexus_gateway.Master.{at_least_one, at_most_64, worker_count}
use nexus_gateway.Master.Restart.{
  Action, Master, RestartEnv, master_start, respawn, respawn_loop, restart, spawn_all,
}

-- What happens during one turn: whether `on_sighup` has set its flag, what the system answers to a
-- restart, and what `waitpid` and `fork` answer behind it.
pub record MasterTurn : Type 0 where
  pub sighup : Bool
  pub env : RestartEnv
  pub waits : ℤ → ℤ
  pub forks : ℕ → ℤ

-- A turn with the flag set: `continue` behind a configuration that is not loaded.
unfoldable pub reload_turn : Master → MasterTurn → Master × List Action
reload_turn m t = elim (config_load t.env.file) [
  | none ↦ (m, [])
  | some new_cfg ↦ let (m', actions) = restart m t.env in (respawn m' t.waits t.forks, actions)
]

-- The body of the loop; the actions are those of a restart.
unfoldable pub master_turn : Master → MasterTurn → Master × List Action
master_turn m t = if t.sighup then reload_turn m t else (respawn m t.waits t.forks, [])

unfoldable pub master_turns : Master → List MasterTurn → Master
master_turns m [] = m
master_turns m (t ∷ ts) = master_turns (master_turn m t).0 ts

-- Between turns: as many workers as at the start, the first configuration, and no drain.
pub record IsSupervising (cfg : Config) (workers : ℕ) (m : Master) : Type 0 where
  pub count : length m.worker_pids ≡ workers
  pub same_cfg : m.cfg ≡ cfg
  pub calm : m.shutting_down ≡ false

length-spawn_all : (forks : ℕ → ℤ) (i n : ℕ) → length (spawn_all forks i n) ≡ n
unfolding spawn_all
length-spawn_all forks i zero = refl
length-spawn_all forks i (suc n) = omega (arith, length-spawn_all forks (i + 1) n)

length-respawn_loop :
    (waits : ℤ → ℤ) (forks : ℕ → ℤ) (i : ℕ) (ps : List ℤ)
    → length (respawn_loop waits forks i ps) ≡ length ps
unfolding respawn_loop
length-respawn_loop waits forks i [] = refl
length-respawn_loop waits forks i (p ∷ ps) =
    omega (arith, length-respawn_loop waits forks (i + 1) ps)

module _ (cfg : Config) (workers : ℕ) where
  respawn-IsSupervising :
      (m : Master) (waits : ℤ → ℤ) (forks : ℕ → ℤ)
      → IsSupervising cfg workers m
      → IsSupervising cfg workers (respawn m waits forks)
  unfolding respawn
  respawn-IsSupervising m waits forks s = record {
    count = length-respawn_loop waits forks 0 m.worker_pids ∙ s.count;
    same_cfg = s.same_cfg;
    calm = s.calm;
  }

  restart-IsSupervising :
      (m : Master) (env : RestartEnv)
      → IsSupervising cfg workers m
      → IsSupervising cfg workers (restart m env).0
  unfolding restart
  restart-IsSupervising m env s = elim (Option-cases (config_load env.file)) [
    | inl f ↦ rw (f, restart) s
    | inr (new_cfg, f) ↦
        rw (f, restart)
          record {
            count = length-spawn_all env.forks 0 (length m.worker_pids) ∙ s.count;
            same_cfg = s.same_cfg;
            calm = refl;
          }
  ]

  master_turn-IsSupervising :
      (m : Master) (t : MasterTurn)
      → IsSupervising cfg workers m
      → IsSupervising cfg workers (master_turn m t).0
  unfolding master_turn reload_turn
  master_turn-IsSupervising m t s = elim (Bool-cases t.sighup) [
    | inr quiet ↦ rw (quiet, master_turn) (respawn-IsSupervising m t.waits t.forks s)
    | inl hup ↦ elim (Option-cases (config_load t.env.file)) [
      | inl f ↦ rw (hup, master_turn, f, reload_turn) s
      | inr (new_cfg, f) ↦
          rw (hup, master_turn, f, reload_turn)
            (respawn-IsSupervising (restart m t.env).0 t.waits t.forks
              (restart-IsSupervising m t.env s))
    ]
  ]

  master_turns-keeps :
      (m : Master) (ts : List MasterTurn)
      → IsSupervising cfg workers m
      → IsSupervising cfg workers (master_turns m ts)
  unfolding master_turns
  master_turns-keeps m [] s = s
  master_turns-keeps m (t ∷ ts) s =
      master_turns-keeps (master_turn m t).0 ts (master_turn-IsSupervising m t s)

worker_count-bounds :
    (cfg : Config) (processors : ℤ)
    → (1 ≤ pos_part (worker_count cfg processors)) × (pos_part (worker_count cfg processors) ≤ 64)
unfolding worker_count at_least_one at_most_64
worker_count-bounds cfg processors = ground arith

-- Behind any turns of the master's loop, with reloads or without, whatever is forked and whatever
-- dies, the master has from 1 to 64 slots for workers, as many as at the start; it has the
-- configuration of the start, and no drain is left on.
pub master_turns-IsSupervising :
    (cfg : Config) (processors : ℤ) (forks : ℕ → ℤ) (ts : List MasterTurn)
    → let workers = pos_part (worker_count cfg processors) in
      (1 ≤ workers)
      × (workers ≤ 64)
      × IsSupervising cfg workers (master_turns (master_start cfg processors forks) ts)
unfolding master_start
master_turns-IsSupervising cfg processors forks ts =
    let workers = pos_part (worker_count cfg processors) in
    let (some_worker, few) = worker_count-bounds cfg processors in
    (
      some_worker,
      few,
      master_turns-keeps cfg workers (master_start cfg processors forks) ts
          (record { count = length-spawn_all forks 0 workers; same_cfg = refl; calm = refl }),
    )
