-- ===== src/Master/Report.antt =====
-- src/master.c: the lines that the master writes to its log, with their levels; the texts of the time
-- and of an error are arguments.
use nexus_gateway.Base.{
  Bool, Bytes, List, Option, [], arith, codes, if◌then◌else◌, length, map, none, refl, some, to_int,
  ℕ, ◌++◌, ◌+◌, ◌∷◌, ◌≡◌,
}
use nexus_gateway.Base.Int.{eq_ℤ, ltb_ℤ, pos, ℤ, ◌-ℤ◌}
use nexus_gateway.Config.{Config, config_load}
use nexus_gateway.Log.{Logs, log_master}
use nexus_gateway.Master.{Shadow, reload_config, slot_at}
use nexus_gateway.Master.Restart.{Master, RestartEnv, killed, next_generation}
use nexus_gateway.Util.Decimal.{decimal, decimal_ℤ}

pub data MasterLine : Type 0 where
  master_started : ℕ → MasterLine
  spawned : ℕ → MasterLine
  reload_failed : MasterLine
  slot_reloaded : Bool → ℕ → MasterLine
  reloaded : MasterLine
  generation_is : ℤ → MasterLine
  spawned_new : ℕ → ℕ → MasterLine
  not_drained : ℤ → MasterLine
  restart_completed : ℤ → ℕ → MasterLine
  worker_died : ℤ → MasterLine
  respawned : ℤ → MasterLine
  wait_failed : ℤ → Bytes → MasterLine

-- The level of a line.
unfoldable pub level_of : MasterLine → ℤ
level_of reload_failed = pos 2
level_of (not_drained pid) = pos 2
level_of (worker_died pid) = pos 2
level_of (wait_failed pid text) = pos 2
level_of _ = pos 1

-- The text of a line behind its prefix.
unfoldable pub master_text : MasterLine → Bytes
master_text (master_started n) = codes "master started, workers=" ++ decimal n
master_text (spawned n) = codes "spawned " ++ (decimal n ++ codes " workers")
master_text reload_failed = codes "config reload failed, keeping old"
master_text (slot_reloaded slot version) =
    codes "config reloaded, slot="
    ++ (decimal (to_int slot) ++ (codes ", version=" ++ decimal version))
master_text reloaded = codes "config reloaded, starting graceful restart"
master_text (generation_is g) = codes "generation incremented to " ++ decimal_ℤ g
master_text (spawned_new n old) =
    codes "spawned "
    ++ (decimal n ++ (codes " new workers, draining " ++ (decimal old ++ codes " old")))
master_text (not_drained pid) =
    codes "old worker " ++ (decimal_ℤ pid ++ codes " not drained, forcing shutdown")
master_text (restart_completed n leaked) =
    codes "graceful restart completed: drained="
    ++ (decimal_ℤ n ++ (codes ", leaked=" ++ decimal leaked))
master_text (worker_died pid) = codes "worker " ++ (decimal_ℤ pid ++ codes " died, respawning")
master_text (respawned pid) = codes "respawned pid=" ++ decimal_ℤ pid
master_text (wait_failed pid text) =
    codes "waitpid error on worker " ++ (decimal_ℤ pid ++ (codes ": " ++ text))

-- The lines before the loop.
unfoldable pub start_lines : Master → List MasterLine
start_lines m = let n = length m.worker_pids in master_started n ∷ spawned n ∷ []

-- The line of `reload_config`, which has written the slot that is not active.
unfoldable pub reload_line : Shadow → MasterLine
reload_line s = slot_reloaded s.active_slot (slot_at s.active_slot s).version

-- The lines of a restart.
unfoldable pub restart_lines : Master → RestartEnv → List MasterLine
restart_lines m env = elim (config_load env.file) [
  | none ↦ reload_failed ∷ []
  | some new_cfg ↦
      let n = length m.worker_pids in
      let dead = killed m env in
      reload_line (reload_config new_cfg m.shadow)
        ∷ reloaded
        ∷ generation_is (next_generation m.drain_generation)
        ∷ spawned_new n n
        ∷ map not_drained dead
      ++ (restart_completed (pos n -ℤ pos (length dead)) (length dead) ∷ [])
]

-- The lines of the loop that respawns the dead; the text is that of `errno` behind `waitpid`, where it is neither
-- EAGAIN nor EINTR.
unfoldable pub respawn_lines : (ℤ → ℤ) → (ℕ → ℤ) → (ℤ → Option Bytes) → ℕ → List ℤ → List MasterLine
respawn_lines waits forks error i [] = []
respawn_lines waits forks error i (p ∷ ps) =
    let rest = respawn_lines waits forks error (i + 1) ps in
    if eq_ℤ (waits p) p
    then worker_died p ∷ respawned (forks i) ∷ rest
    else if ltb_ℤ (waits p) (pos 0)
    then elim (error p) [ none ↦ rest | some text ↦ wait_failed p text ∷ rest ]
    else rest

-- The lines written one by one.
unfoldable pub master_report : Logs → Bytes → ℕ → List MasterLine → Logs
master_report l ts pid [] = l
master_report l ts pid (x ∷ xs) =
    master_report (log_master l ts pid (level_of x) (master_text x)) ts pid xs

-- The lines on workers that are killed.
unfoldable pub counts_killed : List MasterLine → ℕ
counts_killed [] = 0
counts_killed (not_drained pid ∷ xs) = counts_killed xs + 1
counts_killed (_ ∷ xs) = counts_killed xs

counts_killed-killed :
    (ps : List ℤ) (n : ℤ) (k : ℕ)
    → counts_killed (map not_drained ps ++ (restart_completed n k ∷ [])) ≡ length ps
unfolding counts_killed
counts_killed-killed [] n k = refl
counts_killed-killed (p ∷ ps) n k = omega (arith, counts_killed-killed ps n k)

-- A restart writes one line for each worker that it kills.
pub restart_lines-killed :
    (m : Master) (env : RestartEnv) {new_cfg : Config}
    → config_load env.file ≡ some new_cfg
    → counts_killed (restart_lines m env) ≡ length (killed m env)
unfolding counts_killed restart_lines reload_line
restart_lines-killed m env e = rw (e, restart_lines) (counts_killed-killed (killed m env) _ _)
