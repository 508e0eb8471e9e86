-- ===== src/Tests/Restarts.antt =====
-- src/master.c, and its workers in a restart, at concrete inputs.
use nexus_gateway.Base.{
  Bool, List, [], bytes_eq, c_str, false, if◌then◌else◌, refl, some, true, ℕ, ◌&&◌, ◌+◌, ◌<◌, ◌==◌,
  ◌∷◌, ◌≡◌, ◌≤◌, ◌⊎◌,
}
use nexus_gateway.Base.Int.{eq_ℤ, pos, pos_part, ℤ, ◌+ℤ◌, ◌-ℤ◌}
use nexus_gateway.Config.{
  compound, config_get, config_load, empty_config, fgets_lines, find_kv, load_custom, load_lines,
}
use nexus_gateway.Gateway.{
  Peer, Reach, System, act, act_all, begin, booting, ended, later, master_acts, testing,
  worker_boots, worker_loads, working,
}
use nexus_gateway.Gateway.Draining.{leaves-idle}
use nexus_gateway.Gateway.Restarted.{restart_ends_old}
use nexus_gateway.Master.{
  asked_workers, at_least_one, at_most_64, bump_version, reload_config, reload_writes, run_writes,
  switch_slot, worker_count, write_data,
}
use nexus_gateway.Master.Drained.{killed-survivors, survivors}
use nexus_gateway.Master.Loop.{
  IsSupervising, MasterTurn, master_turn, master_turns, master_turns-IsSupervising, reload_turn,
}
use nexus_gateway.Master.Report.{
  generation_is, not_drained, reload_line, reloaded, restart_completed, restart_lines,
  slot_reloaded, spawned_new,
}
use nexus_gateway.Master.Restart.{
  Master, RestartEnv, bump_generation, drain_loop, drain_round, fork_worker, kill_left, killed,
  master_start, next_generation, respawn, respawn_loop, restart, set_shutting_down, spawn_all,
}
use nexus_gateway.Tests.Processes.{first_worker, listens, start_config, worker_start_test}
use nexus_gateway.Worker.{epoll_add, readable}
use nexus_gateway.Worker.Count.{used_slots}
use nexus_gateway.Worker.Events.{exits, should_drain}

-- A master of two workers, of which the second never exits.
abbrev two_workers : Master
two_workers = record {
  cfg = start_config;
  shadow = record {
    slot0 = record { version = 1; total_size = 0; text = [] };
    slot1 = record { version = 0; total_size = 0; text = [] };
    active_slot = false;
  };
  shutting_down = false;
  drain_generation = pos 0;
  worker_pids = pos 101 ∷ pos 102 ∷ [];
}

abbrev exits_at_2 : ℕ → ℤ → Bool
exits_at_2 t pid = t == 2 && eq_ℤ pid (pos 101)

abbrev restart_env : RestartEnv
restart_env = record { file = some []; forks = λ i. pos (201 + i); exited = exits_at_2 }

killed-survivors_example :
    killed two_workers restart_env ≡ survivors exits_at_2 0 30 (pos 101 ∷ pos 102 ∷ [])
killed-survivors_example = killed-survivors two_workers restart_env

killed_test : killed two_workers restart_env ≡ pos 102 ∷ []
unfolding killed kill_left drain_loop drain_round
killed_test = refl

restart_test : (restart two_workers restart_env).0.worker_pids ≡ pos 201 ∷ pos 202 ∷ []
unfolding restart config_load load_custom load_lines fgets_lines config_get find_kv spawn_all
restart_test = refl

respawn_test :
    (respawn two_workers
      (λ pid. if eq_ℤ pid (pos 102) then pid else pos 0)
      (λ i. pos (301 + i))).worker_pids
    ≡ pos 101 ∷ pos 302 ∷ []
unfolding respawn respawn_loop
respawn_test = refl

-- One worker is forked and reaches its loop, a restart begins, and the worker loads `shutting_down`.
abbrev worker_peer : Peer
worker_peer = record {
  pid = pos 101;
  cfg = start_config;
  born = 0;
  phase = testing first_worker true;
}

abbrev restarting : System
restarting = record { generation = 1; shutting_down = true; peers = worker_peer ∷ [] }

restarting-Reach : Reach restarting
unfolding act
restarting-Reach =
    later
      (later
        (later
          (later (later begin (master_acts (fork_worker start_config (pos 101)))) (
            worker_boots 0 (record worker_peer { phase = booting }) true listens first_worker
              (epoll_add 3 readable ∷ []) refl refl worker_start_test))
          (master_acts bump_generation))
        (master_acts (set_shutting_down true)))
      (worker_loads 0 (record worker_peer { phase = working first_worker }) first_worker refl refl)

leaves-idle_example :
    (true ≡ true) × (worker_peer.born < restarting.generation) × (used_slots first_worker.pool ≡ 0)
unfolding exits should_drain
leaves-idle_example =
    leaves-idle restarting 0 worker_peer first_worker true restarting-Reach refl refl refl

-- A system of two old workers; the second is never waited for.
abbrev old_peer : ℤ → Peer
old_peer pid = record { pid = pid; cfg = start_config; born = 0; phase = booting }

abbrev two_peers : System
two_peers = record {
  generation = 0;
  shutting_down = false;
  peers = old_peer (pos 102) ∷ old_peer (pos 101) ∷ [];
}

restart_ends_old_example : (ended ≡ ended) ⊎ ((t : ℕ) × (t < 30) × (exits_at_2 t (pos 102) ≡ true))
unfolding restart act act_all killed kill_left drain_loop drain_round spawn_all config_load
    load_custom load_lines fgets_lines config_get find_kv bytes_eq
restart_ends_old_example =
    restart_ends_old two_workers restart_env two_peers 2 1
      (record (old_peer (pos 102)) { phase = ended }) {new_cfg = empty_config} refl refl refl refl

-- A turn with a reload, and one in which every worker has died.
abbrev reload_then_death : List MasterTurn
reload_then_death =
    record { sighup = true; env = restart_env; waits = λ p. pos 0; forks = λ i. pos (200 + i) }
    ∷ record { sighup = false; env = restart_env; waits = λ p. p; forks = λ i. pos (300 + i) }
    ∷ []

master_turns-IsSupervising_example :
    (1 ≤ pos_part (worker_count two_workers.cfg (pos 4)))
    × (pos_part (worker_count two_workers.cfg (pos 4)) ≤ 64)
    × IsSupervising two_workers.cfg
        (pos_part (worker_count two_workers.cfg (pos 4)))
        (master_turns (master_start two_workers.cfg (pos 4) (λ i. pos (100 + i))) reload_then_death)
master_turns-IsSupervising_example =
    master_turns-IsSupervising two_workers.cfg (pos 4) (λ i. pos (100 + i)) reload_then_death

-- All four workers have died, and are forked again.
respawned_test :
    (master_turns
      (master_start two_workers.cfg (pos 4) (λ i. pos (100 + i)))
      reload_then_death).worker_pids
    ≡ pos 300 ∷ pos 301 ∷ pos 302 ∷ pos 303 ∷ []
unfolding master_turns master_turn reload_turn respawn respawn_loop master_start worker_count
    asked_workers at_least_one at_most_64 spawn_all restart config_load load_custom load_lines
    fgets_lines config_get find_kv compound c_str bytes_eq
respawned_test = refl

-- The lines of the restart above.
restart_lines_test :
    restart_lines two_workers restart_env
    ≡ slot_reloaded true 1
      ∷ reloaded
      ∷ generation_is (pos 1)
      ∷ spawned_new 2 2
      ∷ not_drained (pos 102)
      ∷ restart_completed (pos 1) 1
      ∷ []
unfolding restart_lines reload_line reload_config reload_writes run_writes write_data bump_version
    switch_slot next_generation killed kill_left drain_loop drain_round config_load load_custom
    load_lines fgets_lines config_get find_kv ◌-ℤ◌ ◌+ℤ◌
restart_lines_test = refl
