-- ===== src/Gateway/Draining.antt =====
-- src/master.c and src/worker.c: which workers a restart drains, in every interleaving.
use nexus_gateway.Base.{
  All, All-get_elem?, All-set, Bool, Bool-cases, List, [], ap, arith, get_elem?, inl, inr, map,
  some, subst, true, ℕ, ◌+◌, ◌<◌, ◌∙◌, ◌∷◌, ◌≡◌, ◌≤◌,
}
use nexus_gateway.Base.Int.{eq_ℤ, ltb_ℤ, pos, pos_part, ℤ}
use nexus_gateway.Gateway.{
  Peer, Phase, Reach, Step, System, act, begin, booting, both_loaded, end_pid, ended, later,
  master_acts, put_phase, testing, worker_boots, worker_ends, worker_handles, worker_leaves,
  worker_loads, worker_stays, working,
}
use nexus_gateway.Master.Drained.{stays}
use nexus_gateway.Master.Restart.{
  Action, bump_generation, fork_worker, kill_worker, set_shutting_down, write_config,
}
use nexus_gateway.Worker.{Worker}
use nexus_gateway.Worker.Above.{CountsAbove, on_event-CountsAbove}
use nexus_gateway.Worker.Boot.{worker_start-Starts}
use nexus_gateway.Worker.Count.{used_slots}
use nexus_gateway.Worker.Events.{exits, on_event, should_drain}
use nexus_gateway.Worker.Frame.{Fixed, on_event-fixed}

-- A worker in its loop: its counter is the number of slots in use or more, and it has read a
-- generation between the one it was forked in and the present one.
pub record IsSoundWorker (g born : ℕ) (w : Worker) : Type 0 where
  pub counts : CountsAbove w
  pub read : ℕ
  pub reads : w.my_generation ≡ pos read
  pub from : born ≤ read
  pub upto : read ≤ g

abbrev pub IsSoundPhase : ℕ → ℕ → Phase → Type 0
IsSoundPhase g born booting = Unit
IsSoundPhase g born ended = Unit
IsSoundPhase g born (working w) = IsSoundWorker g born w
IsSoundPhase g born (testing w shutting_down) = IsSoundWorker g born w

pub record IsSoundPeer (g : ℕ) (p : Peer) : Type 0 where
  pub forked : p.born ≤ g
  pub sound : IsSoundPhase g p.born p.phase

abbrev pub IsSound : System → Type 0
IsSound s = All (IsSoundPeer s.generation) s.peers

worker_later : (g born : ℕ) (w : Worker) → IsSoundWorker g born w → IsSoundWorker (g + 1) born w
worker_later g born w h = record {
  counts = h.counts;
  read = h.read;
  reads = h.reads;
  from = h.from;
  upto = omega (arith, h.upto);
}

phase_later :
    (g born : ℕ) (phase : Phase) → IsSoundPhase g born phase → IsSoundPhase (g + 1) born phase
phase_later g born booting h = tt
phase_later g born ended h = tt
phase_later g born (working w) h = worker_later g born w h
phase_later g born (testing w shutting_down) h = worker_later g born w h

peers_later : (g : ℕ) (ps : List Peer) → All (IsSoundPeer g) ps → All (IsSoundPeer (g + 1)) ps
peers_later g [] h = tt
peers_later g (p ∷ ps) h = (
  record { forked = omega (arith, h.0.forked); sound = phase_later g p.born p.phase h.0.sound },
  peers_later g ps h.1,
)

end_pid-IsSoundPeer : (g : ℕ) (pid : ℤ) (p : Peer) → IsSoundPeer g p → IsSoundPeer g (end_pid pid p)
end_pid-IsSoundPeer g pid p h = elim (Bool-cases (eq_ℤ p.pid pid)) [
  | inl e ↦ rw e (record { forked = h.forked; sound = tt })
  | inr e ↦ rw e h
]

All-end_pid :
    (g : ℕ) (pid : ℤ) (ps : List Peer)
    → All (IsSoundPeer g) ps
    → All (IsSoundPeer g) (map (end_pid pid) ps)
All-end_pid g pid [] h = tt
All-end_pid g pid (p ∷ ps) h = (end_pid-IsSoundPeer g pid p h.0, All-end_pid g pid ps h.1)

act-IsSound : (a : Action) (s : System) → IsSound s → IsSound (act a s)
unfolding act
act-IsSound (write_config cfg) s h = h
act-IsSound bump_generation s h = peers_later s.generation s.peers h
act-IsSound (set_shutting_down b) s h = h
act-IsSound (fork_worker cfg pid) s h = elim (Bool-cases (ltb_ℤ pid (pos 0))) [
  | inl e ↦ rw e h
  | inr e ↦ rw e (record { forked = omega arith; sound = tt }, h)
]
act-IsSound (kill_worker pid) s h = All-end_pid s.generation pid s.peers h

put_phase-IsSound :
    (s : System) (i : ℕ) (p : Peer) (phase : Phase)
    → get_elem? s.peers i ≡ some p
    → IsSoundPhase s.generation p.born phase
    → IsSound s
    → IsSound (put_phase s i p phase)
put_phase-IsSound s i p phase at ok h =
    All-set (IsSoundPeer s.generation) s.peers i (record p { phase = phase }) h
      (record {
        forked = (All-get_elem? (IsSoundPeer s.generation) s.peers i h at).forked;
        sound = ok;
      })

-- The phase of the process in slot `i` of a sound system.
sound_phase :
    (s : System) (i : ℕ) (p : Peer) {phase : Phase}
    → IsSound s
    → get_elem? s.peers i ≡ some p
    → p.phase ≡ phase
    → IsSoundPhase s.generation p.born phase
sound_phase s i p h at e =
    subst (IsSoundPhase s.generation p.born) e
      (All-get_elem? (IsSoundPeer s.generation) s.peers i h at).sound

Step-IsSound : {s t : System} → Step s t → IsSound s → IsSound t
Step-IsSound {s} (master_acts a) h = act-IsSound a s h
Step-IsSound {s} (worker_boots i p reuse env w effects at e begun) h =
    let begins = worker_start-Starts p.cfg reuse env (pos s.generation) begun in
    put_phase-IsSound s i p (working w) at
      (record {
        counts = (0, begins.counts);
        read = s.generation;
        reads = begins.same;
        from = (All-get_elem? (IsSoundPeer s.generation) s.peers i h at).forked;
        upto = omega arith;
      })
      h
Step-IsSound {s} (worker_handles i p w shared fd can_read can_write env at e) h =
    let old = sound_phase s i p h at e in
    let w' = (on_event w shared fd can_read can_write env).0 in
    put_phase-IsSound s i p (working w') at
      (record {
        counts = on_event-CountsAbove w shared fd can_read can_write env old.counts;
        read = old.read;
        reads =
            ap (λ (f : Fixed). f.3) (on_event-fixed w shared fd can_read can_write env) ∙ old.reads;
        from = old.from;
        upto = old.upto;
      })
      h
Step-IsSound {s} (worker_loads i p w at e) h =
    put_phase-IsSound s i p (testing w s.shutting_down) at (sound_phase s i p h at e) h
Step-IsSound {s} (worker_stays i p w shutting_down at e stays) h =
    put_phase-IsSound s i p (working w) at (sound_phase s i p h at e) h
Step-IsSound {s} (worker_leaves i p w shutting_down at e leaves) h =
    put_phase-IsSound s i p ended at tt h
Step-IsSound {s} (worker_ends i p at) h = put_phase-IsSound s i p ended at tt h

Reach-IsSound : {s : System} → Reach s → IsSound s
Reach-IsSound begin = tt
Reach-IsSound (later r step) = Step-IsSound step (Reach-IsSound r)

-- In every interleaving of the actions of the master and the steps of its workers, in which a
-- worker handles any events and the two shared variables are loaded one after the other, a worker
-- that is to leave its loop has loaded shutting_down as set, was forked before the generation was
-- last raised, and has no connection, as long as the generation does not wrap around.
pub leaves-idle :
    (s : System) (i : ℕ) (p : Peer) (w : Worker) (shutting_down : Bool)
    → Reach s
    → get_elem? s.peers i ≡ some p
    → p.phase ≡ testing w shutting_down
    → exits w (both_loaded shutting_down s) ≡ true
    → (shutting_down ≡ true) × (p.born < s.generation) × (used_slots w.pool ≡ 0)
unfolding exits should_drain
leaves-idle s i p w shutting_down r at e leaves =
    let old = sound_phase s i p (Reach-IsSound r) at e in
    let count = ap pos_part old.counts.1 in ground (arith, old.reads, old.from, count, leaves)
