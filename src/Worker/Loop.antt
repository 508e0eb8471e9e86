-- ===== src/Worker/Loop.antt =====
-- src/worker.c: the loop of `nexus_worker_run` turn by turn, with the lines that it writes to the
-- error log; the process's id and the text of the time are arguments.
use nexus_gateway.Base.{
  All, All-append, Bool, Bool-cases, Bytes, List, [], arith, codes, false, if◌then◌else◌, inl, inr,
  none, not, refl, some, sym, to_int, true, ℕ, ◌&&◌, ◌++◌, ◌||◌, ◌∙◌, ◌∷◌, ◌≡◌,
}
use nexus_gateway.Base.Int.{eq_ℤ, ltb_ℤ, pos, ℤ}
use nexus_gateway.Config.{config_get}
use nexus_gateway.Log.{Logs, log_close, log_error, log_init, log_reset}
use nexus_gateway.Util.Decimal.{decimal, decimal_ℤ}
use nexus_gateway.Worker.{Worker}
use nexus_gateway.Worker.Count.{Counts, used_slots}
use nexus_gateway.Worker.Drain.{Event, IsRegular, exits-Counts, run_events, run_events-Counts}
use nexus_gateway.Worker.Events.{Shared, exits, should_drain}
use nexus_gateway.Worker.Start.{address_of}

-- The lines: the address and the generation at the start, the drain mode when it changes, the end, and the
-- connections that are still there.
pub data LoopLine : Type 0 where
  started_on : Bytes → ℤ → LoopLine
  generation_line : ℤ → LoopLine
  drain_mode : Bool → ℤ → ℤ → LoopLine
  drained : LoopLine
  still_active : ℤ → LoopLine

-- `last_shutting` and `first_loop`
pub record LoopFlags : Type 0 where
  pub last_shutting : Bool
  pub first_loop : Bool

abbrev pub first_flags : LoopFlags
first_flags = record { last_shutting = false; first_loop = true }

-- `first_loop || should_drain != last_shutting`
unfoldable pub is_news : LoopFlags → Bool → Bool
is_news f drains = f.first_loop || (if drains then not f.last_shutting else f.last_shutting)

-- The first test of a turn: what it writes, and the flags behind it.
unfoldable pub note_mode : LoopFlags → Bool → ℤ → ℤ → List LoopLine × LoopFlags
note_mode f drains generation active =
    if is_news f drains
    then (
      drain_mode drains generation active ∷ [],
      record { last_shutting = drains; first_loop = false },
    )
    else ([], f)

-- The tests behind it; the flag says whether the loop ends.
unfoldable pub drain_tests : LoopFlags → Bool → ℤ → List LoopLine × LoopFlags × Bool
drain_tests f drains active = if drains && eq_ℤ active (pos 0) then (drained ∷ [], f, true) else (
  if drains && ltb_ℤ (pos 0) active && not f.last_shutting then still_active active ∷ [] else [],
  record f { last_shutting = drains },
  false,
)

-- The body of the loop behind `nexus_epoll_wait`.
unfoldable pub loop_turn : LoopFlags → Worker → Shared → List LoopLine × LoopFlags × Bool
loop_turn f w s =
    let drains = should_drain w s in
    let (news, f') = note_mode f drains s.drain_generation w.active_conns in
    let (said, f'', ends) = drain_tests f' drains w.active_conns in (news ++ said, f'', ends)

-- One turn of the loop: the events that `nexus_epoll_wait` reports, and what the shared variables say
-- behind them.
pub record Turn : Type 0 where
  pub events : List Event
  pub shared : Shared

-- The loop: its lines, the worker, and whether the loop has ended.
unfoldable pub run_loop : Worker → LoopFlags → List Turn → List LoopLine × Worker × Bool
run_loop w f [] = ([], w, false)
run_loop w f (t ∷ ts) =
    let w' = run_events w t.events in
    let (lines, f', ends) = loop_turn f w' t.shared in
    let (more, last, ended) = run_loop w' f' ts in
    if ends then (lines, w', true) else (lines ++ more, last, ended)

-- The text behind "worker [pid=%d] ".
unfoldable pub loop_text : LoopLine → Bytes
loop_text (started_on ip port) = codes "started on " ++ (ip ++ (codes ":" ++ decimal_ℤ port))
loop_text (generation_line g) = codes "generation=" ++ decimal_ℤ g
loop_text (drain_mode drains g active) =
    codes "drain_mode="
    ++ (decimal (to_int drains)
        ++ (codes " (gen=" ++ (decimal_ℤ g ++ (codes "), active=" ++ decimal_ℤ active))))
loop_text drained = codes "drained, exiting"
loop_text (still_active n) = codes "draining " ++ (decimal_ℤ n ++ codes " active connections")

-- `nexus_log_error(1, "worker [pid=%d] …", getpid(), …)` for each line.
unfoldable pub report : Logs → Bytes → ℕ → List LoopLine → Logs
report l ts pid [] = l
report l ts pid (x ∷ xs) =
    report
      (log_error l ts (pos 1)
        (codes "worker [pid=" ++ (decimal pid ++ (codes "] " ++ loop_text x))))
      ts pid xs

-- `nexus_log_reset(); nexus_log_init("logs", 1);`
unfoldable pub worker_open_logs : Logs → (access_opens error_opens : Bool) → Logs
worker_open_logs l access_opens error_opens =
    (log_init (log_reset l) (pos 1) access_opens error_opens).0

-- The lines before the loop.
unfoldable pub first_lines : Worker → List LoopLine
first_lines w = elim (address_of (config_get w.cfg (codes "server") (codes "listen"))) [
  | none ↦ []
  | some (ip, port) ↦ started_on ip port ∷ generation_line w.my_generation ∷ []
]

-- The logs of a worker over its life, less those of its events.
unfoldable pub worker_logs :
    Logs → (access_opens error_opens : Bool) → Bytes → ℕ → Worker → List Turn → Logs
worker_logs l access_opens error_opens ts pid w turns =
    let (lines, last, ended) = run_loop w first_flags turns in
    let l' = report (worker_open_logs l access_opens error_opens) ts pid (first_lines w ++ lines) in
    if ended then log_close l' else l'

-- The line is not the one that counts the connections of a draining worker.
abbrev pub IsNotActive : LoopLine → Type 0
IsNotActive (still_active n) = ⊥
IsNotActive _ = Unit

drain_tests-IsNotActive :
    (f : LoopFlags) (drains : Bool) (active : ℤ)
    → f.last_shutting ≡ drains
    → All IsNotActive (drain_tests f drains active).0
unfolding drain_tests
drain_tests-IsNotActive f false active same = tt
drain_tests-IsNotActive f true active same = elim (Bool-cases (eq_ℤ active (pos 0))) [
  | inl none_left ↦ rw none_left (tt, tt)
  | inr some_left ↦ elim (Bool-cases (ltb_ℤ (pos 0) active)) [
    | inl above ↦ rw (some_left, above, same) tt
    | inr below ↦ rw (some_left, below) tt
  ]
]

note_mode-last :
    (f : LoopFlags) (drains : Bool) (g active : ℤ)
    → (note_mode f drains g active).1.last_shutting ≡ drains
unfolding note_mode is_news
note_mode-last f true g active = ground arith
note_mode-last f false g active = ground arith

note_mode-IsNotActive :
    (f : LoopFlags) (drains : Bool) (g active : ℤ) → All IsNotActive (note_mode f drains g active).0
unfolding note_mode
note_mode-IsNotActive f drains g active = elim (Bool-cases (is_news f drains)) [
  | inl e ↦ rw e (tt, tt)
  | inr e ↦ rw e tt
]

loop_turn-IsNotActive :
    (f : LoopFlags) (w : Worker) (s : Shared) → All IsNotActive (loop_turn f w s).0
unfolding loop_turn
loop_turn-IsNotActive f w s =
    let drains = should_drain w s in
    let f' = (note_mode f drains s.drain_generation w.active_conns).1 in
    All-append IsNotActive _ _ (note_mode-IsNotActive f drains s.drain_generation w.active_conns) (
      drain_tests-IsNotActive f' drains w.active_conns
        (note_mode-last f drains s.drain_generation w.active_conns))

-- The line that counts the active connections of a draining worker is never written, whatever the
-- flags, the events and the shared variables are: the test before it has set last_shutting.
pub run_loop-IsNotActive :
    (w : Worker) (f : LoopFlags) (ts : List Turn) → All IsNotActive (run_loop w f ts).0
unfolding run_loop
run_loop-IsNotActive w f [] = tt
run_loop-IsNotActive w f (t ∷ ts) =
    let w' = run_events w t.events in
    let turn = loop_turn-IsNotActive f w' t.shared in
    elim (Bool-cases (loop_turn f w' t.shared).2) [
      | inl ends ↦ rw ends turn
      | inr goes ↦
          rw goes (
            All-append IsNotActive _ _ turn
              (run_loop-IsNotActive w' (loop_turn f w' t.shared).1 ts))
    ]

-- A turn ends the loop exactly where the drain test says so.
loop_turn-exits : (f : LoopFlags) (w : Worker) (s : Shared) → (loop_turn f w s).2 ≡ exits w s
unfolding loop_turn drain_tests exits
loop_turn-exits f w s = elim (Bool-cases (should_drain w s && eq_ℤ w.active_conns (pos 0))) [
  | inl e ↦ rw e refl
  | inr e ↦ rw e refl
]

abbrev pub AllRegular : List Turn → Type 0
AllRegular = All (λ t. IsRegular t.events)

-- From a worker whose counter is the number of its slots in use, over turns in which no accepted
-- descriptor is 0 and no read of a node's socket fails but with EAGAIN, a loop that has ended has
-- left no slot in use, and one that has not ended has a counter that is still right.
pub run_loop-idle :
    (w : Worker) (f : LoopFlags) (ts : List Turn)
    → AllRegular ts
    → Counts 0 w
    → if (run_loop w f ts).2
      then used_slots (run_loop w f ts).1.pool ≡ 0
      else Counts 0 (run_loop w f ts).1
unfolding run_loop
run_loop-idle w f [] h n = n
run_loop-idle w f (t ∷ ts) h n =
    let w' = run_events w t.events in
    let n' = run_events-Counts 0 w t.events h.0 n in
    elim (Bool-cases (loop_turn f w' t.shared).2) [
      | inl ends ↦
          let left =
            (exits-Counts 0 w' t.shared n').0 (sym (loop_turn-exits f w' t.shared) ∙ ends) in
          rw ends (omega (arith, left.1))
      | inr goes ↦ rw goes (run_loop-idle w' (loop_turn f w' t.shared).1 ts h.1 n')
    ]
