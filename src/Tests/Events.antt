-- ===== src/Tests/Events.antt =====
-- src/worker.c at concrete inputs.
use nexus_gateway.Base.{
  All, List, [], ap, arith, codes, false, get_elem?, inl, inr, none, refl, some, subst, suc, sym,
  true, zero, ◌∷◌, ◌≡◌,
}
use nexus_gateway.Base.Int.{pos, pos_part, ◌+ℤ◌, ◌-ℤ◌}
use nexus_gateway.Config.{empty_config}
use nexus_gateway.Connection.{reading_upstream}
use nexus_gateway.RateLimit.{rl_init}
use nexus_gateway.Upstream.{Upstream}
use nexus_gateway.Worker.{
  ProxyConn, Worker, close, close_client_conn, close_positive, epoll_del, log_closed, log_request,
  proxy_alloc, proxy_free, proxy_get, write, zero_conn,
}
use nexus_gateway.Worker.Above.{CountsAbove, on_event-CountsAbove}
use nexus_gateway.Worker.Backend.{broken, got, upstream_readable}
use nexus_gateway.Worker.Count.{Counts, used_slots}
use nexus_gateway.Worker.Drain.{Event, run_events, run_events_stuck}
use nexus_gateway.Worker.Events.{
  Accepted, EventEnv, Shared, accept_client, exits, on_conn, on_event, on_slot, register,
  should_drain,
}
use nexus_gateway.Worker.Leak.{on_event-Counts, upstream_readable-broken}
use nexus_gateway.Worker.Lifecycle.{SlotUse, answering, unused}
use nexus_gateway.Worker.Loop.{
  IsNotActive, Turn, drain_mode, drain_tests, drained, first_flags, is_news, loop_turn, note_mode,
  run_loop, run_loop-IsNotActive,
}
use nexus_gateway.Worker.Owners.{on_event-others}
use nexus_gateway.Worker.Slots.{Apart, Uses}
use nexus_gateway.Worker.Stepped.{Stepped, on_event-Stepped}
use nexus_gateway.Worker.Views.{ViewsAll}

abbrev pub one_node : Upstream
one_node = record {
  name = codes "default";
  nodes =
      record {
        host = codes "10.0.0.9";
        port = pos 80;
        weight = 1;
        healthy = true;
        active_conns = pos 0;
      }
      ∷ [];
  cur_weight = 0;
  max_weight = 1;
  gcd_weight = 1;
}

-- A connection that waits for the node's answer.
abbrev waiting : ProxyConn
waiting = record zero_conn {
  fd = 7;
  state = reading_upstream;
  upstream_fd = pos 9;
  client_ip = codes "10.0.0.1";
}

-- A worker with that connection and a free slot.
abbrev pub busy_worker : Worker
busy_worker = record {
  cfg = empty_config;
  upstream = one_node;
  listen_fd = 3;
  active_conns = pos 1;
  rl = rl_init 100;
  bl = [];
  pool = waiting ∷ zero_conn ∷ [];
  my_generation = pos 0;
}

abbrev serving : Shared
serving = record { shutting_down = false; drain_generation = pos 0 }

busy_worker-Counts : Counts 0 busy_worker
unfolding used_slots
busy_worker-Counts = refl

-- A read error of the node's socket leaves the counter at 1 with no slot in use.
leaked_worker-Counts : Counts 1 (upstream_readable busy_worker 0 waiting (pos 9) broken).0
leaked_worker-Counts =
    upstream_readable-broken 0 busy_worker 0 9 waiting
      (record { conn = waiting; at = refl; same_fd = refl }) (omega arith) busy_worker-Counts

-- What the system answers: a client is accepted, and the node sends bytes.
abbrev answers : EventEnv
answers = record {
  accepted = some (record { fd = 8; ip = codes "10.0.0.2"; port = 4000 });
  client = record {
    received = none;
    now_ms = 5;
    rl_created_ms = 5;
    rl_now_ms = 5;
    timestamp = 5;
    rand1 = 1;
    rand2 = 2;
    connected = λ host port. none;
  };
  socket_failed = false;
  taken = none;
  read = got (codes "HTTP/1.1 200 OK\r\n\r\n");
}

on_event-Counts_example : Counts 0 (on_event busy_worker serving 9 true false answers).0
on_event-Counts_example =
    on_event-Counts 0 busy_worker serving 9 true false answers (omega arith) (λ b. b)
      busy_worker-Counts

-- The read of the node's socket fails.
on_event-CountsAbove_example :
    CountsAbove (on_event busy_worker serving 9 true false (record answers { read = broken })).0
on_event-CountsAbove_example =
    on_event-CountsAbove busy_worker serving 9 true false (record answers { read = broken })
      (0, busy_worker-Counts)

-- A new client takes the free slot.
accept_test : (on_event busy_worker serving 3 true false answers).0.active_conns ≡ pos 2
unfolding on_event should_drain accept_client register proxy_alloc ◌+ℤ◌
accept_test = refl

-- The answer of the node ends both connections, and the node's is closed twice.
answer_test :
    (on_event busy_worker serving 9 true false answers).1
    ≡ write 7 (codes "HTTP/1.1 200 OK\r\n\r\n")
      ∷ log_request (codes "10.0.0.1") 0 200 19 []
      ∷ close 9
      ∷ epoll_del 9
      ∷ log_closed (pos 0)
      ∷ close 7
      ∷ epoll_del 7
      ∷ close 9
      ∷ epoll_del 9
      ∷ []
unfolding ◌-ℤ◌ on_event on_slot on_conn proxy_get upstream_readable close_client_conn proxy_free
    close_positive
answer_test = refl

-- The master asks the worker to leave.
abbrev leaving : Shared
leaving = record { shutting_down = true; drain_generation = pos 1 }

abbrev last_answer : Event
last_answer = record { shared = leaving; fd = 9; can_read = true; can_write = false; env = answers }

-- Behind the last answer the loop ends; before it, it does not.
exits_test :
    (exits (run_events busy_worker (last_answer ∷ [])) leaving ≡ true)
    × (exits busy_worker leaving ≡ false)
unfolding exits should_drain run_events on_event on_slot on_conn proxy_get upstream_readable
    close_client_conn proxy_free ◌-ℤ◌
exits_test = (refl, refl)

-- The worker behind a read error of its node's socket.
abbrev leaked_worker : Worker
leaked_worker = (upstream_readable busy_worker 0 waiting (pos 9) broken).0

run_events_stuck_example : exits (run_events leaked_worker (last_answer ∷ [])) leaving ≡ false
run_events_stuck_example =
    run_events_stuck 1 leaked_worker (last_answer ∷ []) leaving (omega arith)
      ((omega arith, λ b. b), tt) leaked_worker-Counts

-- The uses of the worker's two slots.
abbrev busy_slots : List SlotUse
busy_slots = answering 7 9 ∷ unused ∷ []

busy_slots-ViewsAll : ViewsAll busy_slots busy_worker.pool
busy_slots-ViewsAll = ((refl, omega arith, refl, refl), ((refl, inr refl), tt))

pub same_accepted : (a b : Accepted) → some b ≡ some a → a.fd ≡ b.fd
same_accepted a b e = ground (arith, e)

on_event-Stepped_example :
    Stepped (λ n. n ≡ 8) busy_slots (on_event busy_worker serving 3 true false answers).0.pool
on_event-Stepped_example =
    on_event-Stepped (λ n. n ≡ 8) busy_worker serving 3 true false answers busy_slots
      busy_slots-ViewsAll (omega arith) (omega arith)
      ((λ a e. same_accepted a _ e), λ host port u e. absurd (ground (arith, e)))

busy_slots-Apart : Apart busy_slots
busy_slots-Apart zero zero fd s t ei ej u u' = refl
busy_slots-Apart i (suc zero) fd s t ei ej u u' =
    let same : unused ≡ t = ground arith in elim (subst (λ x. Uses x fd) (sym same) u') [ ]
busy_slots-Apart i (suc (suc j)) fd s t ei ej u u' = absurd (ground arith)
busy_slots-Apart (suc zero) zero fd s t ei ej u u' =
    let same : unused ≡ s = ground arith in elim (subst (λ x. Uses x fd) (sym same) u) [ ]
busy_slots-Apart (suc (suc i)) zero fd s t ei ej u u' = absurd (ground arith)

on_event-others_example :
    get_elem? (on_event busy_worker serving 9 true false answers).0.pool 1 ≡ some zero_conn
on_event-others_example =
    on_event-others busy_worker serving 9 true false answers 1 {c = zero_conn}
      (record { slots = busy_slots; views = busy_slots-ViewsAll; apart = busy_slots-Apart })
      (omega arith) (omega arith) refl
      (λ h. elim h [ inl e ↦ omega (arith, e) | inr e ↦ omega (arith, ap pos_part e) ])

-- The worker serves for a turn, and then is to drain with its connection still open.
abbrev three_turns : List Turn
three_turns =
    record { events = []; shared = serving }
    ∷ record { events = []; shared = leaving }
    ∷ record { events = last_answer ∷ []; shared = leaving }
    ∷ []

run_loop-IsNotActive_example : All IsNotActive (run_loop busy_worker first_flags three_turns).0
run_loop-IsNotActive_example = run_loop-IsNotActive busy_worker first_flags three_turns

-- The drain mode is noted as it changes, and the loop ends behind the last answer.
run_loop_test :
    (run_loop busy_worker first_flags three_turns).0
    ≡ drain_mode false (pos 0) (pos 1) ∷ drain_mode true (pos 1) (pos 1) ∷ drained ∷ []
unfolding run_loop loop_turn note_mode is_news drain_tests should_drain run_events on_event on_slot
    on_conn proxy_get upstream_readable close_client_conn proxy_free ◌-ℤ◌
run_loop_test = refl
