-- ===== src/Worker/Stepped.antt =====
-- src/worker.c: `on_event` on the pool, against the life of its slots.
use nexus_gateway.Base.{
  Bool, Bool-cases, Bytes, List, Option, Option-cases, ap, c_str, get_elem?, get_elem?-set_self,
  inl, inr, none, refl, set, some, subst, sym, take, ℕ, ◌==◌, ◌∙◌, ◌≡◌, ◌≢◌,
}
use nexus_gateway.Base.Int.{negsuc, ℤ}
use nexus_gateway.Connection.{idle, reading_req}
use nexus_gateway.Worker.{ProxyConn, Worker, proxy_alloc, proxy_get}
use nexus_gateway.Worker.Events.{
  Accepted, EventEnv, Shared, accept_client, on_conn, on_event, on_slot, register, should_drain,
}
use nexus_gateway.Worker.Leak.{IsDescriptor, proxy_alloc-none}
use nexus_gateway.Worker.Lifecycle.{Leads, SlotUse, reading, takes_client, unused}
use nexus_gateway.Worker.Slots.{SlotsStep, at_slot, same_slots}
use nexus_gateway.Worker.Steps.{on_conn-Leads}
use nexus_gateway.Worker.Views.{
  HoldsFd-used, Views-unused, ViewsAll, ViewsAll-at, ViewsAll-set, at-bound, proxy_alloc-at,
  proxy_get-HoldsFd, set-set,
}

-- The pool behind a step of the slots `ss`, each step with new descriptors as `P` says.
pub record Stepped (P : ℕ → Type 0) (ss : List SlotUse) (cs : List ProxyConn) : Type 0 where
  pub slots : List SlotUse
  pub step : SlotsStep P ss slots
  pub views : ViewsAll slots cs

Leads-Stepped :
    (P : ℕ → Type 0) (w w' : Worker) (i : ℕ) (s : SlotUse) (ss : List SlotUse)
    → ViewsAll ss w.pool
    → get_elem? ss i ≡ some s
    → Leads P w i s w'
    → Stepped P ss w'.pool
Leads-Stepped P w w' i s ss v at l = record {
  slots = set ss i l.slot;
  step = at_slot ss i s l.slot at l.next;
  views =
      subst (λ cs. ViewsAll (set ss i l.slot) cs) (sym l.pool)
        (ViewsAll-set ss w.pool i l.slot l.conn v l.views);
}

-- The new descriptors of an event: the accepted client's and the connected node's.
abbrev pub AllNew : (ℕ → Type 0) → EventEnv → Type 0
AllNew P env =
    ((a : Accepted) → env.accepted ≡ some a → P a.fd)
    × ((host : Bytes) (port : ℤ) (u : ℕ) → env.client.connected host port ≡ some u → P u)

register-Stepped :
    (P : ℕ → Type 0) (w : Worker) (a : Accepted) (i : ℕ) (ss : List SlotUse)
    → ViewsAll ss w.pool
    → a.fd ≢ 0
    → P a.fd
    → (proxy_alloc w.pool a.fd).1 ≡ some i
    → Stepped P ss (register w a (proxy_alloc w.pool a.fd).0 (some i)).0.pool
unfolding register
register-Stepped P w a i ss v ne new e =
    let (c, at, unheld, pool) = proxy_alloc-at w.pool a.fd i e in
    let (s, here, view) = ViewsAll-at ss w.pool i {c = c} v at in
    let c' = record c { fd = a.fd; state = idle; upstream_fd = negsuc 0 } in
    let there : get_elem? (set w.pool i c') i ≡ some c' =
      get_elem?-set_self w.pool i c' (at-bound w.pool i {a = c} at) in
    let here' = here ∙ ap some (Views-unused s c view unheld) in
    let c'' = record c' {
      client_ip = take 63 (c_str a.ip);
      client_port = a.port;
      state = reading_req;
    } in
    rw (pool, there, register)
      record {
        slots = set ss i (reading a.fd);
        step = at_slot ss i unused (reading a.fd) here' (takes_client a.fd ne new);
        views =
            rw (pool, set-set w.pool i c' c'')
              (ViewsAll-set ss w.pool i (reading a.fd) c'' v (refl, ne, refl, refl));
      }

accept_client-Stepped :
    (P : ℕ → Type 0) (w : Worker) (r : Option Accepted) (ss : List SlotUse)
    → ViewsAll ss w.pool
    → IsDescriptor r
    → ((a : Accepted) → r ≡ some a → P a.fd)
    → Stepped P ss (accept_client w r).0.pool
unfolding accept_client register
accept_client-Stepped P w none ss v d new = record { slots = ss; step = same_slots ss; views = v }
accept_client-Stepped P w (some a) ss v d new = elim (Option-cases (proxy_alloc w.pool a.fd).1) [
  | inl f ↦
      rw (f, register)
        record { slots = ss; step = same_slots ss; views = rw (proxy_alloc-none w.pool a.fd f) v }
  | inr (i, f) ↦ rw f (register-Stepped P w a i ss v d (new a refl) f)
]

on_slot-Stepped :
    (P : ℕ → Type 0) (w : Worker) (fd : ℕ) (can_read can_write : Bool) (env : EventEnv)
    (ss : List SlotUse)
    → ViewsAll ss w.pool
    → fd ≢ 0
    → ((host : Bytes) (port : ℤ) (u : ℕ) → env.client.connected host port ≡ some u → P u)
    → Stepped P ss (on_slot w (proxy_get w.pool fd) can_read can_write env).0.pool
unfolding on_slot
on_slot-Stepped P w fd can_read can_write env ss v ne new =
    elim (Option-cases (proxy_get w.pool fd)) [
      | inl f ↦ rw f record { slots = ss; step = same_slots ss; views = v }
      | inr (i, f) ↦
          let (c, at, held) = proxy_get-HoldsFd w.pool fd i f in
          let (s, here, view) = ViewsAll-at ss w.pool i {c = c} v at in
          rw (f, on_slot, at)
            (Leads-Stepped P w (on_conn w i c c.state can_read can_write env).0 i s ss v here (
              on_conn-Leads P w i c s can_read can_write env new at
                (HoldsFd-used s c fd view ne held) view))
    ]

-- An event of a descriptor other than 0 at which no accepted descriptor is 0, at a pool whose
-- slots are in the uses ss, changes no slot or takes one slot one step further in its life: from
-- unused to reading the request of the accepted client, on to connecting to the node, on to
-- awaiting the answer, or from any use back to unused. A descriptor that a step takes satisfies
-- what holds of the descriptors that the event brings.
pub on_event-Stepped :
    (P : ℕ → Type 0) (w : Worker) (s : Shared) (fd : ℕ) (can_read can_write : Bool) (env : EventEnv)
    (ss : List SlotUse)
    → ViewsAll ss w.pool
    → fd ≢ 0
    → IsDescriptor env.accepted
    → AllNew P env
    → Stepped P ss (on_event w s fd can_read can_write env).0.pool
unfolding on_event
on_event-Stepped P w s fd can_read can_write env ss v ne d new =
    elim (Bool-cases (fd == w.listen_fd)) [
      | inr other ↦ simp other (on_slot-Stepped P w fd can_read can_write env ss v ne new.1)
      | inl listening ↦ simp listening (elim (Bool-cases (should_drain w s)) [
        | inl draining ↦ simp draining record { slots = ss; step = same_slots ss; views = v }
        | inr serving ↦ simp serving (accept_client-Stepped P w env.accepted ss v d new.0)
      ])
    ]
