-- ===== src/Worker/Leak.antt =====
-- src/worker.c: the events of the worker and the count of active connections.
use nexus_gateway.Base.{
  Bool, Bool-cases, List, Option, Option-cases, [], ap, arith, false, get_elem?, inl, inr, none,
  refl, some, suc, sym, true, zero, ℕ, ◌+◌, ◌==◌, ◌||◌, ◌∙◌, ◌∷◌, ◌≡◌, ◌≢◌,
}
use nexus_gateway.Base.Int.{negsuc, pos, ℤ, ◌+ℤ◌}
use nexus_gateway.Connection.{ConnState, connecting_upstream, reading_req, reading_upstream}
use nexus_gateway.Worker.{ProxyConn, Worker, proxy_alloc, proxy_get}
use nexus_gateway.Worker.Backend.{
  ReadResult, again, broken, end_of_file, got, sent_request, upstream_readable, upstream_writable,
}
use nexus_gateway.Worker.Count.{
  Counts, Holds, close_client_conn-Counts, freed, handle_client_read-Counts, plus_one, put-Counts,
  used, used_slots, used_slots-set,
}
use nexus_gateway.Worker.Events.{
  Accepted, EventEnv, Shared, accept_client, on_conn, on_event, on_slot, register, should_drain,
}

upstream_writable-Counts :
    (k : ℕ) (w : Worker) (i : ℕ) (c : ProxyConn) (u : ℤ) (failed : Bool) (taken : Option ℕ)
    → Holds w i c.fd
    → Counts k w
    → Counts k (upstream_writable w i c u failed taken).0
unfolding upstream_writable sent_request
upstream_writable-Counts k w i c (negsuc _) failed taken h n = n
upstream_writable-Counts k w i c (pos ufd) true taken h n = close_client_conn-Counts k w i c h n
upstream_writable-Counts k w i c (pos ufd) false none h n = n
upstream_writable-Counts k w i c (pos ufd) false (some zero) h n = n
upstream_writable-Counts k w i c (pos ufd) false (some (suc m)) h n =
    put-Counts k w i (record c { state = reading_upstream }) h n

-- `read` on the node's socket fails with another error than EAGAIN.
abbrev pub IsBroken : ReadResult → Type 0
IsBroken broken = Unit
IsBroken _ = ⊥

pub upstream_readable-Counts :
    (k : ℕ) (w : Worker) (i : ℕ) (c : ProxyConn) (u : ℤ) (r : ReadResult)
    → ¬ IsBroken r
    → Holds w i c.fd
    → Counts k w
    → Counts k (upstream_readable w i c u r).0
unfolding upstream_readable
upstream_readable-Counts k w i c (negsuc _) r b h n = n
upstream_readable-Counts k w i c (pos ufd) (got bytes) b h n =
    close_client_conn-Counts k w i (record c { resp_buf = bytes; status_code = 200 }) h n
upstream_readable-Counts k w i c (pos ufd) end_of_file b h n = close_client_conn-Counts k w i c h n
upstream_readable-Counts k w i c (pos ufd) again b h n = n
upstream_readable-Counts k w i c (pos ufd) broken b h n = absurd (b tt)

-- Where read on the node's socket of a connection fails with another error than EAGAIN, the slot
-- is freed and the counter is not lowered: it is one further above the slots in use.
pub upstream_readable-broken :
    (k : ℕ) (w : Worker) (i ufd : ℕ) (c : ProxyConn)
    → Holds w i c.fd
    → c.fd ≢ 0
    → Counts k w
    → Counts (k + 1) (upstream_readable w i c (pos ufd) broken).0
unfolding upstream_readable
upstream_readable-broken k w i ufd c h ne n =
    let one_used : used c ≡ 1 = ground arith in n ∙ ap pos (omega (arith, freed w i c h, one_used))

used_slots-proxy_alloc :
    (cs : List ProxyConn) (fd i : ℕ)
    → fd ≢ 0
    → (proxy_alloc cs fd).1 ≡ some i
    → (used_slots (proxy_alloc cs fd).0 ≡ used_slots cs + 1)
      × ((c : ProxyConn) × (get_elem? (proxy_alloc cs fd).0 i ≡ some c) × (c.fd ≡ fd))
unfolding used_slots proxy_alloc
used_slots-proxy_alloc [] fd i ne e = cc
used_slots-proxy_alloc (x ∷ cs) fd i ne e = elim (Bool-cases (x.fd == 0)) [
  | inl free ↦
      let z : i ≡ 0 = ground (arith, free) in
      simp (free, z) (ground (arith, ne, free), (_, refl, refl))
  | inr busy ↦ elim (Option-cases (proxy_alloc cs fd).1) [
    | inl f ↦ absurd (ground (arith, f))
    | inr (j, f) ↦
        let (more, (c, at, same)) = used_slots-proxy_alloc cs fd j ne f in
        let z : i ≡ suc j = ground (arith, busy, f) in
        simp (busy, z) (omega (arith, more), (c, at, same))
  ]
]

pub proxy_alloc-none :
    (cs : List ProxyConn) (fd : ℕ) → (proxy_alloc cs fd).1 ≡ none → (proxy_alloc cs fd).0 ≡ cs
unfolding proxy_alloc
proxy_alloc-none [] fd e = refl
proxy_alloc-none (x ∷ cs) fd e = elim (Option-cases (proxy_alloc cs fd).1) [
  | inl f ↦ ground (arith, f, proxy_alloc-none cs fd f)
  | inr (j, f) ↦ absurd (ground (arith, f))
]

-- The accepted descriptor is not 0, which marks a free slot.
abbrev pub IsDescriptor : Option Accepted → Type 0
IsDescriptor none = Unit
IsDescriptor (some a) = a.fd ≢ 0

registered-Counts :
    (k : ℕ) (w : Worker) (a : Accepted) (cs : List ProxyConn) (i : ℕ) (c : ProxyConn)
    → a.fd ≢ 0
    → get_elem? cs i ≡ some c
    → c.fd ≡ a.fd
    → used_slots cs ≡ used_slots w.pool + 1
    → Counts k w
    → Counts k (register w a cs (some i)).0
unfolding register
registered-Counts k w a cs i c ne at same more n =
    let one_used : used c ≡ 1 = ground arith in
    rw (at, register)
      (ap (λ m. m +ℤ pos 1) n
        ∙ plus_one _ _ (omega (arith, more, one_used, used_slots-set cs i _ {c = c} at)))

pub accept_client-Counts :
    (k : ℕ) (w : Worker) (a : Option Accepted)
    → IsDescriptor a
    → Counts k w
    → Counts k (accept_client w a).0
unfolding accept_client register
accept_client-Counts k w none d n = n
accept_client-Counts k w (some a) d n = elim (Option-cases (proxy_alloc w.pool a.fd).1) [
  | inl f ↦
      rw (f, register) (n ∙ ap (λ p. pos (used_slots p + k)) (sym (proxy_alloc-none w.pool a.fd f)))
  | inr (i, f) ↦ rw f (
      let (more, (c, at, same)) = used_slots-proxy_alloc w.pool a.fd i d f in
      registered-Counts k w a (proxy_alloc w.pool a.fd).0 i c d at same more n)
]

pub on_conn-Counts :
    (k : ℕ) (w : Worker) (i : ℕ) (c : ProxyConn) (st : ConnState) (can_read can_write : Bool)
    (env : EventEnv)
    → ¬ IsBroken env.read
    → Holds w i c.fd
    → Counts k w
    → Counts k (on_conn w i c st can_read can_write env).0
unfolding on_conn
on_conn-Counts k w i c reading_req true can_write env b h n =
    handle_client_read-Counts k w i c env.client h n
on_conn-Counts k w i c reading_req false can_write env b h n = n
on_conn-Counts k w i c connecting_upstream can_read can_write env b h n =
    elim (Bool-cases (can_write || can_read)) [
      | inl e ↦
          rw e (upstream_writable-Counts k w i c c.upstream_fd env.socket_failed env.taken h n)
      | inr e ↦ rw e n
    ]
on_conn-Counts k w i c reading_upstream true can_write env b h n =
    upstream_readable-Counts k w i c c.upstream_fd env.read b h n
on_conn-Counts k w i c reading_upstream false can_write env b h n = n
on_conn-Counts k w i c _ can_read can_write env b h n = n

on_slot-Counts :
    (k : ℕ) (w : Worker) (slot : Option ℕ) (can_read can_write : Bool) (env : EventEnv)
    → ¬ IsBroken env.read
    → Counts k w
    → Counts k (on_slot w slot can_read can_write env).0
unfolding on_slot
on_slot-Counts k w none can_read can_write env b n = n
on_slot-Counts k w (some i) can_read can_write env b n = elim (Option-cases (get_elem? w.pool i)) [
  | inl e ↦ rw (e, on_slot) n
  | inr (c, e) ↦
      rw (e, on_slot)
        (on_conn-Counts k w i c c.state can_read can_write env b
          (record { conn = c; at = e; same_fd = refl }) n)
]

-- Every event in which no accepted descriptor is 0 and no read of a node's socket fails but with
-- EAGAIN keeps the counter of active connections at the number of slots in use, or at the same
-- number above it.
pub on_event-Counts :
    (k : ℕ) (w : Worker) (s : Shared) (fd : ℕ) (can_read can_write : Bool) (env : EventEnv)
    → IsDescriptor env.accepted
    → ¬ IsBroken env.read
    → Counts k w
    → Counts k (on_event w s fd can_read can_write env).0
unfolding on_event
on_event-Counts k w s fd can_read can_write env d b n = elim (Bool-cases (fd == w.listen_fd)) [
  | inr other ↦ simp other (on_slot-Counts k w (proxy_get w.pool fd) can_read can_write env b n)
  | inl listening ↦ simp listening (elim (Bool-cases (should_drain w s)) [
    | inl draining ↦ simp draining n
    | inr serving ↦ simp serving (accept_client-Counts k w env.accepted d n)
  ])
]
