-- ===== src/Worker/Above.antt =====
-- src/worker.c: the counter of active connections over any events, those of descriptor 0 and those of
-- a failed read among them.
use nexus_gateway.Base.{
  Bool, Bool-cases, Option, Option-cases, ap, arith, c_str, false, get_elem?, get_elem?-set_self,
  inl, inr, none, refl, set, some, subst, sym, take, true, ℕ, ◌+◌, ◌==◌, ◌∙◌, ◌≡◌,
}
use nexus_gateway.Base.Int.{negsuc, pos, ℤ, ◌+ℤ◌}
use nexus_gateway.Connection.{ConnState, connecting_upstream, idle, reading_req, reading_upstream}
use nexus_gateway.Worker.{ProxyConn, Worker, proxy_alloc, proxy_get}
use nexus_gateway.Worker.Backend.{ReadResult, again, broken, end_of_file, got, upstream_readable}
use nexus_gateway.Worker.Count.{Counts, Holds, freed, plus_one, used, used_slots, used_slots-set}
use nexus_gateway.Worker.Events.{
  Accepted, EventEnv, Shared, accept_client, on_conn, on_event, on_slot, register, should_drain,
}
use nexus_gateway.Worker.Leak.{
  accept_client-Counts, on_conn-Counts, proxy_alloc-none, upstream_readable-Counts,
  upstream_readable-broken,
}
use nexus_gateway.Worker.Views.{at-bound, proxy_alloc-at}

-- The counter is the number of slots in use, or more.
abbrev pub CountsAbove : Worker → Type 0
CountsAbove w = (k : ℕ) × Counts k w

upstream_readable-CountsAbove :
    (w : Worker) (i : ℕ) (c : ProxyConn) (u : ℤ) (r : ReadResult)
    → Holds w i c.fd
    → CountsAbove w
    → CountsAbove (upstream_readable w i c u r).0
unfolding upstream_readable
upstream_readable-CountsAbove w i c (negsuc _) r h n = n
upstream_readable-CountsAbove w i c (pos ufd) (got bytes) h (k, n) =
    (k, upstream_readable-Counts k w i c (pos ufd) (got bytes) (λ b. b) h n)
upstream_readable-CountsAbove w i c (pos ufd) end_of_file h (k, n) =
    (k, upstream_readable-Counts k w i c (pos ufd) end_of_file (λ b. b) h n)
upstream_readable-CountsAbove w i c (pos ufd) again h n = n
upstream_readable-CountsAbove w i c (pos ufd) broken h (k, n) = elim (Bool-cases (c.fd == 0)) [
  | inl zeroed ↦
      let none_used : used c ≡ 0 = simp zeroed refl in
      (k, n ∙ ap pos (omega (arith, freed w i c h, none_used)))
  | inr open_fd ↦ (k + 1, upstream_readable-broken k w i ufd c h (ground (arith, open_fd)) n)
]

on_conn-CountsAbove :
    (w : Worker) (i : ℕ) (c : ProxyConn) (st : ConnState) (can_read can_write : Bool)
    (env : EventEnv)
    → Holds w i c.fd
    → CountsAbove w
    → CountsAbove (on_conn w i c st can_read can_write env).0
unfolding on_conn
on_conn-CountsAbove w i c reading_upstream true can_write env h n =
    upstream_readable-CountsAbove w i c c.upstream_fd env.read h n
on_conn-CountsAbove w i c reading_upstream false can_write env h n = n
on_conn-CountsAbove w i c connecting_upstream can_read can_write env h (k, n) = (
  k,
  on_conn-Counts k w i c connecting_upstream can_read can_write (record env { read = again })
      (λ b. b) h n,
)
on_conn-CountsAbove w i c reading_req can_read can_write env h (k, n) = (
  k,
  on_conn-Counts k w i c reading_req can_read can_write (record env { read = again }) (λ b. b) h n,
)
on_conn-CountsAbove w i c _ can_read can_write env h n = n

on_slot-CountsAbove :
    (w : Worker) (slot : Option ℕ) (can_read can_write : Bool) (env : EventEnv)
    → CountsAbove w
    → CountsAbove (on_slot w slot can_read can_write env).0
unfolding on_slot
on_slot-CountsAbove w none can_read can_write env n = n
on_slot-CountsAbove w (some i) can_read can_write env n = elim (Option-cases (get_elem? w.pool i)) [
  | inl e ↦ rw (e, on_slot) n
  | inr (c, e) ↦
      rw (e, on_slot)
        (on_conn-CountsAbove w i c c.state can_read can_write env
          (record { conn = c; at = e; same_fd = refl }) n)
]

-- A client with descriptor 0 is counted, and its slot stays free.
register-CountsAbove :
    (k : ℕ) (w : Worker) (a : Accepted) (i : ℕ)
    → a.fd ≡ 0
    → (proxy_alloc w.pool a.fd).1 ≡ some i
    → Counts k w
    → Counts (k + 1) (register w a (proxy_alloc w.pool a.fd).0 (some i)).0
unfolding register
register-CountsAbove k w a i z e n =
    let (c, at, unheld, pool) = proxy_alloc-at w.pool a.fd i e in
    let c' = record c { fd = a.fd; state = idle; upstream_fd = negsuc 0 } in
    let there : get_elem? (set w.pool i c') i ≡ some c' =
      get_elem?-set_self w.pool i c' (at-bound w.pool i {a = c} at) in
    let there' = subst (λ p. get_elem? p i ≡ some c') (sym pool) there in
    let before : used c ≡ 0 = ground (arith, unheld) in
    let behind : used c' ≡ 0 = ground (arith, z) in
    let first = used_slots-set w.pool i c' {c = c} at in
    let taken : used_slots (proxy_alloc w.pool a.fd).0 ≡ used_slots w.pool =
      ap used_slots pool ∙ omega (arith, first, before, behind) in
    let c'' = record c' {
      client_ip = take 63 (c_str a.ip);
      client_port = a.port;
      state = reading_req;
    } in
    let second = used_slots-set (proxy_alloc w.pool a.fd).0 i c'' {c = c'} there' in
    rw (there', register)
      (ap (λ m. m +ℤ pos 1) n ∙ plus_one _ _ (omega (arith, second, taken, behind)))

accept_client-CountsAbove :
    (w : Worker) (a : Option Accepted) → CountsAbove w → CountsAbove (accept_client w a).0
unfolding accept_client register
accept_client-CountsAbove w none n = n
accept_client-CountsAbove w (some a) (k, n) = elim (Bool-cases (a.fd == 0)) [
  | inr other ↦ (k, accept_client-Counts k w (some a) (ground (arith, other)) n)
  | inl zeroed ↦ elim (Option-cases (proxy_alloc w.pool a.fd).1) [
    | inl f ↦ (
      k,
      rw (f, register)
          (n ∙ ap (λ p. pos (used_slots p + k)) (sym (proxy_alloc-none w.pool a.fd f))),
    )
    | inr (i, f) ↦ (k + 1, rw f (register-CountsAbove k w a i (ground (arith, zeroed)) f n))
  ]
]

-- Every event, whatever the system answers, failed reads and descriptor 0 included, keeps the
-- counter of active connections at the number of slots in use or above it.
pub on_event-CountsAbove :
    (w : Worker) (s : Shared) (fd : ℕ) (can_read can_write : Bool) (env : EventEnv)
    → CountsAbove w
    → CountsAbove (on_event w s fd can_read can_write env).0
unfolding on_event
on_event-CountsAbove w s fd can_read can_write env n = elim (Bool-cases (fd == w.listen_fd)) [
  | inr other ↦ simp other (on_slot-CountsAbove w (proxy_get w.pool fd) can_read can_write env n)
  | inl listening ↦ simp listening (elim (Bool-cases (should_drain w s)) [
    | inl draining ↦ simp draining n
    | inr serving ↦ simp serving (accept_client-CountsAbove w env.accepted n)
  ])
]
