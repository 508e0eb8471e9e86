-- ===== src/Connection/Pool.antt =====
-- src/connection.c: what allocation, release and lookup do to each other.
use nexus_gateway.Base.{
  All, Bool-cases, List, Option-cases, [], arith, inl, inr, map, none, refl, some, to_int, ℕ, ◌+◌,
  ◌==◌, ◌↔◌, ◌∷◌, ◌≡◌, ◌≢◌,
}
use nexus_gateway.Connection.{Conn, conn_alloc, conn_free, conn_get}

-- How many slots are free.
unfoldable pub free_slots : List Conn → ℕ
free_slots [] = 0
free_slots (c ∷ cs) = to_int (c.fd == 0) + free_slots cs

-- No slot holds the descriptor.
abbrev pub IsUnused : ℕ → List Conn → Type 0
IsUnused fd = All (λ c. c.fd ≢ fd)

-- A connection that is allocated for a descriptor that is not 0 and not in use is the one that is
-- found by it, and takes one free slot.
pub conn_get-conn_alloc :
    (cs : List Conn) (fd now i : ℕ)
    → fd ≢ 0
    → IsUnused fd cs
    → (conn_alloc cs fd now).1 ≡ some i
    → (conn_get (conn_alloc cs fd now).0 fd ≡ some i)
      × (free_slots (conn_alloc cs fd now).0 + 1 ≡ free_slots cs)
unfolding conn_alloc conn_get free_slots
conn_get-conn_alloc [] fd now i ne unused e = cc
conn_get-conn_alloc (c ∷ cs) fd now i ne unused e = elim (Bool-cases (c.fd == 0)) [
  | inl free ↦ ground arith
  | inr used ↦ elim (Option-cases (conn_alloc cs fd now).1) [
    | inl f ↦ absurd (ground (arith, f))
    | inr (j, f) ↦ ground (arith, f, conn_get-conn_alloc cs fd now j ne unused.1 f, unused.0)
  ]
]

-- Allocation of a connection fails exactly when no slot is free.
pub conn_alloc-eq-none :
    (cs : List Conn) (fd now : ℕ) → ((conn_alloc cs fd now).1 ≡ none) ↔ (free_slots cs ≡ 0)
unfolding conn_alloc free_slots
conn_alloc-eq-none [] fd now = (λ _. refl, λ _. refl)
conn_alloc-eq-none (c ∷ cs) fd now = elim (Option-cases (conn_alloc cs fd now).1) [
  | inl f ↦ ground (arith, f, conn_alloc-eq-none cs fd now)
  | inr (j, f) ↦ ground (arith, f, conn_alloc-eq-none cs fd now)
]

-- The descriptors of the slots.
abbrev pub fds : List Conn → List ℕ
fds = map (λ c. c.fd)

-- Allocating a connection for a descriptor and freeing its slot leaves the descriptors of the
-- pool as they were.
pub conn_free-conn_alloc :
    (cs : List Conn) (fd now i : ℕ)
    → (conn_alloc cs fd now).1 ≡ some i
    → fds (conn_free (conn_alloc cs fd now).0 i) ≡ fds cs
unfolding conn_alloc conn_free
conn_free-conn_alloc [] fd now i e = cc
conn_free-conn_alloc (c ∷ cs) fd now i e = elim (Bool-cases (c.fd == 0)) [
  | inl free ↦ ground arith
  | inr used ↦ elim (Option-cases (conn_alloc cs fd now).1) [
    | inl f ↦ absurd (ground (arith, f))
    | inr (j, f) ↦ ground (arith, f, conn_free-conn_alloc cs fd now j f)
  ]
]
