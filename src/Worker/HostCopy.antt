-- ===== src/Worker/HostCopy.antt =====
-- src/worker.c: the copy of the node's host into its array in `nexus_worker_run`.
use nexus_gateway.Base.{
  Bytes, [], arith, inl, inr, length, none, refl, replicate, some, suc, zero, ℕ, ◌+◌, ◌<◌, ◌↔◌, ◌∷◌,
  ◌≡◌, ◌≤◌, ◌⊎◌,
}
use nexus_gateway.Worker.Start.{copy_host, copy_to, host_size, store}

store-fits :
    (a : Bytes) (j v : ℕ)
    → ((b : Bytes) × (store a j v ≡ some b) × (length b ≡ length a) × (j < length a))
      ⊎ ((store a j v ≡ none) × (length a ≤ j))
unfolding store
store-fits [] j v = inr (refl, omega arith)
store-fits (x ∷ a) zero v = inl (v ∷ a, refl, refl, omega arith)
store-fits (x ∷ a) (suc j) v = elim (store-fits a j v) [
  | inl (b, e, same, lt) ↦ rw e (inl (x ∷ b, refl, omega (arith, same), omega (arith, lt)))
  | inr (e, le) ↦ rw e (inr (refl, omega (arith, le)))
]

-- Bytes from a place in the array fit, or leave it.
copy_to-fits :
    (a : Bytes) (j : ℕ) (s : Bytes)
    → j ≤ length a
    → ((b : Bytes) × (copy_to a j s ≡ some b) × (length b ≡ length a) × (j + length s ≤ length a))
      ⊎ ((copy_to a j s ≡ none) × (length a < j + length s))
unfolding copy_to
copy_to-fits a j [] in_array = inl (a, refl, refl, omega (arith, in_array))
copy_to-fits a j (c ∷ s) in_array = elim (store-fits a j c) [
  | inr (e, le) ↦ rw (e, copy_to) (inr (refl, omega (arith, le)))
  | inl (a', e, same, lt) ↦ elim (copy_to-fits a' (j + 1) s (omega (arith, same, lt))) [
    | inl (b, f, same', fits) ↦
        rw (e, copy_to, f) (inl (b, refl, omega (arith, same, same'), omega (arith, same, fits)))
    | inr (f, past) ↦ rw (e, copy_to, f) (inr (refl, omega (arith, same, past)))
  ]
]

length-replicate : (n v : ℕ) → length (replicate n v) ≡ n
length-replicate zero v = refl
length-replicate (suc n) v = omega (arith, length-replicate n v)

-- The copy with its terminator leaves the array exactly when the text is as long as the array.
pub copy_host-eq-none : (s : Bytes) → (copy_host s ≡ none) ↔ (host_size ≤ length s)
unfolding copy_host
copy_host-eq-none s =
    let a : Bytes = replicate host_size 0 in
    let size = length-replicate host_size 0 in
    elim (copy_to-fits a 0 s (omega arith)) [
      | inr (e, past) ↦ rw (e, copy_host) ((λ _. omega (arith, past, size)), λ _. refl)
      | inl (b, e, same, fits) ↦ elim (store-fits b (length s) 0) [
        | inr (f, le) ↦ rw (e, copy_host, f) ((λ _. omega (arith, le, same, size)), λ _. refl)
        | inl (d, f, same', lt) ↦
            rw (e, copy_host, f) ((λ q. cc), λ long. absurd (omega (arith, long, lt, same, size)))
      ]
    ]
