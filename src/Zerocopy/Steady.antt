-- ===== src/Zerocopy/Steady.antt =====
-- src/zerocopy.c: what is moved to a socket that takes whatever was read.
use nexus_gateway.Base.{
  Bool-cases, Bytes, [], ap, arith, drop, false, inl, inr, length, length-append, length-drop,
  length-take, refl, suc, take, true, zero, ℕ, ◌+◌, ◌-◌, ◌<◌, ◌==◌, ◌∙◌, ◌∷◌, ◌≡◌, ◌≤◌, ◌⊎◌,
}
use nexus_gateway.Zerocopy.{Kernel, Transfer, moved, splice_in, splice_loop, splice_out}

-- The socket takes whatever was read.
abbrev pub IsSteady : Kernel → Type 0
IsSteady k = (t : ℕ) → k.reads t ≤ k.writes t

-- The system always moves something.
abbrev pub IsLive : Kernel → Type 0
IsLive k = (t : ℕ) → (k.opens t ≡ true) × (0 < k.reads t)

-- Behind the loop, from an empty pipe: nothing is left in it, and `total` counts what was sent.
pub record Sent (s : Transfer) (total : ℕ) (r : Transfer × ℕ) : Type 0 where
  pub empty : r.0.pipe ≡ []
  pub count : r.1 + length s.out ≡ total + length r.0.out

take_whole : (n : ℕ) (s : Bytes) → drop n (take n s) ≡ []
take_whole zero s = refl
take_whole (suc n) [] = refl
take_whole (suc n) (x ∷ s) = take_whole n s

take-take : (n : ℕ) (s : Bytes) → take n (take n s) ≡ take n s
take-take zero s = refl
take-take (suc n) [] = refl
take-take (suc n) (x ∷ s) = ap (◌∷◌ x) (take-take n s)

moved_steady :
    (n : ℕ) (s : Transfer)
    → s.pipe ≡ []
    → n ≤ length s.file
    → ((moved n n s).pipe ≡ []) × (length (moved n n s).out ≡ length s.out + n)
unfolding moved
moved_steady n s e le = rw e (
  take_whole n s.file,
  omega (
    arith,
    length-append s.out (take n (take n s.file)),
    ap length (take-take n s.file),
    length-take n s.file,
  ),
)

splice_out_steady :
    (k : Kernel) (len : ℕ) (s : Transfer)
    → IsSteady k
    → splice_out k (splice_in k len s) s ≡ splice_in k len s
unfolding splice_out splice_in
splice_out_steady k len s steady = omega (arith, steady s.clock)

splice_in-le :
    (k : Kernel) (len : ℕ) (s : Transfer)
    → (splice_in k len s ≤ length s.file) × (splice_in k len s ≤ len)
unfolding splice_in
splice_in-le k len s = omega arith

pub splice_loop-Sent :
    (fuel : ℕ) (k : Kernel) (len : ℕ) (s : Transfer) (total : ℕ)
    → IsSteady k
    → s.pipe ≡ []
    → Sent s total (splice_loop fuel k len s total)
unfolding splice_loop
splice_loop-Sent zero k len s total steady e = record { empty = e; count = omega arith }
splice_loop-Sent (suc fuel) k len s total steady e =
    let n = splice_in k len s in
    let le = splice_in-le k len s in
    let (p, o) = moved_steady n s e le.0 in
    let (p0, o0) = moved_steady 0 s e (omega arith) in
    let ih = splice_loop-Sent fuel k (len - n) (moved n n s) (total + n) steady p in
    rw (splice_out_steady k len s steady) (elim (Bool-cases (len == 0)) [
      | inl f ↦ simp f (record { empty = e; count = omega arith })
      | inr f ↦ elim (Bool-cases (n == 0)) [
        | inl g ↦ simp (f, g) (record { empty = p0; count = omega (arith, o0) })
        | inr g ↦ simp (f, g) (record { empty = ih.empty; count = omega (arith, ih.count, o) })
      ]
    ])

splice_in_live :
    (k : Kernel) (len : ℕ) (s : Transfer)
    → IsLive k
    → len ≤ length s.file
    → (len ≡ 0) ⊎ (0 < splice_in k len s)
unfolding splice_in
splice_in_live k len s live le = omega (arith, (live s.clock).1)

file_moved :
    (n : ℕ) (s : Transfer) {len : ℕ}
    → n ≤ length s.file
    → len ≤ length s.file
    → len - n ≤ length (moved n n s).file
unfolding moved
file_moved n s h le = omega (arith, length-drop n s.file)

-- On a live system the loop moves what it is asked for.
pub splice_loop-all :
    (fuel : ℕ) (k : Kernel) (len : ℕ) (s : Transfer) (total : ℕ)
    → IsSteady k
    → IsLive k
    → s.pipe ≡ []
    → len ≤ fuel
    → len ≤ length s.file
    → (splice_loop fuel k len s total).1 ≡ total + len
unfolding splice_loop
splice_loop-all zero k len s total steady live e enough le = omega arith
splice_loop-all (suc fuel) k len s total steady live e enough le =
    let n = splice_in k len s in
    let b = splice_in-le k len s in
    let (p, o) = moved_steady n s e b.0 in
    let some_move : (len ≡ 0) ⊎ (0 < n) = splice_in_live k len s live le in
    let rest = splice_loop-all fuel k (len - n) (moved n n s) (total + n) steady live p in
    rw (splice_out_steady k len s steady) (elim (Bool-cases (len == 0)) [
      | inl f ↦ simp f (ground arith)
      | inr f ↦
          let positive : 0 < n = ground (arith, some_move) in
          let f' : (n == 0) ≡ false = ground (arith, positive) in
          simp (f, f')
            (rest (omega (arith, positive, enough)) (file_moved n s b.0 le) ∙ omega (arith, b.1))
    ])
