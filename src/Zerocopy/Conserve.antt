-- ===== src/Zerocopy/Conserve.antt =====
-- src/zerocopy.c: where the bytes of the file are behind the loop.
use mathlib.Core.List.{append_assoc}
use nexus_gateway.Base.{
  Bool-cases, Bytes, [], ap, drop, inl, inr, refl, suc, sym, take, zero, ℕ, ◌++◌, ◌+◌, ◌-◌, ◌==◌,
  ◌∙◌, ◌∷◌, ◌≡◌,
}
use nexus_gateway.Zerocopy.{Kernel, Transfer, moved, splice_in, splice_loop, splice_out}

take-drop : (n : ℕ) (s : Bytes) → take n s ++ drop n s ≡ s
take-drop zero s = refl
take-drop (suc n) [] = refl
take-drop (suc n) (x ∷ s) = ap (◌∷◌ x) (take-drop n s)

-- Where the bytes are: sent, in the pipe, or not read.
abbrev pub bytes_of : Transfer → Bytes
bytes_of s = s.out ++ (s.pipe ++ s.file)

-- A round loses no byte.
pub moved-bytes_of : (n m : ℕ) (s : Transfer) → bytes_of (moved n m s) ≡ bytes_of s
unfolding moved
moved-bytes_of n m s =
    let q = s.pipe ++ take n s.file in
    append_assoc s.out (take m q) (drop m q ++ drop n s.file)
    ∙ ap (◌++◌ s.out) (
        sym (append_assoc (take m q) (drop m q) (drop n s.file))
        ∙ ap (λ x. x ++ drop n s.file) (take-drop m q)
        ∙ append_assoc s.pipe (take n s.file) (drop n s.file)
        ∙ ap (◌++◌ s.pipe) (take-drop n s.file))

pub splice_loop-bytes_of :
    (fuel : ℕ) (k : Kernel) (len : ℕ) (s : Transfer) (total : ℕ)
    → bytes_of (splice_loop fuel k len s total).0 ≡ bytes_of s
unfolding splice_loop
splice_loop-bytes_of zero k len s total = refl
splice_loop-bytes_of (suc fuel) k len s total =
    let n = splice_in k len s in
    let m = splice_out k n s in
    let rest = splice_loop-bytes_of fuel k (len - m) (moved n m s) (total + m) in
    elim (Bool-cases (len == 0)) [
      | inl e ↦ simp e refl
      | inr e ↦ elim (Bool-cases (n == 0)) [
        | inl f ↦ simp (e, f) (moved-bytes_of 0 0 s)
        | inr f ↦ elim (Bool-cases (m == 0)) [
          | inl g ↦ simp (e, f, g) (moved-bytes_of n 0 s)
          | inr g ↦ simp (e, f, g) (rest ∙ moved-bytes_of n m s)
        ]
      ]
    ]
