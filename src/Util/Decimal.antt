-- ===== src/Util/Decimal.antt =====
-- `%d`, `%u`, `%zu` and `%ld` of the C library, on a number that is not negative.
use nexus_gateway.Base.{
  Bool-cases, Bytes, [], ap, arith, if◌then◌else◌, inl, inr, leb, ltb, refl, suc, true, zero, ℕ,
  ◌%◌, ◌&&◌, ◌*◌, ◌+◌, ◌-◌, ◌/◌, ◌<◌, ◌∙◌, ◌∷◌, ◌≡◌, ◌≤◌,
}
use nexus_gateway.Base.Int.{negsuc, pos, ℤ}
use nexus_gateway.Util.Atoi.{atoi, digits_from, is_digit, is_space, signed, skip_space}

-- The digits in front of `acc`; the number falls at each round, so it is fuel enough.
unfoldable pub decimal_loop : ℕ → ℕ → Bytes → Bytes
decimal_loop zero n acc = (48 + n % 10) ∷ acc
decimal_loop (suc fuel) n acc =
    let rest = decimal_loop fuel (n / 10) ((48 + n % 10) ∷ acc) in
    if ltb n 10 then (48 + n) ∷ acc else rest

unfoldable pub decimal : ℕ → Bytes
unfolding decimal_loop
decimal n = decimal_loop n n []

digits_from-digit :
    (a d : ℕ) (acc : Bytes) → d < 10 → digits_from a ((48 + d) ∷ acc) ≡ digits_from (a * 10 + d) acc
unfolding digits_from is_digit
digits_from-digit a d acc h =
    let e : 48 + d - 48 ≡ d = omega arith in
    let digit : (leb 48 (48 + d) && leb (48 + d) 57) ≡ true = ground arith in rw (digit, e) refl

digits_from-decimal_loop :
    (fuel n : ℕ) (acc : Bytes)
    → n ≤ fuel
    → digits_from 0 (decimal_loop fuel n acc) ≡ digits_from n acc
unfolding decimal_loop
digits_from-decimal_loop zero n acc h =
    digits_from-digit 0 (n % 10) acc (omega arith) ∙ ap (λ m. digits_from m acc) (omega arith)
digits_from-decimal_loop (suc fuel) n acc h = elim (Bool-cases (ltb n 10)) [
  | inl small ↦
      simp small
        (digits_from-digit 0 n acc (ground arith) ∙ ap (λ m. digits_from m acc) (omega arith))
  | inr big ↦ simp big (
      digits_from-decimal_loop fuel (n / 10) ((48 + n % 10) ∷ acc) (ground arith)
      ∙ digits_from-digit (n / 10) (n % 10) acc (omega arith)
      ∙ ap (λ m. digits_from m acc) (omega arith))
]

-- A digit in front.
abbrev pub IsNumeral : Bytes → Type 0
IsNumeral [] = ⊥
IsNumeral (c ∷ cs) = (48 ≤ c) × (c < 58)

decimal_loop-IsNumeral : (fuel n : ℕ) (acc : Bytes) → IsNumeral (decimal_loop fuel n acc)
unfolding decimal_loop
decimal_loop-IsNumeral zero n acc = omega arith
decimal_loop-IsNumeral (suc fuel) n acc =
    ground (arith, decimal_loop-IsNumeral fuel (n / 10) ((48 + n % 10) ∷ acc))

atoi-IsNumeral : (s : Bytes) → IsNumeral s → atoi s ≡ pos (digits_from 0 s)
unfolding atoi signed skip_space is_space
atoi-IsNumeral [] h = absurd h
atoi-IsNumeral (c ∷ cs) h = ground arith

digits_from_end : (n : ℕ) → digits_from n [] ≡ n
unfolding digits_from
digits_from_end n = refl

-- `atoi` reads back what `%d` prints.
pub atoi-decimal : (n : ℕ) → atoi (decimal n) ≡ pos n
unfolding decimal
atoi-decimal n =
    atoi-IsNumeral (decimal_loop n n []) (decimal_loop-IsNumeral n n [])
    ∙ ap pos (digits_from-decimal_loop n n [] (omega arith) ∙ digits_from_end n)

-- `%d` on any number.
unfoldable pub decimal_ℤ : ℤ → Bytes
decimal_ℤ (pos n) = decimal n
decimal_ℤ (negsuc n) = b'-' ∷ decimal (n + 1)
