-- ===== src/Rewrite/Id.antt =====
-- src/http_rewrite.c: `generate_req_id`, base 36 digits from the end of the buffer.
use Prim.Native.Nat.{bit_or}
use native.Mathlib.Nat.{pow-suc}
use nexus_gateway.Base.{
  ==_iff, Bool-cases, Bytes, [], ap, arith, if◌then◌else◌, inl, inr, ltb, suc, zero, ℕ, ◌%◌, ◌*◌,
  ◌+◌, ◌-◌, ◌/◌, ◌<◌, ◌==◌, ◌^◌, ◌∙◌, ◌∷◌, ◌≡◌,
}

-- `chars[d]` for `d < 36`
unfoldable pub digit : ℕ → ℕ
digit d = if ltb d 10 then b'0' + d else b'a' + (d - 10)

-- The `do … while` loop with `room` places left in front of the digits written.
unfoldable pub digits_loop : ℕ → ℕ → Bytes → Bytes
unfolding digit
digits_loop zero id written = written
digits_loop (suc room) id written =
    let here = digit (id % 36) ∷ written in
    let rest = digits_loop room (id / 36) here in if id / 36 == 0 then here else rest

-- `(rand() << 16) | rand()` as a `uint32_t`
unfoldable pub random32 : ℕ → ℕ → ℕ
random32 rand1 rand2 = bit_or (rand1 * 2 ^ 16 % 2 ^ 32) rand2 % 2 ^ 32

-- `(timestamp << 32) | random` as a `uint64_t`: the low half of the shifted timestamp is zero.
unfoldable pub id_of : ℕ → ℕ → ℕ
id_of timestamp random = timestamp * 2 ^ 32 % 2 ^ 64 + random

-- `generate_req_id` into a buffer of `len` bytes, the last of which is the terminator.
unfoldable pub generate_req_id : ℕ → ℕ → ℕ → ℕ → Bytes
unfolding digits_loop random32 id_of
generate_req_id len timestamp rand1 rand2 =
    digits_loop (len - 1) (id_of timestamp (random32 rand1 rand2)) []

digit_value : ℕ → ℕ
digit_value c = if ltb c b'a' then c - b'0' else c - b'a' + 10

digit_value-digit : (d : ℕ) → d < 36 → digit_value (digit d) ≡ d
unfolding digit_value digit
digit_value-digit d h = ground arith

-- The number that a text of base 36 digits stands for, behind `n`.
read_from : ℕ → Bytes → ℕ
read_from n [] = n
read_from n (c ∷ cs) = read_from (n * 36 + digit_value c) cs

unfoldable pub read_id : Bytes → ℕ
unfolding read_from digit_value
read_id = read_from 0

div_small : (id p : ℕ) → id < 36 * p → id / 36 < p
div_small id p h = omega arith

digit_step : (id : ℕ) → id / 36 * 36 + digit_value (digit (id % 36)) ≡ id
digit_step id = omega (arith, digit_value-digit (id % 36) (omega arith))

digit_last : (id : ℕ) → id / 36 ≡ 0 → 0 * 36 + digit_value (digit (id % 36)) ≡ id
digit_last id h = omega (arith, digit_step id)

read_from-digits_loop :
    (room id : ℕ) (written : Bytes)
    → id < 36 ^ suc room
    → read_from 0 (digits_loop (suc room) id written) ≡ read_from id written
unfolding read_from digits_loop
read_from-digits_loop zero id written h =
    let last : id / 36 ≡ 0 = omega arith in
    rw last (ap (λ (n : ℕ). read_from n written) (digit_last id last))
read_from-digits_loop (suc room) id written h = elim (Bool-cases (id / 36 == 0)) [
  | inl last ↦ simp last (ap (λ (n : ℕ). read_from n written) (digit_last id ((==_iff _ 0).0 last)))
  | inr more ↦ simp more (
      read_from-digits_loop room (id / 36) (digit (id % 36) ∷ written)
        (div_small id (36 ^ suc room) (omega (arith, pow-suc 36 (suc room))))
      ∙ ap (λ (n : ℕ). read_from n written) (digit_step id))
]

-- generate_req_id loses nothing of the identifier: it can be read back from the text.
pub read_id-generate_req_id :
    (timestamp rand1 rand2 : ℕ)
    → read_id (generate_req_id 16 timestamp rand1 rand2) ≡ id_of timestamp (random32 rand1 rand2)
unfolding read_id generate_req_id
read_id-generate_req_id timestamp rand1 rand2 =
    read_from-digits_loop 14 (id_of timestamp (random32 rand1 rand2)) [] (omega arith)

-- The number's two halves are the low half of the clock and the random number.
pub id_of_parts :
    (timestamp random : ℕ)
    → random < 2 ^ 32
    → (id_of timestamp random / 2 ^ 32 ≡ timestamp % 2 ^ 32)
      × (id_of timestamp random % 2 ^ 32 ≡ random)
unfolding id_of
id_of_parts timestamp random h = omega arith
