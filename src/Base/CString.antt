-- ===== src/Base/CString.antt =====
-- Bytes, and what the C string functions do to them. A `char *` is the list of the bytes that are
-- stored before the terminator the code wrote; a zero byte among them ends the string for `strlen`,
-- `strcmp`, `strchr` and `%s`, which see `c_str` of it.
use Prim.Native.Char.{code}
use Prim.Native.Nat.{ℕ, zero, suc, ◌≤◌}
use Prim.Native.String.{String}
use mathlib.Core.Bool.{Bool, true, false, ◌&&◌}
use mathlib.Core.List.{List, [], ◌∷◌, ◌++◌}
use mathlib.Core.Logic.{◌≢◌, ◌↔◌, inl, inr}
use mathlib.Core.Option.{Option, none, some}
use mathlib.Core.Path.{◌≡◌, refl}
use native.Mathlib.Omega.{arith}
use nexus_gateway.Base.Tests.{◌==◌, if◌then◌else◌, Bool-cases}
use nexus_gateway.Base.Lists.{length, take, All}

abbrev pub Bytes : Type 0
Bytes = List ℕ

-- The bytes of an ASCII literal.
abbrev pub codes : String → Bytes
codes String.[] = []
codes (String.◌∷◌ c s) = code c ∷ codes s

-- What a string function sees of the bytes: those before the first zero.
unfoldable pub c_str : Bytes → Bytes
c_str [] = []
c_str (c ∷ cs) = if c == 0 then [] else c ∷ c_str cs

-- `strcmp(a, b) == 0` on strings that hold no zero, and `memcmp` on equal lengths.
unfoldable pub bytes_eq : Bytes → Bytes → Bool
bytes_eq [] [] = true
bytes_eq (x ∷ xs) (y ∷ ys) = x == y && bytes_eq xs ys
bytes_eq _ _ = false

-- `strncmp(s, p, strlen(p)) == 0`
unfoldable pub starts_with : Bytes → Bytes → Bool
starts_with s [] = true
starts_with [] (p ∷ ps) = false
starts_with (c ∷ cs) (p ∷ ps) = c == p && starts_with cs ps

-- `strchr` and `memchr`: what stands before and behind the first `b`.
unfoldable pub split_at_byte : ℕ → Bytes → Option (Bytes × Bytes)
split_at_byte b [] = none
split_at_byte b (c ∷ cs) =
    if c == b
    then some ([], cs)
    else elim (split_at_byte b cs) [ none ↦ none | some (l, r) ↦ some (c ∷ l, r) ]

-- A string that holds no zero byte.
abbrev pub NoNul : Bytes → Type 0
NoNul = All (λ c. c ≢ 0)

pub bytes_eq_iff : (a b : Bytes) → (bytes_eq a b ≡ true) ↔ (a ≡ b)
unfolding bytes_eq
bytes_eq_iff (x ∷ a) (y ∷ b) = ground (arith, bytes_eq_iff a b)
bytes_eq_iff _ _ = ground arith

pub bytes_eq_refl : (a : Bytes) → bytes_eq a a ≡ true
bytes_eq_refl a = (bytes_eq_iff a a).1 refl

pub c_str-NoNul : (s : Bytes) → NoNul (c_str s)
unfolding c_str
c_str-NoNul [] = tt
c_str-NoNul (c ∷ cs) = elim (Bool-cases (c == 0)) [
  | inl z ↦ rw z tt
  | inr n ↦ rw n (ground arith, c_str-NoNul cs)
]

pub c_str-id : (s : Bytes) → NoNul s → c_str s ≡ s
unfolding c_str
c_str-id [] h = refl
c_str-id (c ∷ cs) h = ground (arith, c_str-id cs h.1)

pub c_str-c_str : (s : Bytes) → c_str (c_str s) ≡ c_str s
c_str-c_str s = c_str-id (c_str s) (c_str-NoNul s)

pub length-c_str : (s : Bytes) → length (c_str s) ≤ length s
unfolding c_str
length-c_str [] = omega arith
length-c_str (c ∷ cs) = ground (arith, length-c_str cs)

pub NoNul-take : (n : ℕ) (s : Bytes) → NoNul s → NoNul (take n s)
NoNul-take zero s h = tt
NoNul-take (suc n) [] h = tt
NoNul-take (suc n) (x ∷ s) h = (h.0, NoNul-take n s h.1)

pub split_at_byte-append :
    (b : ℕ) (l r : Bytes) → All (λ c. c ≢ b) l → split_at_byte b (l ++ (b ∷ r)) ≡ some (l, r)
unfolding split_at_byte
split_at_byte-append b [] r h = ground arith
split_at_byte-append b (c ∷ l) r h = ground (arith, h.0, split_at_byte-append b l r h.1)

pub append-ne-nil : (l r : Bytes) (b : ℕ) → l ++ (b ∷ r) ≢ []
append-ne-nil [] r b = λ e. cc
append-ne-nil (c ∷ l) r b = λ e. cc
