-- ===== src/Util.antt =====
-- src/util.c: `nexus_hash_fnv1a`, and the `tolower` that the header table applies to each byte.
-- `nexus_now_ms` reads a clock: its value is an argument wherever the code calls it.
pub mod Atoi
pub mod Decimal
pub mod Alloc
use Prim.Native.Nat.{bit_xor}
use nexus_gateway.Base.{
  Bytes, NoNul, [], arith, if◌then◌else◌, leb, map, refl, ℕ, ◌%◌, ◌&&◌, ◌*◌, ◌+◌, ◌/◌, ◌<◌, ◌^◌,
  ◌∷◌, ◌≡◌, ◌≢◌,
}

abbrev pub u32_mod : ℕ
u32_mod = 2 ^ 32

abbrev fnv_offset : ℕ
fnv_offset = 2166136261

abbrev fnv_prime : ℕ
fnv_prime = 16777619

-- One round: `h ^= (unsigned char)s[i]; h *= 16777619u;`.
unfoldable pub fnv1a_round : ℕ → ℕ → ℕ
fnv1a_round h c = (bit_xor h c * fnv_prime) % u32_mod

unfoldable pub fnv1a_from : ℕ → Bytes → ℕ
fnv1a_from h [] = h
fnv1a_from h (c ∷ cs) = fnv1a_from (fnv1a_round h c) cs

unfoldable pub hash_fnv1a : Bytes → ℕ
unfolding fnv1a_round fnv1a_from
hash_fnv1a = fnv1a_from fnv_offset

fnv1a_from-lt : (h : ℕ) (s : Bytes) → h < u32_mod → fnv1a_from h s < u32_mod
unfolding fnv1a_from fnv1a_round
fnv1a_from-lt h [] lt = lt
fnv1a_from-lt h (c ∷ cs) lt = fnv1a_from-lt (fnv1a_round h c) cs (omega arith)

-- The hash is a `uint32_t`.
pub hash_fnv1a-lt : (s : Bytes) → hash_fnv1a s < u32_mod
unfolding hash_fnv1a
hash_fnv1a-lt s = fnv1a_from-lt fnv_offset s (omega arith)

-- `tolower` in the C locale.
unfoldable pub to_lower : ℕ → ℕ
to_lower c = if leb b'A' c && leb c b'Z' then c + 32 else c

to_lower-to_lower : (c : ℕ) → to_lower (to_lower c) ≡ to_lower c
unfolding to_lower
to_lower-to_lower c = ground arith

to_lower-ne-zero : (c : ℕ) → c ≢ 0 → to_lower c ≢ 0
unfolding to_lower
to_lower-ne-zero c h = ground arith

-- `normalize_lower` of http_header.c.
abbrev pub normalize_lower : Bytes → Bytes
normalize_lower = map to_lower

pub normalize_lower_idem : (s : Bytes) → normalize_lower (normalize_lower s) ≡ normalize_lower s
normalize_lower_idem [] = refl
normalize_lower_idem (c ∷ cs) = rw (to_lower-to_lower c, normalize_lower_idem cs)

pub NoNul-normalize_lower : (s : Bytes) → NoNul s → NoNul (normalize_lower s)
NoNul-normalize_lower [] h = tt
NoNul-normalize_lower (c ∷ cs) h = (to_lower-ne-zero c h.0, NoNul-normalize_lower cs h.1)

-- `mono_ms` and `mono_us`, from the seconds and nanoseconds of the clock.
unfoldable pub mono_ms : ℕ → ℕ → ℕ
mono_ms sec nsec = (sec * 1000 + nsec / 1000000) % 2 ^ 64

unfoldable pub mono_us : ℕ → ℕ → ℕ
mono_us sec nsec = (sec * 1000000 + nsec / 1000) % 2 ^ 64
