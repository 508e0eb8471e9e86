-- ===== src/Util/Alloc.antt =====
-- src/util.c: allocation that does not return without memory, and what is built on it. What `malloc`
-- answers is an argument, and so is `strcasecmp`, which is the C library's.
use nexus_gateway.Base.{
  Bytes, NoNul, Option, Option-cases, [], ap, arith, c_str, c_str-NoNul, codes, inl, inr, length,
  length-append, none, refl, some, sym, ℕ, ◌++◌, ◌+◌, ◌∷◌, ◌≡◌,
}
use nexus_gateway.Base.Int.{ℤ}

-- A call returns, or it prints a text on the standard error and aborts.
pub data Fallible (A : Type 0) : Type 0 where
  returns : A → Fallible A
  aborts : Bytes → Fallible A

-- `nexus_die`
unfoldable pub die : {A : Type 0} → Bytes → Fallible A
die msg = aborts (codes "nexus: fatal: " ++ (c_str msg ++ b'\n' ∷ []))

-- `nexus_xmalloc`: the address.
unfoldable pub xmalloc : ℕ → (ℕ → Option ℕ) → Fallible ℕ
xmalloc n malloc = elim (malloc n) [
  | none ↦ die (codes "xmalloc: out of memory")
  | some p ↦ returns p
]

-- Behind the allocation of `nexus_strdup`: the address, and the bytes that are copied to it.
unfoldable pub copied : Bytes → Fallible ℕ → Fallible (ℕ × Bytes)
copied bytes (returns p) = returns (p, bytes)
copied bytes (aborts text) = aborts text

-- `nexus_strdup`: `strlen(s) + 1` bytes are asked for and copied.
unfoldable pub strdup : Bytes → (ℕ → Option ℕ) → Fallible (ℕ × Bytes)
strdup s malloc = copied (c_str s ++ 0 ∷ []) (xmalloc (length (c_str s) + 1) malloc)

-- `nexus_strcmp_ci`
unfoldable pub strcmp_ci : (strcasecmp : Bytes → Bytes → ℤ) → Bytes → Bytes → ℤ
strcmp_ci strcasecmp a b = strcasecmp a b

c_str-terminated : (s : Bytes) → NoNul s → c_str (s ++ 0 ∷ []) ≡ s
unfolding c_str
c_str-terminated [] h = refl
c_str-terminated (c ∷ cs) h = let ih = c_str-terminated cs h.1 in ground (arith, ih)

-- What was returned, if anything was.
abbrev returned : {A : Type 0} → Fallible A → Option A
returned (returns a) = some a
returned (aborts text) = none

-- A copy that is returned is the same text, and fills the bytes that were asked for.
pub strdup-returns :
    (s : Bytes) (malloc : ℕ → Option ℕ) (p : ℕ) (bytes : Bytes)
    → strdup s malloc ≡ returns (p, bytes)
    → (malloc (length bytes) ≡ some p) × (c_str bytes ≡ c_str s)
unfolding strdup copied xmalloc die
strdup-returns s malloc p bytes e =
    let n = length (c_str s) + 1 in
    let result : returned (strdup s malloc) ≡ some (p, bytes) = ap (returned {A = ℕ × Bytes}) e in
    elim (Option-cases (malloc n)) [
      | inl f ↦ absurd (ground (arith, rw (f, returned) at result))
      | inr (q, f) ↦
          let same : some (q, c_str s ++ 0 ∷ []) ≡ some (p, bytes) = rw (f, returned) at result in
          let address : q ≡ p = ground (arith, same) in
          let text : c_str s ++ 0 ∷ [] ≡ bytes = ground (arith, same) in
          let asked : length (c_str s ++ 0 ∷ []) ≡ n = length-append (c_str s) (0 ∷ []) in
          rw (sym text, asked, f, sym address) (refl, c_str-terminated (c_str s) (c_str-NoNul s))
    ]
