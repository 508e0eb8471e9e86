-- ===== src/Static/Jail.antt =====
-- src/static_file.c: a path that is not refused does not lead out of the root.
use nexus_gateway.Base.{
  All, Bool, Bytes, List, List-cases, [], ap, arith, bytes_eq, c_str, codes, false, if◌then◌else◌,
  inl, inr, length, refl, some, suc, sym, take, true, zero, ℕ, ◌++◌, ◌+◌, ◌-◌, ◌==◌, ◌||◌, ◌∙◌, ◌∷◌,
  ◌≡◌,
}
use nexus_gateway.Static.{full_path, has_dots}

-- The components of a path, between its slashes.
unfoldable pub cons_head : ℕ → List Bytes → List Bytes
cons_head c [] = (c ∷ []) ∷ []
cons_head c (x ∷ xs) = (c ∷ x) ∷ xs

unfoldable pub components : Bytes → List Bytes
components [] = [] ∷ []
components (c ∷ cs) = if c == b'/' then [] ∷ components cs else cons_head c (components cs)

-- Whether the components lead above the directory that is `depth` below the root.
unfoldable pub climbs : ℕ → List Bytes → Bool
climbs depth [] = false
climbs depth (x ∷ xs) =
    let up = climbs (depth - 1) xs in
    let same = climbs depth xs in
    let down = climbs (depth + 1) xs in
    if bytes_eq x (codes "..")
    then (if depth == 0 then true else up)
    else if bytes_eq x (codes ".") || bytes_eq x []
    then same
    else down

abbrev NoUp : List Bytes → Type 0
NoUp = All (λ x. bytes_eq x (codes "..") ≡ false)

climbs-NoUp : (depth : ℕ) (xs : List Bytes) → NoUp xs → climbs depth xs ≡ false
unfolding climbs
climbs-NoUp depth [] h = refl
climbs-NoUp depth (x ∷ xs) h =
    ground (arith, h.0, climbs-NoUp depth xs h.1, climbs-NoUp (depth + 1) xs h.1)

components-NoUp : (s : Bytes) → has_dots s ≡ false → NoUp (components s)
unfolding components cons_head has_dots bytes_eq
components-NoUp [] h = (refl, tt)
components-NoUp (c ∷ []) h = ground arith
components-NoUp (c ∷ d ∷ s) h =
    let ih = components-NoUp (d ∷ s) (ground arith) in
    elim (List-cases (components s)) [
      | inl e ↦ ground (arith, e, ih)
      | inr (x, xs, e) ↦ ground (arith, e, ih)
    ]

has_dots-take : (n : ℕ) (s : Bytes) → has_dots s ≡ false → has_dots (take n s) ≡ false
unfolding has_dots
has_dots-take zero s h = refl
has_dots-take (suc n) [] h = refl
has_dots-take (suc zero) (c ∷ s) h = refl
has_dots-take (suc (suc n)) (c ∷ []) h = refl
has_dots-take (suc (suc n)) (c ∷ d ∷ s) h = ground (arith, has_dots-take (suc n) (d ∷ s))

minus_suc : (n k : ℕ) → n - k ≡ suc n - suc k
minus_suc n k = omega arith

minus_zero : (n : ℕ) → n ≡ n - 0
minus_zero n = omega arith

take-append : (n : ℕ) (a b : Bytes) → take n (a ++ b) ≡ take n a ++ take (n - length a) b
take-append zero a b = ground arith
take-append (suc n) [] b = ap (λ m. take m b) (minus_zero (suc n))
take-append (suc n) (x ∷ a) b =
    ap (◌∷◌ x) (take-append n a b ∙ ap (λ m. take n a ++ take m b) (minus_suc n (length a)))

-- The path that is opened is the root, of which at most 1023 bytes are kept, followed by a path
-- that at no point names more parents than directories, whatever the client asked for.
pub full_path-climbs :
    (root path : Bytes) {full : Bytes}
    → full_path root path ≡ some full
    → (p : Bytes) × (full ≡ take 1023 (c_str root) ++ p) × (climbs 0 (components p) ≡ false)
unfolding full_path
full_path-climbs root path {full} e =
    let p = take (1023 - length (c_str root)) (c_str path) in
    let clean : has_dots (c_str path) ≡ false = ground arith in
    let same : take 1023 (c_str root ++ c_str path) ≡ full = ground arith in
    (
      p,
      sym same ∙ take-append 1023 (c_str root) (c_str path),
      climbs-NoUp 0 (components p)
          (components-NoUp p (has_dots-take (1023 - length (c_str root)) (c_str path) clean)),
    )
