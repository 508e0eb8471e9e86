-- ===== src/RateLimit/View.antt =====
-- src/rate_limit.c: the table as a map from addresses to buckets.
use nexus_gateway.Base.{
  Bool-cases, Bytes, List, Option, Option-cases, [], ap, arith, bytes_eq, bytes_eq_iff, c_str,
  false, get_elem?, if◌then◌else◌, inl, inr, none, refl, set, some, suc, sym, true, zero, ℕ, ◌++◌,
  ◌∷◌, ◌≡◌,
}
use nexus_gateway.RateLimit.{Entry, find_entry}

-- The bucket of an address, given as a C string.
unfoldable pub bucket_of : Bytes → List Entry → Option Entry
bucket_of s [] = none
bucket_of s (e ∷ es) = if bytes_eq e.ip s then some e else bucket_of s es

pub find_entry-none :
    (ip : Bytes) (es : List Entry) → find_entry ip es ≡ none → bucket_of (c_str ip) es ≡ none
unfolding find_entry bucket_of
find_entry-none ip [] h = refl
find_entry-none ip (e ∷ es) h = elim (Bool-cases (bytes_eq e.ip (c_str ip))) [
  | inl same ↦ absurd (ground (arith, same))
  | inr other ↦ elim (Option-cases (find_entry ip es)) [
    | inl f ↦ rw other (find_entry-none ip es f)
    | inr (i, f) ↦ absurd (ground (arith, other, f))
  ]
]

-- Where the table finds an address.
pub record IsFound (ip : Bytes) (es : List Entry) (i : ℕ) : Type 0 where
  pub entry : Entry
  pub at : get_elem? es i ≡ some entry
  pub address : entry.ip ≡ c_str ip
  pub bucket : bucket_of (c_str ip) es ≡ some entry

pub find_entry-IsFound :
    (ip : Bytes) (es : List Entry) (i : ℕ) → find_entry ip es ≡ some i → IsFound ip es i
unfolding find_entry bucket_of
find_entry-IsFound ip [] i h = cc
find_entry-IsFound ip (e ∷ es) i h = elim (Bool-cases (bytes_eq e.ip (c_str ip))) [
  | inl same ↦
      let first : 0 ≡ i = ground (arith, same) in
      rw (sym first) (record {
        entry = e;
        at = refl;
        address = (bytes_eq_iff e.ip (c_str ip)).0 same;
        bucket = rw same refl;
      })
  | inr other ↦ elim (Option-cases (find_entry ip es)) [
    | inl f ↦ absurd (ground (arith, other, f))
    | inr (j, f) ↦
        let next : suc j ≡ i = ground (arith, other, f) in
        let rest = find_entry-IsFound ip es j f in
        rw (sym next) (record {
          entry = rest.entry;
          at = rest.at;
          address = rest.address;
          bucket = rw other rest.bucket;
        })
  ]
]

pub bucket_of-set_found :
    (ip : Bytes) (es : List Entry) (i : ℕ) (e' : Entry)
    → find_entry ip es ≡ some i
    → e'.ip ≡ c_str ip
    → bucket_of (c_str ip) (set es i e') ≡ some e'
unfolding find_entry bucket_of
bucket_of-set_found ip [] i e' h same = cc
bucket_of-set_found ip (e ∷ es) i e' h same =
    let hit = (bytes_eq_iff e'.ip (c_str ip)).1 same in
    elim (Bool-cases (bytes_eq e.ip (c_str ip))) [
      | inl here ↦ let first : 0 ≡ i = ground (arith, here) in rw (sym first, hit) refl
      | inr other ↦ elim (Option-cases (find_entry ip es)) [
        | inl f ↦ absurd (ground (arith, other, f))
        | inr (j, f) ↦
            let next : suc j ≡ i = ground (arith, other, f) in
            rw (sym next, other) (bucket_of-set_found ip es j e' f same)
      ]
    ]

pub bucket_of-set_other :
    (s : Bytes) (es : List Entry) (i : ℕ) (e e' : Entry)
    → get_elem? es i ≡ some e
    → e'.ip ≡ e.ip
    → bytes_eq e.ip s ≡ false
    → bucket_of s (set es i e') ≡ bucket_of s es
unfolding bucket_of
bucket_of-set_other s [] i e e' at same other = refl
bucket_of-set_other s (x ∷ es) zero e e' at same other =
    let here : x ≡ e = cc in rw (here, same, other) refl
bucket_of-set_other s (x ∷ es) (suc i) e e' at same other =
    ap (λ r. if bytes_eq x.ip s then some x else r) (bucket_of-set_other s es i e e' at same other)

pub bucket_of-append_other :
    (s : Bytes) (es : List Entry) (e : Entry)
    → bytes_eq e.ip s ≡ false
    → bucket_of s (es ++ e ∷ []) ≡ bucket_of s es
unfolding bucket_of
bucket_of-append_other s [] e other = rw other refl
bucket_of-append_other s (x ∷ es) e other =
    ap (λ r. if bytes_eq x.ip s then some x else r) (bucket_of-append_other s es e other)

pub bucket_of-append_new :
    (s : Bytes) (es : List Entry) (e : Entry)
    → bucket_of s es ≡ none
    → bytes_eq e.ip s ≡ true
    → bucket_of s (es ++ e ∷ []) ≡ some e
unfolding bucket_of
bucket_of-append_new s [] e h same = rw same refl
bucket_of-append_new s (x ∷ es) e h same = elim (Bool-cases (bytes_eq x.ip s)) [
  | inl first ↦ absurd (ground (arith, first))
  | inr other ↦ rw other (bucket_of-append_new s es e (ground (arith, other)) same)
]
