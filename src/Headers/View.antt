-- ===== src/Headers/View.antt =====
-- src/http_header.c: the header table as what the next hop reads: for each name, the values sent under
-- it, in order.
use mathlib.Core.List.{append-nil}
use nexus_gateway.Base.{
  All, All-append, Bool-cases, Bytes, List, NoNul, [], ap, arith, bytes_eq, bytes_eq_iff, c_str,
  c_str-NoNul, c_str-c_str, c_str-id, false, if◌then◌else◌, inl, inr, leb, length, length-append,
  refl, sym, ℕ, ◌++◌, ◌<◌, ◌∙◌, ◌∷◌, ◌≡◌, ◌≤◌,
}
use nexus_gateway.Headers.{
  Header, Headers, header_max, headers_add, headers_remove, headers_set, lower_name, matches,
  new_header, remove_loop,
}
use nexus_gateway.Util.{NoNul-normalize_lower, hash_fnv1a, normalize_lower, normalize_lower_idem}

-- The values that are sent under the name `m`.
unfoldable pub values_of : Bytes → Headers → List Bytes
values_of m [] = []
values_of m (e ∷ h) =
    let rest = values_of m h in if bytes_eq (c_str e.name) m then c_str e.value ∷ rest else rest

-- An entry as `nexus_headers_add` writes it from a name that holds no zero byte.
pub record IsEntry (e : Header) : Type 0 where
  pub hashed : e.hash ≡ hash_fnv1a e.name
  pub lower : normalize_lower e.name ≡ e.name
  pub clean : NoNul e.name

pub record IsValid (h : Headers) : Type 0 where
  pub entries : All IsEntry h
  pub fits : length h ≤ header_max

pub new_header-IsEntry : (name value : Bytes) → NoNul name → IsEntry (new_header name value)
unfolding new_header
new_header-IsEntry name value clean = record {
  hashed = refl;
  lower = normalize_lower_idem name;
  clean = NoNul-normalize_lower name clean;
}

pub headers_add-IsValid :
    (h : Headers) (name value : Bytes)
    → NoNul name
    → IsValid h
    → IsValid (headers_add h name value).0
unfolding headers_add
headers_add-IsValid h name value clean v = elim (Bool-cases (leb header_max (length h))) [
  | inl full ↦ rw full v
  | inr room ↦ rw room (record {
    entries = All-append IsEntry h _ v.entries (new_header-IsEntry name value clean, tt);
    fits = ground (arith, length-append h (new_header name value ∷ []));
  })
]

remove_loop-entries :
    (target : ℕ) (lower : Bytes) (h : Headers)
    → All IsEntry h
    → All IsEntry (remove_loop target lower h)
unfolding remove_loop
remove_loop-entries target lower [] v = tt
remove_loop-entries target lower (e ∷ h) v = elim (Bool-cases (matches target lower e)) [
  | inl hit ↦ rw hit (remove_loop-entries target lower h v.1)
  | inr miss ↦ rw miss (v.0, remove_loop-entries target lower h v.1)
]

pub length-remove_loop :
    (target : ℕ) (lower : Bytes) (h : Headers) → length (remove_loop target lower h) ≤ length h
unfolding remove_loop
length-remove_loop target lower [] = omega arith
length-remove_loop target lower (e ∷ h) = ground (arith, length-remove_loop target lower h)

pub headers_remove-IsValid :
    (h : Headers) (name : Bytes) → IsValid h → IsValid (headers_remove h name)
unfolding headers_remove
headers_remove-IsValid h name v = record {
  entries = remove_loop-entries _ _ h v.entries;
  fits =
      let target = hash_fnv1a (lower_name name) in
      omega (arith, length-remove_loop target (lower_name name) h, v.fits);
}

pub headers_set-IsValid :
    (h : Headers) (name value : Bytes) → IsValid h → IsValid (headers_set h name value).0
unfolding headers_set
headers_set-IsValid h name value v =
    headers_add-IsValid _ _ _ (c_str-NoNul name) (headers_remove-IsValid h name v)

-- Of a valid entry the test of `nexus_headers_remove` reads the name alone.
matches-bytes_eq :
    (lower : Bytes) (e : Header)
    → IsEntry e
    → matches (hash_fnv1a lower) lower e ≡ bytes_eq (c_str e.name) lower
unfolding matches
matches-bytes_eq lower e v = elim (Bool-cases (bytes_eq (c_str e.name) lower)) [
  | inl same ↦
      let named : e.name ≡ lower =
        sym (c_str-id e.name v.clean) ∙ (bytes_eq_iff (c_str e.name) lower).0 same in
      ground (arith, v.hashed, ap hash_fnv1a named)
  | inr other ↦ ground arith
]

values_of-remove_loop :
    (m lower : Bytes) (h : Headers)
    → All IsEntry h
    → values_of m (remove_loop (hash_fnv1a lower) lower h)
      ≡ (if bytes_eq m lower then [] else values_of m h)
unfolding values_of remove_loop
values_of-remove_loop m lower [] v = ground arith
values_of-remove_loop m lower (e ∷ h) v = ground (
  arith,
  matches-bytes_eq lower e v.0,
  bytes_eq_iff (c_str e.name) lower,
  bytes_eq_iff (c_str e.name) m,
  bytes_eq_iff m lower,
  values_of-remove_loop m lower h v.1,
)

-- In a valid table, removing a name drops every value sent under it, and no other.
pub values_of-headers_remove :
    (m name : Bytes) (h : Headers)
    → IsValid h
    → values_of m (headers_remove h name)
      ≡ (if bytes_eq m (lower_name name) then [] else values_of m h)
unfolding headers_remove
values_of-headers_remove m name h v = values_of-remove_loop m (lower_name name) h v.entries

values_of-append :
    (m : Bytes) (h k : Headers) → values_of m (h ++ k) ≡ values_of m h ++ values_of m k
unfolding values_of
values_of-append m [] k = refl
values_of-append m (e ∷ h) k = ground (arith, values_of-append m h k)

values_of-new_header :
    (m name value : Bytes)
    → NoNul name
    → values_of m (new_header name value ∷ [])
      ≡ (if bytes_eq m (normalize_lower name) then c_str value ∷ [] else [])
unfolding values_of new_header
values_of-new_header m name value clean = ground (
  arith,
  c_str-id (normalize_lower name) (NoNul-normalize_lower name clean),
  bytes_eq_iff (c_str (normalize_lower name)) m,
  bytes_eq_iff m (normalize_lower name),
)

-- An addition that finds room puts the value behind those of its name, and touches no other name.
pub values_of-headers_add :
    (m name value : Bytes) (h : Headers)
    → NoNul name
    → length h < header_max
    → values_of m (headers_add h name value).0 ≡ (
        if bytes_eq m (normalize_lower name)
        then values_of m h ++ c_str value ∷ []
        else values_of m h)
unfolding headers_add
values_of-headers_add m name value h clean room = ground (
  arith,
  values_of-append m h (new_header name value ∷ []),
  values_of-new_header m name value clean,
  append-nil (values_of m h),
)

-- In a valid table, setting a name that finds room makes the value the only one of its name, and
-- touches no other.
pub values_of-headers_set :
    (m name value : Bytes) (h : Headers)
    → IsValid h
    → length (headers_remove h name) < header_max
    → values_of m (headers_set h name value).0
      ≡ (if bytes_eq m (lower_name name) then c_str value ∷ [] else values_of m h)
unfolding headers_set
values_of-headers_set m name value h v room = ground (
  arith,
  values_of-headers_add m (c_str name) (c_str value) (headers_remove h name) (c_str-NoNul name)
      room,
  values_of-headers_remove m name h v,
  c_str-c_str value,
)

-- A set that finds no room still drops the old values of its name.
pub values_of-headers_set_full :
    (m name value : Bytes) (h : Headers)
    → IsValid h
    → header_max ≤ length (headers_remove h name)
    → ((headers_set h name value).1 ≡ false)
      × (values_of m (headers_set h name value).0
          ≡ (if bytes_eq m (lower_name name) then [] else values_of m h))
unfolding headers_set headers_add
values_of-headers_set_full m name value h v full =
    ground (arith, values_of-headers_remove m name h v)
