-- ===== src/Rewrite/Script.antt =====
-- src/http_rewrite.c: a sequence of `nexus_headers_set`, as what the next hop reads under a name.
use nexus_gateway.Base.{
  Bool-cases, Bytes, List, Option, Option-cases, [], ap, arith, bytes_eq, c_str, false,
  if◌then◌else◌, inl, inr, length, length-append, ltb, ltb→lt, none, refl, some, true, ◌+◌, ◌∙◌,
  ◌∷◌, ◌≡◌, ◌≤◌, ◌⊎◌,
}
use nexus_gateway.Headers.{
  Headers, header_max, headers_add, headers_remove, headers_set, lower_name, new_header,
  remove_loop,
}
use nexus_gateway.Headers.View.{
  IsValid, headers_set-IsValid, length-remove_loop, values_of, values_of-headers_set,
  values_of-headers_set_full,
}
use nexus_gateway.Rewrite.{add_custom, set_header}
use nexus_gateway.Util.{hash_fnv1a}

-- The last value that the sequence writes under the name `m`.
unfoldable pub last_value : Bytes → List (Bytes × Bytes) → Option Bytes
last_value m [] = none
last_value m ((name, value) ∷ s) = elim (last_value m s) [
  | some v ↦ some v
  | none ↦ if bytes_eq m (lower_name name) then some value else none
]

-- `before`, overlaid with a value.
abbrev pub overlay : Option Bytes → List Bytes → List Bytes
overlay none before = before
overlay (some v) before = c_str v ∷ []

pub length-set_header :
    (h : Headers) (name value : Bytes) → length (set_header h name value) ≤ length h + 1
unfolding headers_set headers_add headers_remove
length-set_header h name value =
    let target = hash_fnv1a (lower_name name) in
    let kept = remove_loop target (lower_name name) h in
    ground (
      arith,
      length-remove_loop target (lower_name name) h,
      length-append kept (new_header (c_str name) (c_str value) ∷ []),
    )

pub length-headers_remove : (h : Headers) (name : Bytes) → length (headers_remove h name) ≤ length h
unfolding headers_remove
length-headers_remove h name = length-remove_loop _ _ h

pub add_custom-IsValid :
    (s : List (Bytes × Bytes)) (h : Headers) → IsValid h → IsValid (add_custom h s)
unfolding add_custom
add_custom-IsValid [] h v = v
add_custom-IsValid ((name, value) ∷ s) h v =
    add_custom-IsValid s (set_header h name value) (headers_set-IsValid h name value v)

-- With room for every write, the table shows the last value written, or what stood there before.
pub values_of-add_custom :
    (m : Bytes) (s : List (Bytes × Bytes)) (h : Headers)
    → IsValid h
    → length h + length s ≤ header_max
    → values_of m (add_custom h s) ≡ overlay (last_value m s) (values_of m h)
unfolding add_custom last_value
values_of-add_custom m [] h v room = refl
values_of-add_custom m ((name, value) ∷ s) h v room =
    let h' = set_header h name value in
    let ih =
      values_of-add_custom m s h' (headers_set-IsValid h name value v)
        (omega (arith, length-set_header h name value)) in
    let now =
      values_of-headers_set m name value h v (omega (arith, length-headers_remove h name)) in
    ground (arith, ih, now)

-- Nothing, or the one value.
abbrev pub OnlyValue : Bytes → Bytes → Headers → Type 0
OnlyValue m v h = (values_of m h ≡ []) ⊎ (values_of m h ≡ v ∷ [])

set_header-other :
    (m name value : Bytes) (h : Headers)
    → IsValid h
    → bytes_eq m (lower_name name) ≡ false
    → values_of m (set_header h name value) ≡ values_of m h
set_header-other m name value h v e =
    elim (Bool-cases (ltb (length (headers_remove h name)) header_max)) [
      | inl room ↦ values_of-headers_set m name value h v (ltb→lt _ _ room) ∙ rw e
      | inr full ↦ (values_of-headers_set_full m name value h v (ground arith)).1 ∙ rw e
    ]

set_header-same :
    (m name value : Bytes) (h : Headers)
    → IsValid h
    → bytes_eq m (lower_name name) ≡ true
    → OnlyValue m (c_str value) (set_header h name value)
set_header-same m name value h v e =
    elim (Bool-cases (ltb (length (headers_remove h name)) header_max)) [
      | inl room ↦ inr (values_of-headers_set m name value h v (ltb→lt _ _ room) ∙ rw e)
      | inr full ↦ inl ((values_of-headers_set_full m name value h v (ground arith)).1 ∙ rw e)
    ]

-- A name that the sequence does not write keeps its values, with room or without.
pub values_of-add_custom-none :
    (m : Bytes) (s : List (Bytes × Bytes)) (h : Headers)
    → IsValid h
    → last_value m s ≡ none
    → values_of m (add_custom h s) ≡ values_of m h
unfolding add_custom last_value
values_of-add_custom-none m [] h v e = refl
values_of-add_custom-none m ((name, value) ∷ s) h v e =
    let h' = set_header h name value in
    let later : last_value m s ≡ none = ground arith in
    let other : bytes_eq m (lower_name name) ≡ false = ground arith in
    values_of-add_custom-none m s h' (headers_set-IsValid h name value v) later
    ∙ set_header-other m name value h v other

-- With room or without: a name that the sequence last writes with `w` shows that value, or nothing.
pub OnlyValue-add_custom :
    (m w : Bytes) (s : List (Bytes × Bytes)) (h : Headers)
    → IsValid h
    → last_value m s ≡ some w
    → OnlyValue m (c_str w) (add_custom h s)
unfolding add_custom last_value
OnlyValue-add_custom m w [] h v e = cc
OnlyValue-add_custom m w ((name, value) ∷ s) h v e =
    let h' = set_header h name value in
    let v' = headers_set-IsValid h name value v in
    elim (Option-cases (last_value m s)) [
      | inr (w', later) ↦
          let same : w' ≡ w = ground arith in
          OnlyValue-add_custom m w s h' v' (later ∙ ap some same)
      | inl none_later ↦
          let hit : bytes_eq m (lower_name name) ≡ true = ground arith in
          let same : value ≡ w = ground (arith, hit) in
          rw (values_of-add_custom-none m s h' v' none_later, ← same)
            (set_header-same m name value h v hit)
    ]
