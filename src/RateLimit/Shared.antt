-- ===== src/RateLimit/Shared.antt =====
-- src/rate_limit.c: one table for many clients. Every address has its own bucket.
use nexus_gateway.Base.{
  Bool, Bool-cases, Bytes, List, Option, Option-cases, [], ap, arith, bytes_eq, bytes_eq_iff, c_str,
  false, get_elem?, inl, inr, leb, length, length-take, none, refl, set, some, sym, take,
  take-length, ℕ, ◌++◌, ◌<◌, ◌∙◌, ◌∷◌, ◌≡◌, ◌≤◌,
}
use nexus_gateway.RateLimit.{
  Entry, RateLimiter, check_entry, find_entry, find_or_create, new_entry, rl_check, rl_max,
  take_token,
}
use nexus_gateway.RateLimit.View.{
  bucket_of, bucket_of-append_new, bucket_of-append_other, bucket_of-set_found, bucket_of-set_other,
  find_entry-IsFound, find_entry-none,
}

-- The bucket of an address, or the new one that its first request makes.
unfoldable pub bucket_or_new : ℕ → Bytes → ℕ → Option Entry → Entry
bucket_or_new rate ip created none = new_entry rate ip created
bucket_or_new rate ip created (some e) = e

-- The bucket that a request of the address takes from.
abbrev pub own : RateLimiter → Bytes → ℕ → Entry
own rl ip created = bucket_or_new rl.rate_per_sec ip created (bucket_of (c_str ip) rl.entries)

get_elem?-append_last :
    (es : List Entry) (e : Entry) → get_elem? (es ++ e ∷ []) (length es) ≡ some e
get_elem?-append_last [] e = refl
get_elem?-append_last (x ∷ es) e = get_elem?-append_last es e

set-append_last :
    (es : List Entry) (e e' : Entry) → set (es ++ e ∷ []) (length es) e' ≡ es ++ e' ∷ []
set-append_last [] e e' = refl
set-append_last (x ∷ es) e e' = ap (◌∷◌ x) (set-append_last es e e')

take_token-ip : (rate now : ℕ) (e : Entry) → (take_token rate now e).0.ip ≡ e.ip
unfolding take_token
take_token-ip rate now e = ground arith

find_or_create_found :
    (rl : RateLimiter) (ip : Bytes) (created i : ℕ)
    → find_entry ip rl.entries ≡ some i
    → find_or_create rl ip created ≡ (rl, some i)
unfolding find_or_create
find_or_create_found rl ip created i f = rw (f, find_or_create) refl

find_or_create_new :
    (rl : RateLimiter) (ip : Bytes) (created : ℕ)
    → find_entry ip rl.entries ≡ none
    → length rl.entries < rl_max
    → find_or_create rl ip created ≡ (
      record rl { entries = rl.entries ++ new_entry rl.rate_per_sec ip created ∷ [] },
      some (length rl.entries),
    )
unfolding find_or_create
find_or_create_new rl ip created f room =
    let has_room : leb rl_max (length rl.entries) ≡ false = ground arith in
    rw (f, find_or_create, has_room) refl

check_entry_at :
    (rl : RateLimiter) (i now : ℕ) (e : Entry)
    → get_elem? rl.entries i ≡ some e
    → check_entry rl (some i) now ≡ (
      record rl { entries = set rl.entries i (take_token rl.rate_per_sec now e).0 },
      (take_token rl.rate_per_sec now e).1,
    )
unfolding check_entry
check_entry_at rl i now e at = rw (at, check_entry) refl

-- A request of an address that is in the table.
pub rl_check_found :
    (rl : RateLimiter) (ip : Bytes) (created now i : ℕ) (e : Entry)
    → find_entry ip rl.entries ≡ some i
    → get_elem? rl.entries i ≡ some e
    → rl_check rl ip created now ≡ (
      record rl { entries = set rl.entries i (take_token rl.rate_per_sec now e).0 },
      (take_token rl.rate_per_sec now e).1,
    )
unfolding rl_check
rl_check_found rl ip created now i e f at =
    ap (λ (r : RateLimiter × Option ℕ). check_entry r.0 r.1 now)
      (find_or_create_found rl ip created i f)
    ∙ check_entry_at rl i now e at

-- A request of an address that is new to a table with room.
pub rl_check_new :
    (rl : RateLimiter) (ip : Bytes) (created now : ℕ)
    → find_entry ip rl.entries ≡ none
    → length rl.entries < rl_max
    → rl_check rl ip created now ≡ (
      record rl {
        entries =
            rl.entries
            ++ (take_token rl.rate_per_sec now (new_entry rl.rate_per_sec ip created)).0 ∷ [];
      },
      (take_token rl.rate_per_sec now (new_entry rl.rate_per_sec ip created)).1,
    )
unfolding rl_check
rl_check_new rl ip created now f room =
    let e = new_entry rl.rate_per_sec ip created in
    let e' = (take_token rl.rate_per_sec now e).0 in
    let grown = record rl { entries = rl.entries ++ e ∷ [] } in
    ap (λ (r : RateLimiter × Option ℕ). check_entry r.0 r.1 now)
      (find_or_create_new rl ip created f room)
    ∙ check_entry_at grown (length rl.entries) now e (get_elem?-append_last rl.entries e)
    ∙ ap (λ es. (record rl { entries = es }, (take_token rl.rate_per_sec now e).1))
        (set-append_last rl.entries e e')

-- What a request does to the bucket of its own address.
pub record TakesOwn (rl : RateLimiter) (ip : Bytes) (created now : ℕ) (r : RateLimiter × Bool)
    : Type 0 where
  pub bucket :
      bucket_of (c_str ip) r.0.entries ≡ some (take_token rl.rate_per_sec now (own rl ip created)).0
  pub passes : r.1 ≡ (take_token rl.rate_per_sec now (own rl ip created)).1

own_found :
    (rl : RateLimiter) (ip : Bytes) (created : ℕ) {e : Entry}
    → bucket_of (c_str ip) rl.entries ≡ some e
    → own rl ip created ≡ e
unfolding bucket_or_new
own_found rl ip created h = rw h refl

own_new :
    (rl : RateLimiter) (ip : Bytes) (created : ℕ)
    → bucket_of (c_str ip) rl.entries ≡ none
    → own rl ip created ≡ new_entry rl.rate_per_sec ip created
unfolding bucket_or_new
own_new rl ip created h = rw h refl

pub rl_check-TakesOwn :
    (rl : RateLimiter) (ip : Bytes) (created now : ℕ)
    → length rl.entries < rl_max
    → length (c_str ip) ≤ 63
    → TakesOwn rl ip created now (rl_check rl ip created now)
unfolding new_entry
rl_check-TakesOwn rl ip created now room short =
    let take_from = λ (e : Entry). take_token rl.rate_per_sec now e in
    elim (Option-cases (find_entry ip rl.entries)) [
      | inr (i, f) ↦
          let hit = find_entry-IsFound ip rl.entries i f in
          let e = hit.entry in
          let mine = sym (own_found rl ip created hit.bucket) in
          let address = take_token-ip rl.rate_per_sec now e ∙ hit.address in
          let r = rl_check_found rl ip created now i e f hit.at in
          record {
            bucket =
                ap (λ (x : RateLimiter × Bool). bucket_of (c_str ip) x.0.entries) r
                ∙ (bucket_of-set_found ip rl.entries i (take_from e).0 f address
                    ∙ ap (λ x. some (take_from x).0) mine);
            passes = ap (λ (x : RateLimiter × Bool). x.1) r ∙ ap (λ x. (take_from x).1) mine;
          }
      | inl f ↦
          let e = new_entry rl.rate_per_sec ip created in
          let bare = find_entry-none ip rl.entries f in
          let mine = sym (own_new rl ip created bare) in
          let address = take_token-ip rl.rate_per_sec now e ∙ take-length (c_str ip) 63 short in
          let r = rl_check_new rl ip created now f room in
          record {
            bucket =
                ap (λ (x : RateLimiter × Bool). bucket_of (c_str ip) x.0.entries) r
                ∙ (bucket_of-append_new (c_str ip) rl.entries (take_from e).0 bare
                      ((bytes_eq_iff (take_from e).0.ip (c_str ip)).1 address)
                    ∙ ap (λ x. some (take_from x).0) mine);
            passes = ap (λ (x : RateLimiter × Bool). x.1) r ∙ ap (λ x. (take_from x).1) mine;
          }
    ]

-- A cut address has 63 bytes, so it is no shorter one.
take-ne : (t s : Bytes) → length s < 63 → bytes_eq t s ≡ false → bytes_eq (take 63 t) s ≡ false
take-ne t s short other = elim (Bool-cases (bytes_eq (take 63 t) s)) [
  | inr e ↦ e
  | inl e ↦
      let same = (bytes_eq_iff (take 63 t) s).0 e in
      let size : length t ≤ 63 = omega (arith, length-take 63 t, ap length same) in
      let whole = sym (take-length t 63 size) ∙ same in
      absurd (ground (arith, other, (bytes_eq_iff t s).1 whole))
]

-- What it does to the bucket of another address.
pub rl_check_other :
    (rl : RateLimiter) (ip s : Bytes) (created now : ℕ)
    → length rl.entries < rl_max
    → length s < 63
    → bytes_eq (c_str ip) s ≡ false
    → bucket_of s (rl_check rl ip created now).0.entries ≡ bucket_of s rl.entries
unfolding new_entry
rl_check_other rl ip s created now room short other =
    elim (Option-cases (find_entry ip rl.entries)) [
      | inr (i, f) ↦
          let hit = find_entry-IsFound ip rl.entries i f in
          let e = hit.entry in
          rw (rl_check_found rl ip created now i e f hit.at) (
            bucket_of-set_other s rl.entries i e _ hit.at (take_token-ip rl.rate_per_sec now e)
              (ap (λ x. bytes_eq x s) hit.address ∙ other))
      | inl f ↦
          let e = new_entry rl.rate_per_sec ip created in
          rw (rl_check_new rl ip created now f room) (
            bucket_of-append_other s rl.entries (take_token rl.rate_per_sec now e).0 (
              ap (λ x. bytes_eq x s) (take_token-ip rl.rate_per_sec now e)
              ∙ take-ne (c_str ip) s short other))
    ]
