-- ===== src/RateLimit/Table.antt =====
-- src/rate_limit.c: the table of buckets.
use nexus_gateway.Base.{
  All, All-append, All-get_elem?, All-set, Bool-cases, Bytes, Option, Option-cases, [], arith,
  c_str, get_elem?, inl, inr, leb, length, length-append, length-set, length-take, none, refl, some,
  true, ℕ, ◌*◌, ◌∷◌, ◌≡◌, ◌≤◌,
}
use nexus_gateway.RateLimit.{
  Entry, RateLimiter, check_entry, find_entry, find_or_create, new_entry, refill, rl_check, rl_max,
  take_token, token,
}

-- Each entry has at most a full bucket and an address that fits its field, and the table is not overrun.
pub record IsBounded (rl : RateLimiter) : Type 0 where
  pub full : All (λ e. (e.tokens ≤ rl.rate_per_sec * token) × (length e.ip ≤ 63)) rl.entries
  pub fits : length rl.entries ≤ rl_max

abbrev EntryFits : ℕ → Entry → Type 0
EntryFits rate e = (e.tokens ≤ rate * token) × (length e.ip ≤ 63)

take_token-EntryFits :
    (rate now : ℕ) (e : Entry) → length e.ip ≤ 63 → EntryFits rate (take_token rate now e).0
unfolding take_token refill
take_token-EntryFits rate now e h = ground arith

new_entry-EntryFits : (rate : ℕ) (ip : Bytes) (now : ℕ) → EntryFits rate (new_entry rate ip now)
unfolding new_entry
new_entry-EntryFits rate ip now = (omega arith, omega (arith, length-take 63 (c_str ip)))

find_or_create-IsBounded :
    (rl : RateLimiter) (ip : Bytes) (now : ℕ)
    → IsBounded rl
    → IsBounded (find_or_create rl ip now).0
      × ((find_or_create rl ip now).0.rate_per_sec ≡ rl.rate_per_sec)
unfolding find_or_create
find_or_create-IsBounded rl ip now b = elim (Option-cases (find_entry ip rl.entries)) [
  | inr (i, e) ↦ rw (e, find_or_create) (b, refl)
  | inl e ↦
      rw (e, find_or_create)
        (elim (Bool-cases (leb rl_max (length rl.entries))) [
          | inl full ↦ simp full (b, refl)
          | inr room ↦
              let new = new_entry rl.rate_per_sec ip now in
              simp room (
                record {
                  full =
                      All-append (EntryFits rl.rate_per_sec) rl.entries _ b.full
                        (new_entry-EntryFits rl.rate_per_sec ip now, tt);
                  fits = ground (arith, length-append rl.entries (new ∷ []));
                },
                refl,
              )
        ])
]

check_entry-IsBounded :
    (rl : RateLimiter) (i : Option ℕ) (now : ℕ) → IsBounded rl → IsBounded (check_entry rl i now).0
unfolding check_entry
check_entry-IsBounded rl none now b = b
check_entry-IsBounded rl (some i) now b = elim (Option-cases (get_elem? rl.entries i)) [
  | inl e ↦ rw (e, check_entry) b
  | inr (x, e) ↦
      let fits = All-get_elem? (EntryFits rl.rate_per_sec) rl.entries i b.full e in
      let x' = (take_token rl.rate_per_sec now x).0 in
      rw (e, check_entry)
        (record {
          full =
              All-set (EntryFits rl.rate_per_sec) rl.entries i x' b.full
                (take_token-EntryFits rl.rate_per_sec now x fits.1);
          fits = omega (arith, length-set rl.entries i x', b.fits);
        })
]

-- Every request keeps the table of the rate limiter inside its bounds, and no bucket above the
-- rate.
pub rl_check-IsBounded :
    (rl : RateLimiter) (ip : Bytes) (created now : ℕ)
    → IsBounded rl
    → IsBounded (rl_check rl ip created now).0
unfolding rl_check
rl_check-IsBounded rl ip created now b =
    check_entry-IsBounded _ (find_or_create rl ip created).1 now
      (find_or_create-IsBounded rl ip created b).0

-- An address that is new to a full table passes, and leaves no trace.
pub rl_check_full :
    (rl : RateLimiter) (ip : Bytes) (created now : ℕ)
    → find_entry ip rl.entries ≡ none
    → rl_max ≤ length rl.entries
    → rl_check rl ip created now ≡ (rl, true)
unfolding rl_check find_or_create check_entry
rl_check_full rl ip created now e full = ground (arith, e)
