-- ===== src/RateLimit/Clients.antt =====
-- src/rate_limit.c: the requests of many clients in one table, and what each of them gets.
use nexus_gateway.Base.{
  Bool-cases, Bytes, List, Option, Option-cases, [], ap, ap₂, arith, bytes_eq, bytes_eq_iff, c_str,
  if◌then◌else◌, inl, inr, length, none, refl, some, subst, to_int, ℕ, ◌*◌, ◌+◌, ◌-◌, ◌<◌, ◌^◌, ◌∙◌,
  ◌∷◌, ◌≡◌, ◌≤◌,
}
use nexus_gateway.RateLimit.{
  Entry, RateLimiter, find_entry, new_entry, rl_check, rl_init, rl_max, take_token, token,
}
use nexus_gateway.RateLimit.Bucket.{elapsed_ms-ordered, take_token-last, take_token-pays, two_spans}
use nexus_gateway.RateLimit.Shared.{
  bucket_or_new, rl_check-TakesOwn, rl_check_found, rl_check_new, rl_check_other,
}
use nexus_gateway.RateLimit.View.{bucket_of, find_entry-IsFound}

-- A call of `nexus_rl_check`, with the clock's readings in `find_or_create` and behind it.
pub record Arrival : Type 0 where
  pub ip : Bytes
  pub created : ℕ
  pub now : ℕ

-- The requests of the address `s` that pass, over a sequence of calls.
unfoldable pub passes_of : Bytes → RateLimiter → List Arrival → ℕ
passes_of s rl [] = 0
passes_of s rl (r ∷ rs) =
    let (rl', passed) = rl_check rl r.ip r.created r.now in
    (if bytes_eq (c_str r.ip) s then to_int passed else 0) + passes_of s rl' rs

-- The same for a limiter of that address alone: its bucket, if it has one.
unfoldable pub alone : ℕ → Bytes → Option Entry → List Arrival → ℕ
alone rate s b [] = 0
alone rate s b (r ∷ rs) =
    let (e', passed) = take_token rate r.now (bucket_or_new rate r.ip r.created b) in
    let mine = to_int passed + alone rate s (some e') rs in
    let other = alone rate s b rs in if bytes_eq (c_str r.ip) s then mine else other

-- The table never fills up.
abbrev pub HasRoom : RateLimiter → List Arrival → Type 0
HasRoom rl [] = Unit
HasRoom rl (r ∷ rs) = (length rl.entries < rl_max) × HasRoom (rl_check rl r.ip r.created r.now).0 rs

rl_check-rate :
    (rl : RateLimiter) (ip : Bytes) (created now : ℕ)
    → length rl.entries < rl_max
    → (rl_check rl ip created now).0.rate_per_sec ≡ rl.rate_per_sec
rl_check-rate rl ip created now room = elim (Option-cases (find_entry ip rl.entries)) [
  | inl f ↦ rw (rl_check_new rl ip created now f room) refl
  | inr (i, f) ↦
      let known = find_entry-IsFound ip rl.entries i f in
      rw (rl_check_found rl ip created now i known.entry f known.at) refl
]

-- Over any sequence of requests of many clients in which the table never fills up, as many
-- requests of an address of fewer than 63 bytes pass as would if the limiter had that address
-- alone.
pub passes_of-alone :
    (s : Bytes) (rl : RateLimiter) (rs : List Arrival)
    → length s < 63
    → HasRoom rl rs
    → passes_of s rl rs ≡ alone rl.rate_per_sec s (bucket_of s rl.entries) rs
unfolding passes_of alone
passes_of-alone s rl [] short room = refl
passes_of-alone s rl (r ∷ rs) short room =
    let rl' = (rl_check rl r.ip r.created r.now).0 in
    let ih = passes_of-alone s rl' rs short room.1 in
    let rate = rl_check-rate rl r.ip r.created r.now room.0 in
    elim (Bool-cases (bytes_eq (c_str r.ip) s)) [
      | inl mine ↦
          let same = (bytes_eq_iff (c_str r.ip) s).0 mine in
          let fits : length (c_str r.ip) ≤ 63 = omega (arith, ap length same) in
          let takes = rl_check-TakesOwn rl r.ip r.created r.now room.0 fits in
          let k = rl.rate_per_sec in
          let served = λ (x : Bytes).
            take_token k r.now (bucket_or_new k r.ip r.created (bucket_of x rl.entries)) in
          let bucket = subst (λ x. bucket_of x rl'.entries ≡ some (served x).0) same takes.bucket in
          let passed =
            subst (λ x. (rl_check rl r.ip r.created r.now).1 ≡ (served x).1) same takes.passes in
          let rest =
            ih
            ∙ (ap (λ n. alone n s (bucket_of s rl'.entries) rs) rate
                ∙ ap (λ b. alone k s b rs) bucket) in
          rw mine (ap₂ (λ p n. to_int p + n) passed rest)
      | inr other ↦
          let kept = rl_check_other rl r.ip s r.created r.now room.0 short other in
          let rest =
            ih
            ∙ (ap (λ k. alone k s (bucket_of s rl'.entries) rs) rate
                ∙ ap (λ b. alone rl.rate_per_sec s b rs) kept) in
          rw other (omega (arith, rest))
    ]

-- The clock never goes back, and stays below 2 ^ 64.
abbrev pub IsTimed : ℕ → ℕ → List Arrival → Type 0
IsTimed t finish [] = t ≤ finish
IsTimed t finish (r ∷ rs) =
    (t ≤ r.created) × (r.created ≤ r.now) × (r.now < 2 ^ 64) × IsTimed r.now finish rs

timed-le : (t finish : ℕ) (rs : List Arrival) → IsTimed t finish rs → t ≤ finish
timed-le t finish [] h = h
timed-le t finish (r ∷ rs) h = omega (arith, timed-le r.now finish rs h.3)

alone_pays :
    (rate : ℕ) (s : Bytes) (e : Entry) (rs : List Arrival) (t finish : ℕ)
    → e.last_refill_ms ≤ t
    → IsTimed t finish rs
    → alone rate s (some e) rs * token ≤ e.tokens + (finish - e.last_refill_ms) * rate
unfolding alone bucket_or_new
alone_pays rate s e [] t finish old h = omega arith
alone_pays rate s e (r ∷ rs) t finish old h = elim (Bool-cases (bytes_eq (c_str r.ip) s)) [
  | inr other ↦ rw other (alone_pays rate s e rs r.now finish (omega (arith, old, h.0, h.1)) h.3)
  | inl mine ↦
      let e' = (take_token rate r.now e).0 in
      let stamp = take_token-last rate r.now e in
      let last : e.last_refill_ms ≤ r.now = omega (arith, old, h.0, h.1) in
      let paid =
        rw (elapsed_ms-ordered r.now e.last_refill_ms last h.2) at (take_token-pays rate r.now e) in
      let later = rw stamp at (alone_pays rate s e' rs r.now finish (omega (arith, stamp)) h.3) in
      let spans =
        two_spans e.last_refill_ms r.now finish rate last (timed-le r.now finish rs h.3) in
      rw mine (omega (arith, paid, later, spans))
]

-- A later start leaves less time.
longer_span : (c a b r : ℕ) → a ≤ b → (c - b) * r ≤ (c - a) * r
longer_span c a b r h = grind arith

-- The same from no bucket: the first request makes a full one.
alone_bound :
    (rate : ℕ) (s : Bytes) (rs : List Arrival) (t finish : ℕ)
    → IsTimed t finish rs
    → alone rate s none rs * token ≤ rate * token + (finish - t) * rate
unfolding alone bucket_or_new new_entry
alone_bound rate s [] t finish h = omega arith
alone_bound rate s (r ∷ rs) t finish h = elim (Bool-cases (bytes_eq (c_str r.ip) s)) [
  | inr other ↦
      let ih = alone_bound rate s rs r.now finish h.3 in
      rw other (omega (arith, ih, longer_span finish t r.now rate (omega (arith, h.0, h.1))))
  | inl mine ↦
      let e = new_entry rate r.ip r.created in
      let paid =
        alone_pays rate s e (r ∷ rs) r.created finish (omega arith) (omega arith, h.1, h.2, h.3) in
      rw mine (omega (arith, rw mine at paid, longer_span finish t r.created rate h.0))
]

-- Over any sequence of requests of many clients at a new limiter, in which the table never fills
-- up and the clock never goes back and stays below 2 ^ 64, at most rate + rate * seconds requests
-- of an address of fewer than 63 bytes pass, where seconds is the time that the requests span.
pub passes_of-bound :
    (rate : ℕ) (s : Bytes) (rs : List Arrival) (t finish : ℕ)
    → length s < 63
    → HasRoom (rl_init rate) rs
    → IsTimed t finish rs
    → passes_of s (rl_init rate) rs * token ≤ rate * token + (finish - t) * rate
unfolding bucket_of
passes_of-bound rate s rs t finish short room timed =
    let same = passes_of-alone s (rl_init rate) rs short room in
    omega (arith, ap (λ n. n * token) same, alone_bound rate s rs t finish timed)
