-- ===== src/RateLimit/Bucket.antt =====
-- src/rate_limit.c: one bucket over a sequence of requests.
use nexus_gateway.Base.{List, [], arith, to_int, true, ℕ, ◌*◌, ◌+◌, ◌-◌, ◌<◌, ◌^◌, ◌∷◌, ◌≡◌, ◌≤◌}
use nexus_gateway.RateLimit.{Entry, elapsed_ms, refill, take_token, token}

-- Requests at these times, in order: the entry they leave, and how many may pass.
unfoldable pub run_bucket : ℕ → Entry → List ℕ → Entry × ℕ
run_bucket rate e [] = (e, 0)
run_bucket rate e (now ∷ times) =
    let (e', passed) = take_token rate now e in
    let (last, n) = run_bucket rate e' times in (last, to_int passed + n)

-- The clock never goes back, and stays below 2 ^ 64.
abbrev pub IsOrdered : ℕ → List ℕ → Type 0
IsOrdered last [] = Unit
IsOrdered last (now ∷ times) = (last ≤ now) × (now < 2 ^ 64) × IsOrdered now times

pub elapsed_ms-ordered :
    (now last : ℕ) → last ≤ now → now < 2 ^ 64 → elapsed_ms now last ≡ now - last
unfolding elapsed_ms
elapsed_ms-ordered now last h k = omega arith

pub take_token-last : (rate now : ℕ) (e : Entry) → (take_token rate now e).0.last_refill_ms ≡ now
unfolding take_token
take_token-last rate now e = ground arith

-- What one request pays for: a token, out of what was there and what was refilled.
pub take_token-pays :
    (rate now : ℕ) (e : Entry)
    → (take_token rate now e).0.tokens + to_int (take_token rate now e).1 * token
      ≤ e.tokens + elapsed_ms now e.last_refill_ms * rate
unfolding take_token refill
take_token-pays rate now e = ground arith

pub take_token-le : (rate now : ℕ) (e : Entry) → (take_token rate now e).0.tokens ≤ rate * token
unfolding take_token refill
take_token-le rate now e = ground arith

run_bucket-last :
    (rate : ℕ) (e : Entry) (times : List ℕ)
    → IsOrdered e.last_refill_ms times
    → e.last_refill_ms ≤ (run_bucket rate e times).0.last_refill_ms
unfolding run_bucket
run_bucket-last rate e [] o = omega arith
run_bucket-last rate e (now ∷ times) o =
    let e' = (take_token rate now e).0 in
    let stamp = take_token-last rate now e in
    let later = run_bucket-last rate e' times (rw stamp o.2) in omega (arith, later, stamp, o.0)

pub two_spans : (a b c r : ℕ) → a ≤ b → b ≤ c → (b - a) * r + (c - b) * r ≡ (c - a) * r
two_spans a b c r h k = let e : c - a ≡ (b - a) + (c - b) = omega arith in rw e (omega arith)

-- From a bucket, over any sequence of requests, what passes is paid by the tokens in the bucket and
-- by the time that goes by.
pub run_bucket-pays :
    (rate : ℕ) (e : Entry) (times : List ℕ)
    → IsOrdered e.last_refill_ms times
    → (run_bucket rate e times).0.tokens + (run_bucket rate e times).1 * token
      ≤ e.tokens + ((run_bucket rate e times).0.last_refill_ms - e.last_refill_ms) * rate
unfolding run_bucket
run_bucket-pays rate e [] o = omega arith
run_bucket-pays rate e (now ∷ times) o =
    let (e', passed) = take_token rate now e in
    let (last, n) = run_bucket rate e' times in
    let stamp = take_token-last rate now e in
    let o' : IsOrdered (take_token rate now e).0.last_refill_ms times = rw stamp o.2 in
    let spans =
      two_spans e.last_refill_ms now last.last_refill_ms rate o.0
        (omega (arith, run_bucket-last rate e' times o', stamp)) in
    let later = rw stamp at (run_bucket-pays rate e' times o') in
    let first =
      rw (elapsed_ms-ordered now e.last_refill_ms o.0 o.1) at (take_token-pays rate now e) in
    omega (arith, later, first, spans)

-- With a positive rate, a request passes that comes 1000 / rate milliseconds or more after the
-- last refill.
pub take_token-refilled :
    (rate now : ℕ) (e : Entry)
    → 0 < rate
    → token ≤ elapsed_ms now e.last_refill_ms * rate
    → (take_token rate now e).1 ≡ true
unfolding take_token refill
take_token-refilled rate now e h k = ground arith

-- Over any sequence of requests from one address that has at most a full bucket, with a clock
-- that never goes back and stays below 2 ^ 64, at most rate + rate * seconds pass, where seconds
-- is the time from the last refill to the last request.
pub run_bucket-bound :
    (rate : ℕ) (e : Entry) (times : List ℕ)
    → e.tokens ≤ rate * token
    → IsOrdered e.last_refill_ms times
    → (run_bucket rate e times).1 * token
      ≤ rate * token + ((run_bucket rate e times).0.last_refill_ms - e.last_refill_ms) * rate
run_bucket-bound rate e times full o = omega (arith, run_bucket-pays rate e times o)
