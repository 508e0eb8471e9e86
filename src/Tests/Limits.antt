-- ===== src/Tests/Limits.antt =====
-- src/rate_limit.c, src/blacklist.c and src/connection.c at concrete inputs.
use nexus_gateway.Base.{
  List, [], arith, bytes_eq, c_str, codes, none, refl, some, true, ◌*◌, ◌+◌, ◌-◌, ◌∷◌, ◌≡◌, ◌≤◌,
}
use nexus_gateway.Blacklist.{add_all, bl_add, bl_check, load_blacklist, tokens_loop}
use nexus_gateway.RateLimit.{
  Entry, RateLimiter, check_entry, elapsed_ms, find_entry, find_or_create, new_entry, refill,
  rl_check, rl_init, take_token, token,
}
use nexus_gateway.RateLimit.Bucket.{run_bucket}
use nexus_gateway.RateLimit.Clients.{
  Arrival, HasRoom, alone, passes_of, passes_of-alone, passes_of-bound,
}
use nexus_gateway.RateLimit.Table.{IsBounded, rl_check-IsBounded}
use nexus_gateway.RateLimit.View.{bucket_of}

-- A full bucket of two tokens.
abbrev full_entry : Entry
full_entry = record { ip = codes "10.0.0.1"; tokens = 2 * token; last_refill_ms = 1000 }

-- Two pass, the third does not; half a second later one more does.
run_bucket_test : (run_bucket 2 full_entry (1000 ∷ 1000 ∷ 1000 ∷ 1500 ∷ [])).1 ≡ 3
unfolding run_bucket take_token refill elapsed_ms
run_bucket_test = refl

abbrev limiter : RateLimiter
limiter = record { entries = full_entry ∷ []; rate_per_sec = 2 }

limiter-IsBounded : IsBounded limiter
limiter-IsBounded = record { full = omega arith; fits = omega arith }

rl_check-IsBounded_example : IsBounded (rl_check limiter (codes "10.0.0.2") 1000 1001).0
rl_check-IsBounded_example =
    rl_check-IsBounded limiter (codes "10.0.0.2") 1000 1001 limiter-IsBounded

load_blacklist_test :
    bl_check (load_blacklist (some (codes "10.0.0.1, 10.0.0.2"))) (codes "10.0.0.2") ≡ true
unfolding load_blacklist tokens_loop add_all bl_add bl_check c_str bytes_eq
load_blacklist_test = refl

-- Two clients take turns at a limiter of one request per second; the first is back half a second
-- later, and again after that.
abbrev in_turns : List Arrival
in_turns =
    record { ip = codes "10.0.0.1"; created = 1000; now = 1000 }
    ∷ record { ip = codes "10.0.0.2"; created = 1000; now = 1000 }
    ∷ record { ip = codes "10.0.0.1"; created = 1500; now = 1500 }
    ∷ record { ip = codes "10.0.0.1"; created = 2000; now = 2000 }
    ∷ []

in_turns-HasRoom : HasRoom (rl_init 1) in_turns
unfolding rl_check find_or_create find_entry check_entry take_token refill elapsed_ms bytes_eq c_str
    new_entry
in_turns-HasRoom = (omega arith, (omega arith, (omega arith, (omega arith, tt))))

passes_of-alone_example :
    passes_of (codes "10.0.0.1") (rl_init 1) in_turns ≡ alone 1 (codes "10.0.0.1") none in_turns
unfolding bucket_of
passes_of-alone_example =
    passes_of-alone (codes "10.0.0.1") (rl_init 1) in_turns (omega arith) in_turns-HasRoom

passes_of-bound_example :
    passes_of (codes "10.0.0.1") (rl_init 1) in_turns * token ≤ 1 * token + (2000 - 1000) * 1
passes_of-bound_example =
    passes_of-bound 1 (codes "10.0.0.1") in_turns 1000 2000 (omega arith) in_turns-HasRoom
      (omega arith)
