-- ===== src/RateLimit.antt =====
-- src/rate_limit.c: a token bucket for each client address. `tokens` is a double in the source; here
-- it is counted exactly, in thousandths of a token, so that `elapsed / 1000.0 * rate` is a whole
-- number. The rate is not negative. The readings of the clock are arguments.
pub mod Bucket
pub mod Table
pub mod View
pub mod Shared
pub mod Clients
use mathlib.Core.Option
use nexus_gateway.Base.{
  Bool, Bytes, List, Option, [], bytes_eq, c_str, false, get_elem?, if◌then◌else◌, leb, length, ltb,
  none, set, some, suc, take, true, ℕ, ◌%◌, ◌*◌, ◌++◌, ◌+◌, ◌-◌, ◌^◌, ◌∷◌,
}

-- RL_MAX
abbrev pub rl_max : ℕ
rl_max = 1024

-- One token.
abbrev pub token : ℕ
token = 1000

-- `rl_entry_t`
pub record Entry : Type 0 where
  pub ip : Bytes
  pub tokens : ℕ
  pub last_refill_ms : ℕ

-- `nexus_rate_limiter_t`; `count` is the length of `entries`.
pub record RateLimiter : Type 0 where
  pub entries : List Entry
  pub rate_per_sec : ℕ

-- `nexus_rl_init`
abbrev pub rl_init : ℕ → RateLimiter
rl_init rate = record { entries = []; rate_per_sec = rate }

-- The loop of `find_or_create`: the index of the first entry of the address.
unfoldable pub find_entry : Bytes → List Entry → Option ℕ
find_entry ip [] = none
find_entry ip (e ∷ es) =
    if bytes_eq e.ip (c_str ip) then some 0 else Option.map suc (find_entry ip es)

-- The entry that `find_or_create` makes: at most 63 bytes of the address, and a full bucket.
unfoldable pub new_entry : ℕ → Bytes → ℕ → Entry
new_entry rate ip now = record {
  ip = take 63 (c_str ip);
  tokens = rate * token;
  last_refill_ms = now;
}

-- `find_or_create`: the table, and the index of the entry if there is room for it.
unfoldable pub find_or_create : RateLimiter → Bytes → ℕ → RateLimiter × Option ℕ
find_or_create rl ip now = elim (find_entry ip rl.entries) [
  | some i ↦ (rl, some i)
  | none ↦ if leb rl_max (length rl.entries) then (rl, none) else (
    record rl { entries = rl.entries ++ new_entry rl.rate_per_sec ip now ∷ [] },
    some (length rl.entries),
  )
]

-- `now - e->last_refill_ms`, on `uint64_t`.
unfoldable pub elapsed_ms : ℕ → ℕ → ℕ
elapsed_ms now last = (now + 2 ^ 64 - last) % 2 ^ 64

-- The bucket after the refill, at most `rate` tokens.
unfoldable pub refill : ℕ → ℕ → Entry → ℕ
refill rate now e =
    let filled = e.tokens + elapsed_ms now e.last_refill_ms * rate in
    if ltb (rate * token) filled then rate * token else filled

-- The part of `nexus_rl_check` behind `find_or_create`: the entry, and whether the request may pass.
unfoldable pub take_token : ℕ → ℕ → Entry → Entry × Bool
take_token rate now e =
    let filled = refill rate now e in
    if leb token filled
    then (record e { tokens = filled - token; last_refill_ms = now }, true)
    else (record e { tokens = filled; last_refill_ms = now }, false)

unfoldable pub check_entry : RateLimiter → Option ℕ → ℕ → RateLimiter × Bool
check_entry rl none now = (rl, true)
check_entry rl (some i) now = elim (get_elem? rl.entries i) [
  | none ↦ (rl, true)
  | some e ↦
      let (e', passed) = take_token rl.rate_per_sec now e in
      (record rl { entries = set rl.entries i e' }, passed)
]

-- `nexus_rl_check`, with the clock's reading in `find_or_create` and the one behind it.
unfoldable pub rl_check : RateLimiter → Bytes → ℕ → ℕ → RateLimiter × Bool
rl_check rl ip created now = let (rl', i) = find_or_create rl ip created in check_entry rl' i now
