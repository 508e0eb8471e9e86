-- ===== src/Log/Lines.antt =====
-- src/log.c: how many lines an entry of the access log makes.
use nexus_gateway.Base.{
  Bytes, List, Option, [], arith, if◌then◌else◌, none, refl, some, suc, zero, ℕ, ◌%◌, ◌++◌, ◌+◌,
  ◌/◌, ◌==◌, ◌∷◌, ◌≡◌,
}
use nexus_gateway.Log.{
  AccessLine, Logs, access_parts, concat_parts, log_access_full, or_dash, print_to,
}
use nexus_gateway.Util.Decimal.{decimal, decimal_loop}

-- The ends of lines in a text.
unfoldable pub line_ends : Bytes → ℕ
line_ends [] = 0
line_ends (c ∷ cs) = (if c == b'\n' then 1 else 0) + line_ends cs

-- Those of a file.
unfoldable pub file_lines : Option Bytes → ℕ
file_lines none = 0
file_lines (some s) = line_ends s

line_ends-append : (a b : Bytes) → line_ends (a ++ b) ≡ line_ends a + line_ends b
unfolding line_ends
line_ends-append [] b = omega arith
line_ends-append (c ∷ a) b = omega (arith, line_ends-append a b)

-- Those of the parts.
part_ends : List Bytes → ℕ
part_ends [] = 0
part_ends (s ∷ ss) = line_ends s + part_ends ss

line_ends-concat_parts : (ss : List Bytes) → line_ends (concat_parts ss) ≡ part_ends ss
unfolding concat_parts line_ends part_ends
line_ends-concat_parts [] = refl
line_ends-concat_parts (s ∷ ss) =
    omega (arith, line_ends-append s (concat_parts ss), line_ends-concat_parts ss)

line_ends-decimal_loop :
    (fuel n : ℕ) (acc : Bytes) → line_ends (decimal_loop fuel n acc) ≡ line_ends acc
unfolding decimal_loop line_ends
line_ends-decimal_loop zero n acc = ground arith
line_ends-decimal_loop (suc fuel) n acc =
    ground (arith, line_ends-decimal_loop fuel (n / 10) ((48 + n % 10) ∷ acc))

line_ends-decimal : (n : ℕ) → line_ends (decimal n) ≡ 0
unfolding decimal line_ends
line_ends-decimal n = line_ends-decimal_loop n n []

-- The ends of lines that the texts of a request bring in.
abbrev pub text_ends : AccessLine → ℕ
text_ends a =
    line_ends (or_dash a.ip)
    + line_ends (or_dash a.method)
    + line_ends (or_dash a.path)
    + line_ends (or_dash a.version)
    + line_ends (or_dash a.user_agent)
    + line_ends (or_dash a.id)
    + line_ends (or_dash a.upstream_addr)

-- With an open access log, and no end of line in the texts of the time and the duration, an entry
-- adds one line and one more for every end of line in the texts that the request brings in.
pub log_access_full-lines :
    (l : Logs) (ts : Bytes) (a : AccessLine) {written : Bytes}
    → l.access_log ≡ some written
    → line_ends ts ≡ 0
    → line_ends a.duration ≡ 0
    → file_lines (log_access_full l ts a).access_log ≡ line_ends written + 1 + text_ends a
unfolding log_access_full print_to file_lines access_parts part_ends line_ends
log_access_full-lines l ts a {written} e t d =
    let parts = access_parts a ts in
    rw e (
      omega (
        arith,
        line_ends-append written (concat_parts parts),
        line_ends-concat_parts parts,
        line_ends-decimal a.port,
        line_ends-decimal a.status,
        line_ends-decimal a.bytes_sent,
        t,
        d,
      ))
