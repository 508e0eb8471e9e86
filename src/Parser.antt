-- ===== src/Parser.antt =====
-- src/http_parser.c: the request parser, fed with the bytes of one read. `nexus_http_req_t` is
-- `Request`; `nexus_http_req_feed` is `feed`, its loop `feed_loop`, one round `feed_round`.
pub mod Loop
pub mod Bounds
pub mod Serialize
pub mod Lines
pub mod Sendable
pub mod RoundTrip
pub mod Fuel
pub mod Resume
pub mod BodyPieces
pub mod Chunks
use mathlib.Core.Option
use nexus_gateway.Base.{
  Bool, Bytes, Option, [], bytes_eq, c_str, codes, drop, false, if◌then◌else◌, leb, length, ltb,
  none, not, some, split_at_byte, starts_with, suc, take, true, zero, ℕ, ◌&&◌, ◌+◌, ◌-◌, ◌==◌, ◌||◌,
  ◌∷◌,
}
use nexus_gateway.Base.Int.{eq_ℤ, ltb_ℤ, negsuc, pos, ℤ, ◌-ℤ◌}
use nexus_gateway.Headers.{Headers, headers_add, headers_get, headers_init}
use nexus_gateway.Util.Atoi.{atoi}

-- `hp_state_t`
pub data HpState : Type 0 where
  req_line header body done invalid : HpState

-- `nexus_http_req_t`
pub record Request : Type 0 where
  pub state : HpState
  pub method : Bytes
  pub path : Bytes
  pub version : Bytes
  pub headers : Headers
  pub body_remaining : ℤ

-- `nexus_http_req_init`, and `nexus_http_req_reset`, which frees the headers first.
abbrev pub req_init : Request
req_init = record {
  state = req_line;
  method = [];
  path = [];
  version = [];
  headers = headers_init;
  body_remaining = pos 0;
}

-- Buffer sizes: `sizeof(r->method)`, `sizeof(r->path)`, `sizeof(r->version)`, `sizeof(line_buf)`.
abbrev pub method_size : ℕ
method_size = 16

abbrev pub path_size : ℕ
path_size = 1024

abbrev pub version_size : ℕ
version_size = 16

abbrev pub line_size : ℕ
line_size = 1024

-- The part of `parse_request_line` behind the second space.
unfoldable pub parse_version : Request → Bytes → Request × Bool
parse_version r p =
    if not (starts_with p (codes "HTTP/"))
    then (r, false)
    else if leb version_size (length p)
    then (r, false)
    else if bytes_eq p (codes "HTTP/1.0") || bytes_eq p (codes "HTTP/1.1")
    then (record r { version = p }, true)
    else (r, false)

-- The part behind the first space.
unfoldable pub parse_path : Request → Bytes → Request × Bool
unfolding parse_version
parse_path r p = elim (split_at_byte b' ' p) [
  | none ↦ (r, false)
  | some (path, rest) ↦
      if leb path_size (length path)
      then (r, false)
      else parse_version (record r { path = path }) rest
]

-- `parse_request_line`; the flag says whether it returned 0. What it stored before a failure stays.
unfoldable pub parse_request_line : Request → Bytes → Request × Bool
unfolding parse_path
parse_request_line r line = elim (split_at_byte b' ' (c_str line)) [
  | none ↦ (r, false)
  | some (method, rest) ↦
      if leb method_size (length method)
      then (r, false)
      else parse_path (record r { method = method }) rest
]

-- `while (value_len > 0 && (*vp == ' ' || *vp == '\t'))`
unfoldable pub skip_blank : Bytes → Bytes
skip_blank [] = []
skip_blank (c ∷ cs) = if c == b' ' || c == b'\t' then skip_blank cs else c ∷ cs

abbrev pub fail : Request → Request × Bool
fail r = (record r { state = invalid }, false)

-- `cl ? atoi(cl) : 0`
unfoldable pub content_length : Headers → ℤ
content_length h = elim (headers_get h (codes "content-length")) [
  | none ↦ pos 0
  | some value ↦ atoi (c_str value)
]

-- The empty line that ends the headers.
unfoldable pub end_of_headers : Request → Request
end_of_headers r =
    let n = content_length r.headers in
    record r { body_remaining = n; state = if ltb_ℤ (pos 0) n then body else done }

-- A header line that is not empty.
unfoldable pub header_line : Request → Bytes → Request × Bool
header_line r line = elim (split_at_byte b':' line) [
  | none ↦ fail r
  | some (name, rest) ↦
      if leb 100 (length r.headers)
      then fail r
      else let (h, added) = headers_add r.headers name (skip_blank rest) in
        if added then (record r { headers = h }, true) else fail r
]

-- One line; the flag says whether the loop goes on.
unfoldable pub feed_line : HpState → Request → Bytes → Request × Bool
feed_line req_line r line =
    let (r', parsed) = parse_request_line r line in
    if parsed then (record r' { state = header }, true) else fail r'
feed_line header r [] = (end_of_headers r, true)
feed_line header r (c ∷ cs) = header_line r (c ∷ cs)
feed_line _ r line = (r, true)

-- The bytes up to the first "\r\n", if there is one.
unfoldable pub find_eol : Bytes → Option Bytes
find_eol [] = none
find_eol (c ∷ []) = none
find_eol (c ∷ d ∷ rest) =
    if c == b'\r' && d == b'\n' then some [] else Option.map (◌∷◌ c) (find_eol (d ∷ rest))

-- `take` of the body branch: what is left, or `(size_t)r->body_remaining` if that is less.
unfoldable pub body_take : ℤ → ℕ → ℕ
body_take (pos n) left = if ltb left n then left else n
body_take (negsuc n) left = left

unfoldable pub feed_body : Request → ℕ → Request
feed_body r k =
    let n = r.body_remaining -ℤ pos k in
    record r { body_remaining = n; state = if eq_ℤ n (pos 0) then done else r.state }

-- `line_buf`: at most 1023 bytes of the line.
unfoldable pub line_buffer : Bytes → Bytes
line_buffer = take (line_size - 1)

-- What a round does to the request and how many bytes it consumes, and whether the loop goes on.
pub record Round : Type 0 where
  pub request : Request
  pub bytes : ℕ
  pub more : Bool

-- A round outside the body, given the line found.
unfoldable pub line_round : Request → Option Bytes → Round
line_round r none = record { request = r; bytes = 0; more = false }
line_round r (some line) =
    let line_buf = line_buffer line in
    let (r', goes_on) = feed_line r.state r line_buf in
    record { request = r'; bytes = if goes_on then length line_buf + 2 else 0; more = goes_on }

unfoldable pub feed_round : HpState → Request → Bytes → Round
feed_round body r left =
    let k = body_take r.body_remaining (length left) in
    record { request = feed_body r k; bytes = k; more = true }
feed_round _ r left = line_round r (find_eol left)

abbrev pub is_final : HpState → Bool
is_final done = true
is_final invalid = true
is_final _ = false

-- The `while` loop over the bytes that are left, with the count of those consumed; `none` means that
-- the fuel ran out.
unfoldable pub feed_loop : ℕ → Request → Bytes → ℕ → Option (Request × ℕ)
feed_loop zero r left consumed = none
feed_loop (suc fuel) r [] consumed = some (r, consumed)
feed_loop (suc fuel) r (c ∷ cs) consumed =
    let s = feed_round r.state r (c ∷ cs) in
    let rest = feed_loop fuel s.request (drop s.bytes (c ∷ cs)) (consumed + s.bytes) in
    if is_final r.state
    then some (r, consumed)
    else if s.more
    then rest
    else some (s.request, consumed)

-- `nexus_http_req_feed`: the request, and the count that it returns.
unfoldable pub feed : Request → Bytes → Option (Request × ℕ)
feed r bytes =
    if is_final r.state then some (r, 0) else feed_loop (suc (suc (length bytes))) r bytes 0
