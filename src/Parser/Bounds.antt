-- ===== src/Parser/Bounds.antt =====
-- src/http_parser.c: the sizes of the request's buffers and table, over the calls of
-- `nexus_http_req_feed`.
use nexus_gateway.Base.{
  Bool, Bool-cases, Bytes, Option, Option-cases, [], arith, bytes_eq, c_str, codes, drop, false,
  inl, inr, leb, length, length-append, none, refl, some, split_at_byte, suc, true, zero, ℕ, ◌+◌,
  ◌<◌, ◌||◌, ◌∷◌, ◌≡◌, ◌≤◌,
}
use nexus_gateway.Base.Int.{pos_part, ℤ-cases, ◌-ℤ◌}
use nexus_gateway.Headers.{Headers, header_max, headers_add, new_header}
use nexus_gateway.Parser.{
  HpState, Request, body, body_take, end_of_headers, feed, feed_body, feed_line, feed_loop,
  feed_round, find_eol, header, header_line, invalid, line_buffer, line_round, method_size,
  parse_path, parse_request_line, parse_version, path_size, req_line, skip_blank, version_size,
}

abbrev pub is_known_version : Bytes → Bool
is_known_version v = bytes_eq v (codes "HTTP/1.0") || bytes_eq v (codes "HTTP/1.1")

-- Behind the request line, and not invalid.
abbrev pub past_line : HpState → Bool
past_line req_line = false
past_line invalid = false
past_line _ = true

-- Each text leaves room for its terminator.
pub record IsSafe (r : Request) : Type 0 where
  pub method_fits : length r.method < method_size
  pub path_fits : length r.path < path_size
  pub version_fits : length r.version < version_size
  pub headers_fit : length r.headers ≤ header_max
  pub known : past_line r.state ≡ true → is_known_version r.version ≡ true
  pub pending : r.state ≡ body → 0 < pos_part r.body_remaining

-- What the parts of `parse_request_line` leave: a request that is safe and still at its first line.
record LineParsed (s : Request × Bool) : Type 0 where
  safe : IsSafe s.0
  first : s.0.state ≡ req_line
  known : s.1 ≡ true → is_known_version s.0.version ≡ true

parse_version-LineParsed :
    (r : Request) (p : Bytes) → r.state ≡ req_line → IsSafe r → LineParsed (parse_version r p)
unfolding parse_version
parse_version-LineParsed r p first s = ground arith

parse_path-LineParsed :
    (r : Request) (p : Bytes) → r.state ≡ req_line → IsSafe r → LineParsed (parse_path r p)
unfolding parse_path
parse_path-LineParsed r p first s = elim (Option-cases (split_at_byte b' ' p)) [
  | inl e ↦ rw (e, parse_path) (ground arith)
  | inr ((path, rest), e) ↦
      rw (e, parse_path)
        (elim (Bool-cases (leb path_size (length path))) [
          | inl long ↦ simp long (ground arith)
          | inr fits ↦
              simp fits
                (parse_version-LineParsed (record r { path = path }) rest first (ground arith))
        ])
]

parse_request_line-LineParsed :
    (r : Request) (line : Bytes)
    → r.state ≡ req_line
    → IsSafe r
    → LineParsed (parse_request_line r line)
unfolding parse_request_line
parse_request_line-LineParsed r line first s =
    elim (Option-cases (split_at_byte b' ' (c_str line))) [
      | inl e ↦ rw (e, parse_request_line) (ground arith)
      | inr ((method, rest), e) ↦
          rw (e, parse_request_line)
            (elim (Bool-cases (leb method_size (length method))) [
              | inl long ↦ simp long (ground arith)
              | inr fits ↦
                  simp fits
                    (parse_path-LineParsed (record r { method = method }) rest first (ground arith))
            ])
    ]

end_of_headers-IsSafe : (r : Request) → r.state ≡ header → IsSafe r → IsSafe (end_of_headers r)
unfolding end_of_headers
end_of_headers-IsSafe r h s = ground arith

length-headers_add :
    (h : Headers) (name value : Bytes)
    → length h ≤ header_max
    → length (headers_add h name value).0 ≤ header_max
unfolding headers_add
length-headers_add h name value le = ground (arith, length-append h (new_header name value ∷ []))

header_line-IsSafe :
    (r : Request) (line : Bytes) → r.state ≡ header → IsSafe r → IsSafe (header_line r line).0
unfolding header_line
header_line-IsSafe r line h s = elim (Option-cases (split_at_byte b':' line)) [
  | inl e ↦ rw (e, header_line) (ground arith)
  | inr ((name, rest), e) ↦
      rw (e, header_line)
        (ground (arith, length-headers_add r.headers name (skip_blank rest) s.headers_fit))
]

feed_line-IsSafe :
    (st : HpState) (r : Request) (line : Bytes)
    → r.state ≡ st
    → IsSafe r
    → IsSafe (feed_line st r line).0
unfolding feed_line
feed_line-IsSafe req_line r line e s = ground (arith, parse_request_line-LineParsed r line e s)
feed_line-IsSafe header r [] e s = end_of_headers-IsSafe r e s
feed_line-IsSafe header r (c ∷ cs) e s = header_line-IsSafe r (c ∷ cs) e s
feed_line-IsSafe _ r line e s = s

line_round-IsSafe :
    (r : Request) (line : Option Bytes) → IsSafe r → IsSafe (line_round r line).request
unfolding line_round
line_round-IsSafe r none s = s
line_round-IsSafe r (some line) s = feed_line-IsSafe r.state r (line_buffer line) refl s

feed_body-IsSafe :
    (r : Request) (left : ℕ)
    → r.state ≡ body
    → IsSafe r
    → IsSafe (feed_body r (body_take r.body_remaining left))
unfolding feed_body body_take ◌-ℤ◌
feed_body-IsSafe r left h s = elim (ℤ-cases r.body_remaining) [
  | inl (n, e) ↦ rw e (ground arith)
  | inr (n, e) ↦ absurd (ground (arith, s.pending h))
]

pub feed_round-IsSafe :
    (st : HpState) (r : Request) (left : Bytes)
    → r.state ≡ st
    → IsSafe r
    → IsSafe (feed_round st r left).request
unfolding feed_round
feed_round-IsSafe body r left e s = feed_body-IsSafe r (length left) e s
feed_round-IsSafe _ r left e s = line_round-IsSafe r (find_eol left) s

feed_loop-IsSafe :
    (fuel : ℕ) (r : Request) (left : Bytes) (consumed : ℕ) {r' : Request} {n : ℕ}
    → IsSafe r
    → feed_loop fuel r left consumed ≡ some (r', n)
    → IsSafe r'
unfolding feed_loop
feed_loop-IsSafe zero r left consumed s e = cc
feed_loop-IsSafe (suc fuel) r [] consumed s e = ground arith
feed_loop-IsSafe (suc fuel) r (c ∷ cs) consumed {r'} {n} s e =
    let t = feed_round r.state r (c ∷ cs) in
    let next = feed_round-IsSafe r.state r (c ∷ cs) refl s in
    ground (
      arith,
      next,
      feed_loop-IsSafe fuel t.request (drop t.bytes (c ∷ cs)) (consumed + t.bytes) {r' = r'} {n = n}
          next,
    )

-- nexus_http_req_feed on any bytes keeps each text of a safe request inside its buffer, the
-- headers inside their table, and a known version in a request that is past its first line.
pub feed-IsSafe :
    (r : Request) (bytes : Bytes) {r' : Request} {n : ℕ}
    → IsSafe r
    → feed r bytes ≡ some (r', n)
    → IsSafe r'
unfolding feed
feed-IsSafe r bytes {r'} {n} s e =
    ground (arith, feed_loop-IsSafe (suc (suc (length bytes))) r bytes 0 {r' = r'} {n = n} s)
