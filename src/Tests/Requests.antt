-- ===== src/Tests/Requests.antt =====
-- src/http_parser.c and src/http_header.c at concrete inputs.
use nexus_gateway.Base.{
  Bytes, Option, [], arith, bytes_eq, c_str, codes, drop, if◌then◌else◌, inr, length, none, refl,
  some, split_at_byte, starts_with, ℕ, ◌++◌, ◌∷◌, ◌≡◌, ◌≤◌,
}
use nexus_gateway.Base.Int.{pos, ℤ, ◌-ℤ◌}
use nexus_gateway.Headers.{
  Header, Headers, find_hash, headers_add, headers_get, headers_set, lower_name, new_header,
}
use nexus_gateway.Headers.View.{IsValid, new_header-IsEntry, values_of, values_of-headers_set}
use nexus_gateway.Parser.{
  HpState, Request, body, body_take, content_length, done, end_of_headers, feed, feed_body,
  feed_line, feed_loop, feed_round, find_eol, header, header_line, line_buffer, line_round,
  parse_path, parse_request_line, parse_version, req_init, skip_blank,
}
use nexus_gateway.Parser.Bounds.{IsSafe, feed-IsSafe}
use nexus_gateway.Parser.Chunks.{feed-append}
use nexus_gateway.Parser.Fuel.{shift}
use nexus_gateway.Parser.Loop.{feed-total}
use nexus_gateway.Parser.RoundTrip.{IsSendableRequest, feed-render, started}
use nexus_gateway.Parser.Sendable.{IsSendable, with_headers}
use nexus_gateway.Parser.Serialize.{header_bytes, headers_bytes, render, request_line, serialize}
use nexus_gateway.Rewrite.Script.{length-headers_remove}
use nexus_gateway.Util.{fnv1a_from, fnv1a_round, hash_fnv1a, to_lower}
use nexus_gateway.Util.Atoi.{atoi, digits_from, is_digit, is_space, minus, signed, skip_space}

-- A request as a client sends it.
abbrev get_text : Bytes
get_text = codes "GET /a HTTP/1.1\r\nHost:\tb\r\nX: 1\r\n\r\n"

abbrev get_request : Request
get_request = record req_init {
  state = done;
  method = codes "GET";
  path = codes "/a";
  version = codes "HTTP/1.1";
  headers = new_header (codes "Host") (codes "b") ∷ new_header (codes "X") (codes "1") ∷ [];
}

feed_test : feed req_init get_text ≡ some (get_request, 34)
unfolding feed feed_loop feed_round line_round feed_line line_buffer find_eol parse_request_line
    parse_path parse_version header_line skip_blank end_of_headers content_length headers_add
    headers_get find_hash c_str split_at_byte bytes_eq starts_with new_header hash_fnv1a fnv1a_from
    fnv1a_round to_lower
feed_test = refl

-- The state that a call leaves, with what is left of the body.
abbrev state_and_left : Option (Request × ℕ) → Option (HpState × ℤ)
state_and_left none = none
state_and_left (some (r, n)) = some (r.state, r.body_remaining)

-- A length of the body is read from the headers; its bytes are counted, not kept.
feed_body_test :
    state_and_left (feed req_init (codes "POST /a HTTP/1.1\r\nContent-Length: 3\r\n\r\nab"))
    ≡ some (body, pos 1)
unfolding feed feed_loop feed_round line_round feed_line line_buffer find_eol parse_request_line
    parse_path parse_version header_line skip_blank end_of_headers content_length headers_add
    headers_get find_hash c_str split_at_byte bytes_eq starts_with new_header hash_fnv1a fnv1a_from
    fnv1a_round to_lower atoi skip_space digits_from signed minus is_digit is_space feed_body
    body_take ◌-ℤ◌
feed_body_test = refl

feed-total_example :
    (r' : Request) × (n : ℕ) × (feed req_init get_text ≡ some (r', n)) × (n ≤ length get_text)
feed-total_example = feed-total req_init get_text

req_init-IsSafe : IsSafe req_init
req_init-IsSafe = record {
  method_fits = omega arith;
  path_fits = omega arith;
  version_fits = omega arith;
  headers_fit = omega arith;
  known = λ q. cc;
  pending = λ q. cc;
}

feed-IsSafe_example : IsSafe get_request
feed-IsSafe_example =
    feed-IsSafe req_init get_text {r' = get_request} {n = 34} req_init-IsSafe feed_test

-- A header as the table stores it.
abbrev host_header : Header
host_header = new_header (codes "host") (codes "b")

host_header-IsSendable : IsSendable host_header
unfolding new_header skip_blank to_lower
host_header-IsSendable = record {
  entry = new_header-IsEntry (codes "host") (codes "b") (omega arith);
  named = λ q. cc;
  no_colon = omega arith;
  name_lf = omega arith;
  value_nul = omega arith;
  value_lf = omega arith;
  no_blank = refl;
  short = omega arith;
}

abbrev sendable_request : Request
sendable_request = record req_init {
  method = codes "GET";
  path = codes "/a";
  version = codes "HTTP/1.1";
  headers = host_header ∷ [];
}

sendable_request-IsSendable : IsSendableRequest sendable_request
sendable_request-IsSendable = record {
  method_ok = omega arith;
  method_fits = omega arith;
  path_ok = omega arith;
  path_fits = omega arith;
  line_fits = omega arith;
  version_ok = inr refl;
  headers_ok = (host_header-IsSendable, tt);
  headers_fit = omega arith;
}

feed-render_example :
    feed req_init (render sendable_request)
    ≡ some (
      end_of_headers (with_headers (started sendable_request) sendable_request.headers),
      length (render sendable_request),
    )
feed-render_example = feed-render sendable_request sendable_request-IsSendable

serialize_test : serialize sendable_request 4096 ≡ some (render sendable_request)
unfolding serialize render request_line headers_bytes header_bytes c_str new_header to_lower
serialize_test = refl

-- A table with one header.
abbrev one_header : Headers
one_header = host_header ∷ []

one_header-IsValid : IsValid one_header
one_header-IsValid = record { entries = (host_header-IsSendable.entry, tt); fits = omega arith }

values_of-headers_set_example :
    values_of (codes "via") (headers_set one_header (codes "Via") (codes "x")).0 ≡ (
      if bytes_eq (codes "via") (lower_name (codes "Via"))
      then c_str (codes "x") ∷ []
      else values_of (codes "via") one_header)
values_of-headers_set_example =
    values_of-headers_set (codes "via") (codes "Via") (codes "x") one_header one_header-IsValid
      (omega (arith, length-headers_remove one_header (codes "Via")))

-- Two names with one hash: a request that has the first is asked for the second.
headers_get_collision_test :
    headers_get (new_header (codes "costarring") (codes "1") ∷ []) (codes "liquid")
    ≡ some (codes "1")
unfolding headers_get find_hash new_header hash_fnv1a fnv1a_from fnv1a_round to_lower c_str
headers_get_collision_test = refl

-- The first two reads of a request: the second call is given what the first left.
abbrev first_part : Bytes
first_part = codes "GET /a HTTP/1.1\r\nHo"

abbrev second_part : Bytes
second_part = codes "st:\tb\r\nX: 1\r\n\r\n"

abbrev half_request : Request
half_request = record req_init {
  state = header;
  method = codes "GET";
  path = codes "/a";
  version = codes "HTTP/1.1";
}

first_part_test : feed req_init first_part ≡ some (half_request, 17)
unfolding feed feed_loop feed_round line_round feed_line line_buffer find_eol parse_request_line
    parse_path parse_version c_str split_at_byte bytes_eq starts_with
first_part_test = refl

feed-append_example :
    feed req_init (first_part ++ second_part)
    ≡ shift 17 (feed half_request (drop 17 first_part ++ second_part))
feed-append_example =
    feed-append req_init first_part second_part {r' = half_request} {n = 17} req_init-IsSafe
      first_part_test
