-- ===== src/Parser/Serialize.antt =====
-- src/http_parser.c: `nexus_http_req_serialize`. `%s` prints a text up to its first zero byte.
use nexus_gateway.Base.{
  Bool, Bytes, Option, [], arith, c_str, false, if◌then◌else◌, leb, length, none, some, true, ℕ,
  ◌++◌, ◌<◌, ◌==◌, ◌∷◌, ◌≡◌,
}
use nexus_gateway.Headers.{Header, Headers}
use nexus_gateway.Parser.{Request}

abbrev pub crlf : Bytes
crlf = b'\r' ∷ b'\n' ∷ []

-- "%s %s %s\r\n"
unfoldable pub request_line : Request → Bytes
request_line r = c_str r.method ++ (b' ' ∷ (c_str r.path ++ (b' ' ∷ (c_str r.version ++ crlf))))

abbrev pub is_nil : Bytes → Bool
is_nil [] = true
is_nil (c ∷ cs) = false

-- "%s: %s\r\n", for a header whose name is not empty.
unfoldable pub header_bytes : Header → Bytes
header_bytes e =
    if is_nil (c_str e.name) then [] else c_str e.name ++ (b':' ∷ b' ' ∷ (c_str e.value ++ crlf))

unfoldable pub headers_bytes : Headers → Bytes
headers_bytes [] = []
headers_bytes (e ∷ h) = header_bytes e ++ headers_bytes h

unfoldable pub render : Request → Bytes
render r = request_line r ++ (headers_bytes r.headers ++ crlf)

-- `nexus_http_req_serialize`: what it writes, or `none` where it returns -1.
unfoldable pub serialize : Request → ℕ → Option Bytes
serialize r out_len =
    if out_len == 0 then none else if leb out_len (length (render r)) then none else some (render r)

-- A result of nexus_http_req_serialize fits its buffer with the terminator, and is the whole
-- text.
pub serialize-fits :
    (r : Request) (out_len : ℕ) {out : Bytes}
    → serialize r out_len ≡ some out
    → (out ≡ render r) × (length out < out_len)
unfolding serialize
serialize-fits r out_len e = ground arith
