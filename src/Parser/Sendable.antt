-- ===== src/Parser/Sendable.antt =====
-- src/http_parser.c: header lines, as `nexus_http_req_serialize` writes them, through the parser.
use mathlib.Core.List.{append-nil, append_assoc}
use nexus_gateway.Base.{
  All, All-append, Bytes, NoNul, [], ap, append-ne-nil, ap₂, arith, c_str-id, false, length,
  length-append, refl, some, split_at_byte-append, suc, true, zero, ℕ, ◌++◌, ◌+◌, ◌<◌, ◌∙◌, ◌∷◌,
  ◌≡◌, ◌≢◌, ◌≤◌,
}
use nexus_gateway.Headers.{Header, Headers, header_max, headers_add, new_header}
use nexus_gateway.Headers.View.{IsEntry}
use nexus_gateway.Parser.{
  Request, end_of_headers, feed_line, feed_loop, header, header_line, line_size, skip_blank,
}
use nexus_gateway.Parser.Lines.{NoLf, feed_loop-line}
use nexus_gateway.Parser.Serialize.{crlf, header_bytes, headers_bytes, is_nil}
use nexus_gateway.Util.{hash_fnv1a}

-- A header that a line can carry: as the table stores it, with no separator in its name, no line feed,
-- and no blank in front of its value.
pub record IsSendable (e : Header) : Type 0 where
  pub entry : IsEntry e
  pub named : e.name ≢ []
  pub no_colon : All (λ c. c ≢ b':') e.name
  pub name_lf : NoLf e.name
  pub value_nul : NoNul e.value
  pub value_lf : NoLf e.value
  pub no_blank : skip_blank e.value ≡ e.value
  pub short : length e.name + length e.value + 2 < line_size

abbrev pub header_text : Header → Bytes
header_text e = e.name ++ (b':' ∷ b' ' ∷ e.value)

pub is_nil-ne : (s : Bytes) → s ≢ [] → is_nil s ≡ false
is_nil-ne [] h = absurd (h refl)
is_nil-ne (c ∷ s) h = refl

pub header_bytes-text : (e : Header) → IsSendable e → header_bytes e ≡ header_text e ++ crlf
unfolding header_bytes
header_bytes-text e s =
    rw (c_str-id e.name s.entry.clean, c_str-id e.value s.value_nul, is_nil-ne e.name s.named)
      (simp append_assoc)

pub new_header-IsSendable : (e : Header) → IsSendable e → new_header e.name e.value ≡ e
unfolding new_header
new_header-IsSendable e s =
    ground (arith, s.entry.lower, s.entry.hashed, ap hash_fnv1a s.entry.lower)

pub skip_blank-space : (value : Bytes) → skip_blank (b' ' ∷ value) ≡ skip_blank value
unfolding skip_blank
skip_blank-space value = refl

pub header_line-text :
    (r : Request) (e : Header)
    → IsSendable e
    → length r.headers < header_max
    → header_line r (header_text e) ≡ (record r { headers = r.headers ++ e ∷ [] }, true)
unfolding header_line headers_add
header_line-text r e s room =
    rw (split_at_byte-append b':' e.name (b' ' ∷ e.value) s.no_colon, header_line)
      (rw (skip_blank-space e.value, s.no_blank) (ground (arith, room, new_header-IsSendable e s)))

pub feed_line-header :
    (r : Request) (line : Bytes)
    → r.state ≡ header
    → line ≢ []
    → feed_line r.state r line ≡ header_line r line
unfolding feed_line
feed_line-header r [] h ne = absurd (ne refl)
feed_line-header r (c ∷ cs) h ne = ap (λ st. feed_line st r (c ∷ cs)) h

pub feed_line-empty :
    (r : Request) → r.state ≡ header → feed_line r.state r [] ≡ (end_of_headers r, true)
unfolding feed_line
feed_line-empty r h = ap (λ st. feed_line st r []) h

pub feed_loop-end :
    (fuel : ℕ) (r : Request) (consumed : ℕ)
    → r.state ≡ header
    → feed_loop (suc (suc fuel)) r crlf consumed ≡ some (end_of_headers r, consumed + 2)
unfolding feed_loop
feed_loop-end fuel r consumed h =
    feed_loop-line (suc fuel) r [] [] consumed (rw h refl) tt (omega arith) (feed_line-empty r h)

pub IsSendable-lf : (e : Header) → IsSendable e → NoLf (header_text e)
IsSendable-lf e s = All-append (λ c. c ≢ b'\n') e.name _ s.name_lf (λ q. cc, (λ q. cc, s.value_lf))

pub IsSendable-short : (e : Header) → IsSendable e → length (header_text e) < line_size
IsSendable-short e s = omega (arith, s.short, length-append e.name (b':' ∷ b' ' ∷ e.value))

abbrev pub with_header : Request → Header → Request
with_header r e = record r { headers = r.headers ++ e ∷ [] }

pub feed_loop-header :
    (fuel : ℕ) (r : Request) (e : Header) (rest : Bytes) (consumed : ℕ)
    → r.state ≡ header
    → IsSendable e
    → length r.headers < header_max
    → feed_loop (suc fuel) r (header_bytes e ++ rest) consumed
      ≡ feed_loop fuel (with_header r e) rest (consumed + length (header_bytes e))
feed_loop-header fuel r e rest consumed h s room =
    rw (header_bytes-text e s, append_assoc)
      (feed_loop-line fuel r (header_text e) rest consumed {r' = with_header r e} (rw h refl)
          (IsSendable-lf e s) (IsSendable-short e s)
          (feed_line-header r (header_text e) h (append-ne-nil e.name _ _)
            ∙ header_line-text r e s room)
        ∙ ap (feed_loop fuel (with_header r e) rest)
            (omega (arith, length-append (header_text e) crlf)))

abbrev pub with_headers : Request → Headers → Request
with_headers r h = record r { headers = r.headers ++ h }

pub feed_loop-headers :
    (h : Headers) (fuel : ℕ) (r : Request) (consumed : ℕ)
    → r.state ≡ header
    → All IsSendable h
    → length r.headers + length h ≤ header_max
    → length h + 1 < fuel
    → feed_loop fuel r (headers_bytes h ++ crlf) consumed
      ≡ some (end_of_headers (with_headers r h), consumed + length (headers_bytes h ++ crlf))
unfolding headers_bytes
feed_loop-headers [] zero r consumed st s room enough = absurd (omega arith)
feed_loop-headers [] (suc zero) r consumed st s room enough = absurd (omega arith)
feed_loop-headers [] (suc (suc fuel)) r consumed st s room enough =
    rw append-nil (feed_loop-end fuel r consumed st)
feed_loop-headers (e ∷ h) zero r consumed st s room enough = absurd (omega arith)
feed_loop-headers (e ∷ h) (suc fuel) r consumed st s room enough =
    let rest = headers_bytes h ++ crlf in
    let bytes = consumed + length (header_bytes e) in
    rw append_assoc (
      feed_loop-header fuel r e rest consumed st s.0 (omega arith)
      ∙ feed_loop-headers h fuel (with_header r e) bytes st s.1
          (omega (arith, length-append r.headers (e ∷ []))) (omega arith)
      ∙ ap₂ (λ x n. some (end_of_headers (record r { headers = x }), n))
          (append_assoc r.headers (e ∷ []) h) (omega (arith, length-append (header_bytes e) rest)))
