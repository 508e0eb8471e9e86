-- ===== src/Parser/RoundTrip.antt =====
-- src/http_parser.c: the parser on the text that `nexus_http_req_serialize` writes.
use mathlib.Core.List.{append_assoc}
use nexus_gateway.Base.{
  All, All-append, Bytes, NoNul, [], ap, arith, bytes_eq, c_str-id, codes, inl, inr, length,
  length-append, refl, some, split_at_byte-append, starts_with, suc, true, ℕ, ◌++◌, ◌+◌, ◌<◌, ◌∙◌,
  ◌∷◌, ◌≡◌, ◌≢◌, ◌≤◌, ◌⊎◌,
}
use nexus_gateway.Headers.{Header, Headers, header_max}
use nexus_gateway.Parser.{
  Request, end_of_headers, feed, feed_line, header, line_size, method_size, parse_path,
  parse_request_line, parse_version, path_size, req_init, req_line,
}
use nexus_gateway.Parser.Lines.{NoLf, feed_loop-line}
use nexus_gateway.Parser.Sendable.{
  IsSendable, feed_loop-headers, header_bytes-text, header_text, with_headers,
}
use nexus_gateway.Parser.Serialize.{crlf, header_bytes, headers_bytes, render, request_line}

-- A request whose request line and headers fit lines, as the parser takes them.
pub record IsSendableRequest (r : Request) : Type 0 where
  pub method_ok : All (λ c. (c ≢ 0) × (c ≢ b' ') × (c ≢ b'\n')) r.method
  pub method_fits : length r.method < method_size
  pub path_ok : All (λ c. (c ≢ 0) × (c ≢ b' ') × (c ≢ b'\n')) r.path
  pub path_fits : length r.path < path_size
  pub line_fits : length r.method + length r.path + 10 < line_size
  pub version_ok : (r.version ≡ codes "HTTP/1.0") ⊎ (r.version ≡ codes "HTTP/1.1")
  pub headers_ok : All IsSendable r.headers
  pub headers_fit : length r.headers ≤ header_max

All-map {ℓ κ} :
    (P : ℕ → Type ℓ) (Q : ℕ → Type κ) (f : (c : ℕ) → P c → Q c) (s : Bytes) → All P s → All Q s
All-map P Q f [] h = tt
All-map P Q f (c ∷ s) h = (f c h.0, All-map P Q f s h.1)

abbrev line_text : Request → Bytes
line_text r = r.method ++ (b' ' ∷ (r.path ++ (b' ' ∷ r.version)))

parse_version-known :
    (r : Request) (v : Bytes)
    → (v ≡ codes "HTTP/1.0") ⊎ (v ≡ codes "HTTP/1.1")
    → parse_version r v ≡ (record r { version = v }, true)
unfolding parse_version starts_with bytes_eq
parse_version-known r v (inl e) = rw e refl
parse_version-known r v (inr e) = rw e refl

parse_path-text :
    (r : Request) (p v : Bytes)
    → All (λ c. c ≢ b' ') p
    → length p < path_size
    → (v ≡ codes "HTTP/1.0") ⊎ (v ≡ codes "HTTP/1.1")
    → parse_path r (p ++ (b' ' ∷ v)) ≡ (record r { path = p; version = v }, true)
unfolding parse_path
parse_path-text r p v blank fits known =
    rw (split_at_byte-append b' ' p v blank, parse_path)
      (ground (arith, fits, parse_version-known (record r { path = p }) v known))

-- The request behind its first line.
abbrev pub started : Request → Request
started r = record req_init {
  state = header;
  method = r.method;
  path = r.path;
  version = r.version;
}

module _ (r : Request) (s : IsSendableRequest r) where
  line_text-All :
      (P : ℕ → Type 0)
      → ((c : ℕ) → (c ≢ 0) × (c ≢ b' ') × (c ≢ b'\n') → P c)
      → P b' '
      → All P r.version
      → All P (line_text r)
  line_text-All P f blank v =
      All-append P r.method _ (All-map _ P f r.method s.method_ok)
        (blank, All-append P r.path _ (All-map _ P f r.path s.path_ok) (blank, v))

  version-All :
      (P : ℕ → Type 0) → All P (codes "HTTP/1.0") → All P (codes "HTTP/1.1") → All P r.version
  version-All P a b = elim s.version_ok [ inl e ↦ rw e a | inr e ↦ rw e b ]

  length-version : length r.version ≡ 8
  length-version = elim s.version_ok [ inl e ↦ rw e refl | inr e ↦ rw e refl ]

  line_text-NoNul : NoNul (line_text r)
  line_text-NoNul =
      line_text-All (λ c. c ≢ 0) (λ c h. h.0) (omega arith)
        (version-All (λ c. c ≢ 0) (omega arith) (omega arith))

  line_text-NoLf : NoLf (line_text r)
  line_text-NoLf =
      line_text-All (λ c. c ≢ b'\n') (λ c h. h.2) (omega arith)
        (version-All (λ c. c ≢ b'\n') (omega arith) (omega arith))

  line_text-short : length (line_text r) < line_size
  line_text-short = omega (
    arith,
    length-append r.method (b' ' ∷ (r.path ++ (b' ' ∷ r.version))),
    length-append r.path (b' ' ∷ r.version),
    length-version,
    s.line_fits,
  )

  parse_request_line-text :
      parse_request_line req_init (line_text r)
      ≡ (record req_init { method = r.method; path = r.path; version = r.version }, true)
  unfolding parse_request_line
  parse_request_line-text =
      let path =
        parse_path-text (record req_init { method = r.method }) r.path r.version
          (All-map _ _ (λ c h. h.1) r.path s.path_ok) s.path_fits s.version_ok in
      rw
        (
          c_str-id (line_text r) line_text-NoNul,
          split_at_byte-append b' ' r.method (r.path ++ (b' ' ∷ r.version))
              (All-map _ _ (λ c h. h.1) r.method s.method_ok),
          parse_request_line,
        )
        (ground (arith, s.method_fits, path))

  feed_line-text : feed_line req_line req_init (line_text r) ≡ (started r, true)
  unfolding feed_line
  feed_line-text = rw parse_request_line-text

  render-text : render r ≡ line_text r ++ (b'\r' ∷ b'\n' ∷ (headers_bytes r.headers ++ crlf))
  unfolding render request_line
  render-text =
      rw
        (
          c_str-id r.method (All-map _ _ (λ c h. h.0) r.method s.method_ok),
          c_str-id r.path (All-map _ _ (λ c h. h.0) r.path s.path_ok),
          c_str-id r.version (version-All (λ c. c ≢ 0) (omega arith) (omega arith)),
        )
        (simp append_assoc)

length-header_bytes : (e : Header) → IsSendable e → 0 < length (header_bytes e)
length-header_bytes e s =
    rw (header_bytes-text e s) (omega (arith, length-append (header_text e) crlf))

length-headers_bytes : (h : Headers) → All IsSendable h → length h ≤ length (headers_bytes h)
unfolding headers_bytes
length-headers_bytes [] s = omega arith
length-headers_bytes (e ∷ h) s = omega (
  arith,
  length-header_bytes e s.0,
  length-headers_bytes h s.1,
  length-append (header_bytes e) (headers_bytes h),
)

-- The parser takes the whole of what nexus_http_req_serialize writes for a request that fits its
-- lines, and has then the same method, path, version and headers, behind the end of the headers.
pub feed-render :
    (r : Request)
    → IsSendableRequest r
    → feed req_init (render r)
      ≡ some (end_of_headers (with_headers (started r) r.headers), length (render r))
unfolding feed
feed-render r s =
    let h = headers_bytes r.headers ++ crlf in
    let text = line_text r in
    rw (render-text r s) (
      feed_loop-line (suc (length (text ++ (b'\r' ∷ b'\n' ∷ h)))) req_init text h 0 {r' = started r}
        refl (line_text-NoLf r s) (line_text-short r s) (feed_line-text r s)
      ∙ feed_loop-headers r.headers _ (started r) _ refl s.headers_ok (omega (arith, s.headers_fit))
          (omega (
            arith,
            length-headers_bytes r.headers s.headers_ok,
            length-append text (b'\r' ∷ b'\n' ∷ h),
            length-append (headers_bytes r.headers) crlf,
          ))
      ∙ ap (λ (n : ℕ). some (end_of_headers (with_headers (started r) r.headers), n))
          (omega (arith, length-append text (b'\r' ∷ b'\n' ∷ h))))
