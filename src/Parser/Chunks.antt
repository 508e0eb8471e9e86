-- ===== src/Parser/Chunks.antt =====
-- src/http_parser.c: a request that comes in several pieces.
use nexus_gateway.Base.{
  Bool-cases, Bytes, Option-cases, [], ap, arith, drop, false, inl, inr, length, length-drop, refl,
  some, split_at_byte, suc, sym, true, zero, ℕ, ◌++◌, ◌<◌, ◌∙◌, ◌∷◌, ◌≡◌, ◌≢◌, ◌≤◌, ◌⊎◌,
}
use nexus_gateway.Parser.{
  HpState, Request, body, done, feed, feed_line, feed_round, find_eol, header, header_line, invalid,
  is_final, line_buffer, line_round, req_line,
}
use nexus_gateway.Parser.BodyPieces.{body-Continues}
use nexus_gateway.Parser.Bounds.{IsSafe, feed_round-IsSafe}
use nexus_gateway.Parser.Fuel.{feed-feed_all, feed_all-empty, feed_all-stop, shift}
use nexus_gateway.Parser.Lines.{feed_round-line, reads_line}
use nexus_gateway.Parser.Loop.{feed_round-Progress, rounds}
use nexus_gateway.Parser.Resume.{
  Continues, final-Continues, resume, same_round, shift-zero, stopped-Continues,
}

find_eol-append :
    (a b : Bytes) {line : Bytes} → find_eol a ≡ some line → find_eol (a ++ b) ≡ some line
unfolding find_eol
find_eol-append [] b e = cc
find_eol-append (c ∷ []) b e = cc
find_eol-append (c ∷ d ∷ a) b {line} e = elim (Option-cases (find_eol (d ∷ a))) [
  | inl f ↦ ground (arith, f)
  | inr (l, f) ↦ ground (arith, f, find_eol-append (d ∷ a) b {line = l} f)
]

HpState-cases : (st : HpState) → (is_final st ≡ true) ⊎ (reads_line st ≡ true) ⊎ (st ≡ body)
HpState-cases req_line = inr (inl refl)
HpState-cases header = inr (inl refl)
HpState-cases body = inr (inr refl)
HpState-cases done = inl refl
HpState-cases invalid = inl refl

header_line-ends :
    (r : Request) (line : Bytes)
    → (header_line r line).1 ≡ false
    → is_final (header_line r line).0.state ≡ true
unfolding header_line
header_line-ends r line e = elim (Option-cases (split_at_byte b':' line)) [
  | inl f ↦ ground (arith, f)
  | inr ((name, rest), f) ↦ ground (arith, f)
]

feed_line-ends :
    (st : HpState) (r : Request) (line : Bytes)
    → (feed_line st r line).1 ≡ false
    → is_final (feed_line st r line).0.state ≡ true
unfolding feed_line
feed_line-ends req_line r line e = ground arith
feed_line-ends header r [] e = cc
feed_line-ends header r (c ∷ cs) e = header_line-ends r (c ∷ cs) e
feed_line-ends _ r line e = cc

-- The rounds of a line that stop the loop.
line_round-ends :
    (r : Request) (line : Bytes)
    → (line_round r (some line)).more ≡ false
    → is_final (line_round r (some line)).request.state ≡ true
unfolding line_round
line_round-ends r line e = feed_line-ends r.state r (line_buffer line) (ground arith)

reads_line-going : (st : HpState) → reads_line st ≡ true → is_final st ≡ false
reads_line-going req_line e = refl
reads_line-going header e = refl
reads_line-going _ e = cc

-- A whole line; `rest` is what follows it.
line-Continues :
    (r : Request) (a b line : Bytes)
    → a ≢ []
    → reads_line r.state ≡ true
    → find_eol a ≡ some line
    → (feed_round r.state r a).bytes ≤ length a
    → ((feed_round r.state r a).more ≡ true
        → Continues (feed_round r.state r a).request (drop (feed_round r.state r a).bytes a) b)
    → Continues r a b
line-Continues r a b line ne reads e inside rest =
    let s = feed_round r.state r a in
    let here = feed_round-line r.state r a reads ∙ ap (line_round r) e in
    let there =
      feed_round-line r.state r (a ++ b) reads
      ∙ ap (line_round r) (find_eol-append a b {line = line} e) in
    let ends : s.more ≡ false → is_final s.request.state ≡ true =
      rw here (line_round-ends r line) in
    same_round r a b ne (reads_line-going r.state reads) inside (there ∙ sym here) ends
      (elim (Bool-cases s.more) [
        | inl more ↦ rest more
        | inr stop ↦ final-Continues s.request (drop s.bytes a) b (ends stop)
      ])

feed_all-append :
    (k : ℕ) (r : Request) (a b : Bytes) → rounds r (length a) < k → IsSafe r → Continues r a b
unfolding resume line_round
feed_all-append zero r a b h safe = elim h [ ]
feed_all-append (suc k) r [] b h safe = rw feed_all-empty (sym (shift-zero _))
feed_all-append (suc k) r (c ∷ cs) b h safe =
    let a = c ∷ cs in
    let s = feed_round r.state r a in
    let p = feed_round-Progress r.state r c cs in
    elim (HpState-cases r.state) [
      | inl ended ↦ final-Continues r a b ended
      | inr (inl reads) ↦
          let going = reads_line-going r.state reads in
          elim (Option-cases (find_eol a)) [
            | inl e ↦
                let here = feed_round-line r.state r a reads ∙ ap (line_round r) e in
                stopped-Continues r a b
                  (feed_all-stop r a (λ q. cc) going (rw here refl) ∙ rw here refl)
            | inr (line, e) ↦
                line-Continues r a b line (λ q. cc) reads e p.inside
                  (λ more.
                    feed_all-append k s.request (drop s.bytes a) b
                      (ground (arith, p.moves more, p.inside, length-drop s.bytes a))
                      (feed_round-IsSafe r.state r a refl safe))
          ]
      | inr (inr st) ↦ body-Continues r a b (λ q. cc) st safe
    ]

-- For a safe request, feeding a text and then what the first call left of it with more text gives
-- the request and counts the bytes as feeding both at once does.
pub feed-append :
    (r : Request) (a b : Bytes) {r' : Request} {n : ℕ}
    → IsSafe r
    → feed r a ≡ some (r', n)
    → feed r (a ++ b) ≡ shift n (feed r' (drop n a ++ b))
unfolding resume
feed-append r a b {r'} {n} safe e =
    feed-feed_all r (a ++ b)
    ∙ feed_all-append (suc (rounds r (length a))) r a b (omega arith) safe
    ∙ rw (sym (feed-feed_all r a) ∙ e, feed-feed_all r' (drop n a ++ b)) refl
