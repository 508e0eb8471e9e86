-- ===== src/Parser/Lines.antt =====
-- src/http_parser.c: one line through the loop of `nexus_http_req_feed`.
use nexus_gateway.Base.{
  All, Bool, Bytes, [], append-ne-nil, arith, drop, false, length, refl, some, suc, take-length,
  true, ℕ, ◌++◌, ◌+◌, ◌-◌, ◌<◌, ◌∙◌, ◌∷◌, ◌≡◌, ◌≢◌,
}
use nexus_gateway.Parser.{
  HpState, Request, body, feed_line, feed_loop, feed_round, find_eol, header, is_final, line_buffer,
  line_round, line_size, req_line,
}

-- A byte that may stand in a line.
abbrev pub NoLf : Bytes → Type 0
NoLf = All (λ c. c ≢ b'\n')

pub find_eol-line :
    (line rest : Bytes) → NoLf line → find_eol (line ++ (b'\r' ∷ b'\n' ∷ rest)) ≡ some line
unfolding find_eol
find_eol-line [] rest h = refl
find_eol-line (c ∷ []) rest h = ground (arith, find_eol-line [] rest tt)
find_eol-line (c ∷ d ∷ line) rest h =
    let ih = find_eol-line (d ∷ line) rest h.1 in ground (arith, ih, h.1.0)

pub drop_line : (line rest : Bytes) → drop (length line + 2) (line ++ (b'\r' ∷ b'\n' ∷ rest)) ≡ rest
drop_line [] rest = refl
drop_line (c ∷ line) rest =
    let e : suc (length line) + 2 ≡ suc (length line + 2) = omega arith in
    rw e (drop_line line rest)

-- A state in which the loop reads lines.
abbrev pub reads_line : HpState → Bool
reads_line req_line = true
reads_line header = true
reads_line _ = false

pub feed_round-line :
    (st : HpState) (r : Request) (left : Bytes)
    → reads_line st ≡ true
    → feed_round st r left ≡ line_round r (find_eol left)
unfolding feed_round
feed_round-line body r left e = cc
feed_round-line _ r left e = refl

pub line_round-line :
    (r : Request) (line : Bytes) {r' : Request}
    → length line < line_size
    → feed_line r.state r line ≡ (r', true)
    → line_round r (some line) ≡ record { request = r'; bytes = length line + 2; more = true }
unfolding line_round line_buffer
line_round-line r line h e = rw (take-length line (line_size - 1) (omega arith), e)

pub feed_loop-round :
    (fuel : ℕ) (r : Request) (left : Bytes) (consumed k : ℕ) {r' : Request}
    → left ≢ []
    → is_final r.state ≡ false
    → feed_round r.state r left ≡ record { request = r'; bytes = k; more = true }
    → feed_loop (suc fuel) r left consumed ≡ feed_loop fuel r' (drop k left) (consumed + k)
unfolding feed_loop
feed_loop-round fuel r [] consumed k ne going e = absurd (ne refl)
feed_loop-round fuel r (c ∷ cs) consumed k ne going e = simp (going, e)

-- One line that the request takes, and the loop goes on behind it.
pub feed_loop-line :
    (fuel : ℕ) (r : Request) (line rest : Bytes) (consumed : ℕ) {r' : Request}
    → reads_line r.state ≡ true
    → NoLf line
    → length line < line_size
    → feed_line r.state r line ≡ (r', true)
    → feed_loop (suc fuel) r (line ++ (b'\r' ∷ b'\n' ∷ rest)) consumed
      ≡ feed_loop fuel r' rest (consumed + (length line + 2))
feed_loop-line fuel r line rest consumed {r'} reads lf short e =
    feed_loop-round fuel r _ consumed (length line + 2) {r' = r'} (append-ne-nil line _ _)
      (ground arith)
      (feed_round-line r.state r _ reads
        ∙ rw (find_eol-line line rest lf) (line_round-line r line short e))
    ∙ rw (drop_line line rest)
