-- ===== src/Parser/Loop.antt =====
-- src/http_parser.c: the rounds of the loop of `nexus_http_req_feed`, and how many there are.
use nexus_gateway.Base.{
  Bool-cases, Bytes, Option-cases, [], arith, drop, if◌then◌else◌, inl, inr, length, length-drop,
  length-take, refl, some, suc, true, zero, ℕ, ◌+◌, ◌-◌, ◌<◌, ◌∷◌, ◌≡◌, ◌≤◌, ◌⊎◌,
}
use nexus_gateway.Base.Int.{ℤ-cases, ◌-ℤ◌}
use nexus_gateway.Parser.{
  HpState, Request, Round, body, body_take, feed, feed_body, feed_loop, feed_round, find_eol,
  is_final, line_buffer, line_round, line_size,
}

pub length-find_eol :
    (s : Bytes) {line : Bytes} → find_eol s ≡ some line → length line + 2 ≤ length s
unfolding find_eol
length-find_eol [] e = cc
length-find_eol (c ∷ []) e = cc
length-find_eol (c ∷ d ∷ rest) e = elim (Option-cases (find_eol (d ∷ rest))) [
  | inl f ↦ ground (arith, f)
  | inr (l, f) ↦ ground (arith, f, length-find_eol (d ∷ rest) f)
]

-- A round that goes on stays inside the input, and consumes something or ends the request.
pub record Progress (left : Bytes) (s : Round) : Type 0 where
  pub inside : s.bytes ≤ length left
  pub moves : s.more ≡ true → (0 < s.bytes) ⊎ (is_final s.request.state ≡ true)

pub length-line_buffer : (line : Bytes) → length (line_buffer line) ≤ length line
unfolding line_buffer
length-line_buffer line = omega (arith, length-take (line_size - 1) line)

line_round-Progress : (r : Request) (left : Bytes) → Progress left (line_round r (find_eol left))
unfolding line_round
line_round-Progress r left = elim (Option-cases (find_eol left)) [
  | inl e ↦ rw e (record { inside = omega arith; moves = λ h. cc })
  | inr (line, e) ↦ rw e (record {
    inside = ground (arith, length-find_eol left e, length-line_buffer line);
    moves = λ h. inl (ground (arith, h));
  })
]

body_round-Progress :
    (r : Request) (c : ℕ) (cs : Bytes) → Progress (c ∷ cs) (feed_round body r (c ∷ cs))
unfolding feed_round body_take feed_body ◌-ℤ◌
body_round-Progress r c cs = elim (ℤ-cases r.body_remaining) [
  | inl (n, e) ↦ record { inside = rw e (ground arith); moves = λ _. rw e (ground arith) }
  | inr (n, e) ↦ record { inside = rw e (ground arith); moves = λ _. rw e (ground arith) }
]

pub feed_round-Progress :
    (st : HpState) (r : Request) (c : ℕ) (cs : Bytes) → Progress (c ∷ cs) (feed_round st r (c ∷ cs))
unfolding feed_round
feed_round-Progress body r c cs = body_round-Progress r c cs
feed_round-Progress _ r c cs = line_round-Progress r (c ∷ cs)

-- A request that is not finished wants one more round than the bytes left.
abbrev pub rounds : Request → ℕ → ℕ
rounds r left = if is_final r.state then left else left + 1

feed_loop-total :
    (fuel : ℕ) (r : Request) (left : Bytes) (consumed : ℕ)
    → rounds r (length left) < fuel
    → (r' : Request) × (n : ℕ) × (feed_loop fuel r left consumed ≡ some (r', n))
      × (n ≤ consumed + length left)
unfolding feed_loop
feed_loop-total zero r left consumed h = elim h [ ]
feed_loop-total (suc fuel) r [] consumed h = (r, consumed, refl, omega arith)
feed_loop-total (suc fuel) r (c ∷ cs) consumed h =
    let s = feed_round r.state r (c ∷ cs) in
    let p = feed_round-Progress r.state r c cs in
    elim (Bool-cases (is_final r.state)) [
      | inl final ↦ (r, consumed, simp final, omega arith)
      | inr going ↦ elim (Bool-cases s.more) [
        | inr stop ↦ (s.request, consumed, simp (going, stop), omega arith)
        | inl more ↦
            let (r', n, e, le) =
              feed_loop-total fuel s.request (drop s.bytes (c ∷ cs)) (consumed + s.bytes)
                (ground (arith, p.moves more, p.inside, length-drop s.bytes (c ∷ cs))) in
            (r', n, simp (going, more) e, omega (arith, le, p.inside, length-drop s.bytes (c ∷ cs)))
      ]
    ]

-- nexus_http_req_feed returns on every input, and consumes no more than it was given.
pub feed-total :
    (r : Request) (bytes : Bytes)
    → (r' : Request) × (n : ℕ) × (feed r bytes ≡ some (r', n)) × (n ≤ length bytes)
unfolding feed
feed-total r bytes = elim (Bool-cases (is_final r.state)) [
  | inl final ↦ (r, 0, simp final, omega arith)
  | inr going ↦
      let (r', n, e, le) =
        feed_loop-total (suc (suc (length bytes))) r bytes 0 (ground (arith, going)) in
      (r', n, simp going e, omega arith)
]
