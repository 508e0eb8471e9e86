-- ===== src/Parser/Fuel.antt =====
-- src/http_parser.c: the loop of `nexus_http_req_feed` without its fuel, one round at a time.
use nexus_gateway.Base.{
  Bool-cases, Bytes, Option, [], ap, arith, drop, false, inl, inr, length, length-drop, none, refl,
  some, suc, sym, true, zero, ℕ, ◌+◌, ◌<◌, ◌∙◌, ◌∷◌, ◌≡◌, ◌≢◌,
}
use nexus_gateway.Parser.{Request, feed, feed_loop, feed_round, is_final}
use nexus_gateway.Parser.Lines.{feed_loop-round}
use nexus_gateway.Parser.Loop.{feed_round-Progress, rounds}

-- Any two amounts of fuel that are enough give the same.
feed_loop_enough :
    (f g : ℕ) (r : Request) (left : Bytes) (consumed : ℕ)
    → rounds r (length left) < f
    → rounds r (length left) < g
    → feed_loop f r left consumed ≡ feed_loop g r left consumed
unfolding feed_loop
feed_loop_enough zero g r left consumed h k = elim h [ ]
feed_loop_enough (suc f) zero r left consumed h k = elim k [ ]
feed_loop_enough (suc f) (suc g) r [] consumed h k = refl
feed_loop_enough (suc f) (suc g) r (c ∷ cs) consumed h k =
    let s = feed_round r.state r (c ∷ cs) in
    let p = feed_round-Progress r.state r c cs in
    elim (Bool-cases (is_final r.state)) [
      | inl final ↦ simp final refl
      | inr going ↦ elim (Bool-cases s.more) [
        | inr stop ↦ simp (going, stop) refl
        | inl more ↦
            simp (going, more)
              (feed_loop_enough f g s.request (drop s.bytes (c ∷ cs)) (consumed + s.bytes)
                (ground (arith, p.moves more, p.inside, length-drop s.bytes (c ∷ cs)))
                (ground (arith, p.moves more, p.inside, length-drop s.bytes (c ∷ cs))))
      ]
    ]

-- `n` more bytes consumed.
abbrev pub shift : ℕ → Option (Request × ℕ) → Option (Request × ℕ)
shift n none = none
shift n (some (r, m)) = some (r, n + m)

feed_loop-shift :
    (f : ℕ) (r : Request) (left : Bytes) (n m : ℕ)
    → feed_loop f r left (n + m) ≡ shift n (feed_loop f r left m)
unfolding feed_loop
feed_loop-shift zero r left n m = refl
feed_loop-shift (suc f) r [] n m = refl
feed_loop-shift (suc f) r (c ∷ cs) n m =
    let s = feed_round r.state r (c ∷ cs) in
    let ih = feed_loop-shift f s.request (drop s.bytes (c ∷ cs)) n (m + s.bytes) in
    let assoc : n + m + s.bytes ≡ n + (m + s.bytes) = omega arith in
    elim (Bool-cases (is_final r.state)) [
      | inl final ↦ simp final refl
      | inr going ↦ elim (Bool-cases s.more) [
        | inr stop ↦ simp (going, stop) refl
        | inl more ↦ simp (going, more) (rw assoc ih)
      ]
    ]

-- The loop on the bytes that are left, with enough fuel.
unfoldable pub feed_all : Request → Bytes → Option (Request × ℕ)
feed_all r left = feed_loop (suc (suc (length left))) r left 0

pub feed_all-empty : (r : Request) → feed_all r [] ≡ some (r, 0)
unfolding feed_all feed_loop
feed_all-empty r = refl

pub feed_all-final :
    (r : Request) (left : Bytes) → is_final r.state ≡ true → feed_all r left ≡ some (r, 0)
unfolding feed_all feed_loop
feed_all-final r [] final = refl
feed_all-final r (c ∷ cs) final = simp final refl

pub feed-feed_all : (r : Request) (left : Bytes) → feed r left ≡ feed_all r left
unfolding feed feed_all feed_loop
feed-feed_all r left = elim (Bool-cases (is_final r.state)) [
  | inl final ↦ simp final (sym (feed_all-final r left final))
  | inr going ↦ simp going refl
]

-- The last round.
pub feed_all-stop :
    (r : Request) (left : Bytes)
    → left ≢ []
    → is_final r.state ≡ false
    → (feed_round r.state r left).more ≡ false
    → feed_all r left ≡ some ((feed_round r.state r left).request, 0)
unfolding feed_all feed_loop
feed_all-stop r [] ne going stop = absurd (ne refl)
feed_all-stop r (c ∷ cs) ne going stop = simp (going, stop) refl

-- A round that goes on.
pub feed_all-round :
    (r : Request) (left : Bytes)
    → left ≢ []
    → is_final r.state ≡ false
    → (feed_round r.state r left).more ≡ true
    → feed_all r left
      ≡ shift (feed_round r.state r left).bytes (
          feed_all
            (feed_round r.state r left).request
            (drop (feed_round r.state r left).bytes left))
unfolding feed_all
feed_all-round r [] ne going more = absurd (ne refl)
feed_all-round r (c ∷ cs) ne going more =
    let s = feed_round r.state r (c ∷ cs) in
    let p = feed_round-Progress r.state r c cs in
    let rest = drop s.bytes (c ∷ cs) in
    let short = length-drop s.bytes (c ∷ cs) in
    feed_loop-round (suc (suc (length cs))) r (c ∷ cs) 0 s.bytes {r' = s.request} ne going (cc)
    ∙ ap (feed_loop (suc (suc (length cs))) s.request rest) (omega arith)
    ∙ feed_loop-shift (suc (suc (length cs))) s.request rest s.bytes 0
    ∙ ap (shift s.bytes) (
        feed_loop_enough (suc (suc (length cs))) (suc (suc (length rest))) s.request rest 0
          (ground (arith, p.moves more, p.inside, short)) (ground arith))
