-- ===== src/Parser/BodyPieces.antt =====
-- src/http_parser.c: the rounds inside the body of a request, when the body comes in pieces.
use mathlib.Core.List.{append-nil}
use nexus_gateway.Base.{
  Bool-cases, Bytes, [], ap, arith, drop, inl, inr, length, length-append, ltb, refl, some, sym,
  true, ℕ, ◌++◌, ◌+◌, ◌-◌, ◌<◌, ◌∙◌, ◌∷◌, ◌≡◌, ◌≢◌, ◌≤◌,
}
use nexus_gateway.Base.Int.{pos, ℤ-cases, ◌-ℤ◌}
use nexus_gateway.Parser.{Request, body, body_take, feed_body, feed_round, is_final}
use nexus_gateway.Parser.Bounds.{IsSafe}
use nexus_gateway.Parser.Fuel.{feed_all, feed_all-empty, feed_all-round, shift}
use nexus_gateway.Parser.Resume.{
  Continues, append-ne-nil_left, drop_add, final-Continues, resume, same_round, shift-shift,
}

pub feed_round-body :
    (r : Request) (left : Bytes) (k : ℕ)
    → r.state ≡ body
    → body_take r.body_remaining (length left) ≡ k
    → feed_round r.state r left ≡ record { request = feed_body r k; bytes = k; more = true }
unfolding feed_round
feed_round-body r left k st e = ap (λ s. feed_round s r left) st ∙ rw e refl

-- A round inside the body.
pub feed_all-body :
    (r : Request) (left : Bytes) (k : ℕ)
    → left ≢ []
    → r.state ≡ body
    → body_take r.body_remaining (length left) ≡ k
    → feed_all r left ≡ shift k (feed_all (feed_body r k) (drop k left))
feed_all-body r left k ne st e =
    let same = feed_round-body r left k st e in
    feed_all-round r left ne (ground arith) (rw same refl) ∙ rw same refl

pub feed_body-add :
    (r : Request) (n k j : ℕ)
    → r.state ≡ body
    → r.body_remaining ≡ pos n
    → k < n
    → feed_body (feed_body r k) j ≡ feed_body r (k + j)
unfolding feed_body ◌-ℤ◌
feed_body-add r n k j st e h = ground (arith, e)

pub drop_all : (a b : Bytes) → drop (length a) (a ++ b) ≡ b
drop_all [] b = refl
drop_all (x ∷ a) b = drop_all a b

pub feed_body-partial :
    (r : Request) (n k : ℕ)
    → r.state ≡ body
    → r.body_remaining ≡ pos n
    → k < n
    → ((feed_body r k).state ≡ body) × ((feed_body r k).body_remaining ≡ pos (n - k))
unfolding feed_body ◌-ℤ◌
feed_body-partial r n k st e h = ground (arith, e)

pub drop_self : (a : Bytes) → drop (length a) a ≡ []
drop_self [] = refl
drop_self (x ∷ a) = drop_self a

-- A piece that ends before the body does.
pub body_whole :
    (r : Request) (a : Bytes) (n : ℕ)
    → a ≢ []
    → r.state ≡ body
    → r.body_remaining ≡ pos n
    → length a < n
    → feed_all r a ≡ some (feed_body r (length a), length a)
unfolding body_take
body_whole r a n ne st e h =
    feed_all-body r a (length a) ne st (rw e (ground arith))
    ∙ rw (drop_self a, feed_all-empty)
        (ap (λ (m : ℕ). some (feed_body r (length a), m)) (omega arith))

pub takes_rest : (n k m : ℕ) → k < n → body_take (pos n) (k + m) ≡ k + body_take (pos (n - k)) m
unfolding body_take
takes_rest n k m h = ground arith

pub body_partial :
    (r : Request) (a b : Bytes) (n : ℕ)
    → a ≢ []
    → r.state ≡ body
    → r.body_remaining ≡ pos n
    → length a < n
    → Continues r a b
unfolding resume
body_partial r a [] n ne st e h =
    rw
      (
        append-nil a,
        body_whole r a n ne st e h,
        append-nil (drop (length a) a),
        drop_self a,
        feed_all-empty,
      )
      (ap (λ (m : ℕ). some (feed_body r (length a), m)) (omega arith))
body_partial r a (c ∷ cs) n ne st e h =
    let k = length a in
    let b = c ∷ cs in
    let (st', e') = feed_body-partial r n k st e h in
    let j = body_take (pos (n - k)) (length b) in
    let whole : body_take r.body_remaining (length (a ++ b)) ≡ k + j =
      rw (e, length-append a b) (takes_rest n k (length b) h) in
    feed_all-body r (a ++ b) (k + j) (append-ne-nil_left a b ne) st whole
    ∙ rw
        (
          body_whole r a n ne st e h,
          drop_add k j (a ++ b),
          drop_all a b,
          sym (feed_body-add r n k j st e h),
          drop_self a,
          feed_all-body (feed_body r k) b j (λ q. cc) st' (rw e' refl),
        )
        (sym (shift-shift k j _))

pub feed_body-done :
    (r : Request) (n : ℕ) → r.body_remaining ≡ pos n → is_final (feed_body r n).state ≡ true
unfolding feed_body ◌-ℤ◌
feed_body-done r n e = ground (arith, e)

-- A piece that the body ends in.
pub body_inside :
    (r : Request) (a b : Bytes) (n : ℕ)
    → a ≢ []
    → r.state ≡ body
    → r.body_remaining ≡ pos n
    → n ≤ length a
    → Continues r a b
unfolding body_take
body_inside r a b n ne st e h =
    let here = feed_round-body r a n st (rw e (ground arith)) in
    let there = feed_round-body r (a ++ b) n st (rw (e, length-append a b) (ground arith)) in
    same_round r a b ne (ground arith) (rw here h) (there ∙ sym here)
      (λ q. absurd (ground (arith, here)))
      (final-Continues (feed_round r.state r a).request (drop (feed_round r.state r a).bytes a) b
        (rw here (feed_body-done r n e)))

pub body-Continues :
    (r : Request) (a b : Bytes) → a ≢ [] → r.state ≡ body → IsSafe r → Continues r a b
body-Continues r a b ne st safe = elim (ℤ-cases r.body_remaining) [
  | inr (n, e) ↦ absurd (ground (arith, safe.pending st))
  | inl (n, e) ↦ elim (Bool-cases (ltb (length a) n)) [
    | inl less ↦ body_partial r a b n ne st e (ground arith)
    | inr enough ↦ body_inside r a b n ne st e (ground arith)
  ]
]
