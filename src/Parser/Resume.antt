-- ===== src/Parser/Resume.antt =====
-- src/http_parser.c: a call of `nexus_http_req_feed` that goes on from another, and one round of it.
use nexus_gateway.Base.{
  Bool-cases, Bytes, Option, [], ap, arith, drop, false, inl, inr, length, none, refl, some, suc,
  sym, true, zero, ℕ, ◌++◌, ◌+◌, ◌∙◌, ◌∷◌, ◌≡◌, ◌≢◌, ◌≤◌,
}
use nexus_gateway.Parser.{Request, feed_round, is_final}
use nexus_gateway.Parser.Fuel.{feed_all, feed_all-final, feed_all-round, feed_all-stop, shift}

-- The next call, behind one on `a`: it gets what that one left, and more.
unfoldable pub resume : Bytes → Bytes → Option (Request × ℕ) → Option (Request × ℕ)
resume a b none = none
resume a b (some (r, n)) = shift n (feed_all r (drop n a ++ b))

pub drop_append_le : (k : ℕ) (a b : Bytes) → k ≤ length a → drop k (a ++ b) ≡ drop k a ++ b
drop_append_le zero a b h = refl
drop_append_le (suc k) [] b h = absurd (omega arith)
drop_append_le (suc k) (x ∷ a) b h = drop_append_le k a b (omega arith)

pub suc_add : (k m : ℕ) → suc k + m ≡ suc (k + m)
suc_add k m = omega arith

pub drop_nil : (m : ℕ) → drop {A = ℕ} m [] ≡ []
drop_nil zero = refl
drop_nil (suc m) = refl

pub drop_add : (k m : ℕ) (a : Bytes) → drop (k + m) a ≡ drop m (drop k a)
drop_add zero m a = ap (λ n. drop n a) (omega arith)
drop_add (suc k) m [] = rw (suc_add k m) (sym (drop_nil m))
drop_add (suc k) m (x ∷ a) = rw (suc_add k m) (drop_add k m a)

pub shift-zero : (o : Option (Request × ℕ)) → shift 0 o ≡ o
shift-zero none = refl
shift-zero (some (r, n)) = ap (λ (m : ℕ). some (r, m)) (omega arith)

pub shift-shift : (k m : ℕ) (o : Option (Request × ℕ)) → shift k (shift m o) ≡ shift (k + m) o
shift-shift k m none = refl
shift-shift k m (some (r, n)) = ap (λ (m : ℕ). some (r, m)) (omega arith)

pub resume-shift :
    (k : ℕ) (a b : Bytes) (o : Option (Request × ℕ))
    → resume a b (shift k o) ≡ shift k (resume (drop k a) b o)
unfolding resume
resume-shift k a b none = refl
resume-shift k a b (some (r, m)) = rw drop_add (sym (shift-shift k m _))

-- What a call on `a` leaves, a call on `b` goes on from.
abbrev pub Continues : Request → Bytes → Bytes → Type 0
Continues r a b = feed_all r (a ++ b) ≡ resume a b (feed_all r a)

pub append-ne-nil_left : (a b : Bytes) → a ≢ [] → a ++ b ≢ []
append-ne-nil_left [] b h = absurd (h refl)
append-ne-nil_left (x ∷ a) b h = λ e. cc

-- A round that more bytes do not change.
pub same_round :
    (r : Request) (a b : Bytes)
    → a ≢ []
    → is_final r.state ≡ false
    → (feed_round r.state r a).bytes ≤ length a
    → feed_round r.state r (a ++ b) ≡ feed_round r.state r a
    → ((feed_round r.state r a).more ≡ false
        → is_final (feed_round r.state r a).request.state ≡ true)
    → Continues (feed_round r.state r a).request (drop (feed_round r.state r a).bytes a) b
    → Continues r a b
unfolding resume
same_round r a b ne going inside same ends rest =
    let s = feed_round r.state r a in
    let ne' = append-ne-nil_left a b ne in
    elim (Bool-cases s.more) [
      | inr stop ↦
          feed_all-stop r (a ++ b) ne' going (rw same stop)
          ∙ rw (feed_all-stop r a ne going stop)
              (rw (same, feed_all-final s.request (a ++ b) (ends stop)) refl)
      | inl more ↦
          feed_all-round r (a ++ b) ne' going (rw same more)
          ∙ rw (same, drop_append_le s.bytes a b inside, rest, feed_all-round r a ne going more)
              (sym (resume-shift s.bytes a b (feed_all s.request (drop s.bytes a))))
    ]

-- A call that ends inside a line.
pub stopped-Continues : (r : Request) (a b : Bytes) → feed_all r a ≡ some (r, 0) → Continues r a b
unfolding resume
stopped-Continues r a b e = rw e (sym (shift-zero _))

pub final-Continues : (r : Request) (a b : Bytes) → is_final r.state ≡ true → Continues r a b
unfolding resume
final-Continues r a b e =
    rw (feed_all-final r (a ++ b) e, feed_all-final r a e, feed_all-final r (a ++ b) e) refl
