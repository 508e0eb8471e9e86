-- ===== src/Upstream/Gcd.antt =====
-- src/upstream.c: `gcd`, on the weights, which are not negative. The second argument, which falls at
-- each call, is the fuel.
use nexus_gateway.Base.{
  Bool-cases, arith, if◌then◌else◌, inl, inr, refl, suc, zero, ℕ, ◌%◌, ◌==◌, ◌≡◌, ◌≤◌,
}

unfoldable pub gcd_loop : ℕ → ℕ → ℕ → ℕ
gcd_loop zero a b = a
gcd_loop (suc fuel) a b = let rest = gcd_loop fuel b (a % b) in if b == 0 then a else rest

unfoldable pub gcd : ℕ → ℕ → ℕ
gcd a b = gcd_loop b a b

gcd_loop_enough : (n m a b : ℕ) → b ≤ n → b ≤ m → gcd_loop n a b ≡ gcd_loop m a b
unfolding gcd_loop
gcd_loop_enough zero zero a b h k = refl
gcd_loop_enough zero (suc m) a b h k = ground arith
gcd_loop_enough (suc n) zero a b h k = ground arith
gcd_loop_enough (suc n) (suc m) a b h k = elim (Bool-cases (b == 0)) [
  | inl z ↦ rw z refl
  | inr s ↦ rw s (gcd_loop_enough n m b (a % b) (ground arith) (ground arith))
]

-- `b == 0 ? a : gcd(b, a % b)`
pub gcd_lem : (a b : ℕ) → gcd a b ≡ (if b == 0 then a else gcd b (a % b))
unfolding gcd gcd_loop
gcd_lem a zero = refl
gcd_lem a (suc b) =
    let fuel = gcd_loop_enough b (a % suc b) (suc b) (a % suc b) (omega arith) (omega arith) in
    ground (arith, fuel)

gcd_runs : gcd 12 18 ≡ 6
unfolding gcd gcd_loop
gcd_runs = refl
