-- ===== src/Util/Atoi.antt =====
-- `atoi` of the C library: leading white space, a sign, and digits up to the first other byte. The
-- number is exact: where it does not fit an `int`, C leaves the result undefined.
use nexus_gateway.Base.{
  Bool, Bytes, [], codes, if◌then◌else◌, leb, refl, suc, zero, ℕ, ◌&&◌, ◌*◌, ◌+◌, ◌-◌, ◌==◌, ◌||◌,
  ◌∷◌, ◌≡◌,
}
use nexus_gateway.Base.Int.{negsuc, pos, ℤ}

-- `isspace` in the C locale.
unfoldable pub is_space : ℕ → Bool
is_space c = c == b' ' || leb 9 c && leb c 13

unfoldable pub is_digit : ℕ → Bool
is_digit c = leb b'0' c && leb c b'9'

unfoldable pub skip_space : Bytes → Bytes
skip_space [] = []
skip_space (c ∷ cs) = if is_space c then skip_space cs else c ∷ cs

unfoldable pub digits_from : ℕ → Bytes → ℕ
digits_from n [] = n
digits_from n (c ∷ cs) =
    let more = digits_from (n * 10 + (c - 48)) cs in if is_digit c then more else n

unfoldable pub minus : ℕ → ℤ
minus zero = pos 0
minus (suc n) = negsuc n

unfoldable pub signed : Bytes → ℤ
signed [] = pos 0
signed (c ∷ cs) =
    if c == b'-'
    then minus (digits_from 0 cs)
    else if c == b'+'
    then pos (digits_from 0 cs)
    else pos (digits_from 0 (c ∷ cs))

unfoldable pub atoi : Bytes → ℤ
unfolding is_space is_digit skip_space digits_from minus signed
atoi s = signed (skip_space s)

atoi_runs : (atoi (codes " 12ab") ≡ pos 12) × (atoi (codes "-7") ≡ negsuc 6)
unfolding atoi
atoi_runs = (refl, refl)
