-- ===== src/Proxy/Sent.antt =====
-- src/proxy.c: a request is sent whole over a socket that takes it in pieces.
use mathlib.Core.List.{append-nil, append_assoc}
use nexus_gateway.Base.{
  Bytes, [], ap, arith, drop, false, length, length-drop, refl, some, suc, sym, take, true, zero, ℕ,
  ◌++◌, ◌+◌, ◌∙◌, ◌∷◌, ◌≡◌, ◌≢◌, ◌≤◌,
}
use nexus_gateway.Proxy.{
  WriteResult, bytes_taken, forward_loop, forward_request, is_failure, would_block, write_failed,
  wrote,
}

-- The bytes that the first `n` calls take at most, from `t` on.
unfoldable pub capacity : (ℕ → WriteResult) → ℕ → ℕ → ℕ
capacity writes t zero = 0
capacity writes t (suc n) = bytes_taken (writes t) + capacity writes (t + 1) n

-- No call fails with another error than EAGAIN.
abbrev pub NeverFails : (ℕ → WriteResult) → Type 0
NeverFails writes = (t : ℕ) → writes t ≢ write_failed

is_failure_never : (r : WriteResult) → r ≢ write_failed → is_failure r ≡ false
unfolding is_failure
is_failure_never (wrote n) h = refl
is_failure_never would_block h = refl
is_failure_never write_failed h = absurd (h refl)

take-append-drop : (n : ℕ) (s : Bytes) → take n s ++ drop n s ≡ s
take-append-drop zero s = refl
take-append-drop (suc n) [] = refl
take-append-drop (suc n) (c ∷ s) = ap (◌∷◌ c) (take-append-drop n s)

forward_loop-whole :
    (n : ℕ) (writes : ℕ → WriteResult) (t : ℕ) (out rest : Bytes)
    → NeverFails writes
    → length rest ≤ capacity writes t n
    → forward_loop n writes t out rest ≡ some (out ++ rest, true)
unfolding forward_loop capacity
forward_loop-whole n writes t out [] ok enough = ap (λ s. some (s, true)) (sym (append-nil out))
forward_loop-whole zero writes t out (c ∷ rest) ok enough = absurd (omega (arith, enough))
forward_loop-whole (suc n) writes t out (c ∷ rest) ok enough =
    let m = bytes_taken (writes t) in
    let ih =
      forward_loop-whole n writes (t + 1) (out ++ take m (c ∷ rest)) (drop m (c ∷ rest)) ok
        (omega (arith, enough, length-drop m (c ∷ rest))) in
    let joined =
      append_assoc out (take m (c ∷ rest)) (drop m (c ∷ rest))
      ∙ ap (λ s. out ++ s) (take-append-drop m (c ∷ rest)) in
    rw (is_failure_never (writes t) (ok t)) (ih ∙ ap (λ s. some (s, true)) joined)

-- Over a socket whose writes fail with nothing but EAGAIN, and which in n calls is able to take
-- as many bytes as the request has, nexus_proxy_forward_request returns 0 within n calls and has
-- sent the request.
pub forward_request-whole :
    (n : ℕ) (writes : ℕ → WriteResult) (req : Bytes)
    → NeverFails writes
    → length req ≤ capacity writes 0 n
    → forward_request n writes req ≡ some (req, true)
unfolding forward_request
forward_request-whole n writes req ok enough = forward_loop-whole n writes 0 [] req ok enough
