-- ===== src/Static/Whole.antt =====
-- src/static_file.c: how much of the file the client gets.
use mathlib.Core.List.{append-nil}
use nexus_gateway.Base.{
  Bool-cases, Bytes, Option-cases, [], ap, arith, false, inl, inr, length, length-append, refl,
  some, suc, sym, zero, ℕ, ◌++◌, ◌-◌, ◌==◌, ◌∙◌, ◌∷◌, ◌≡◌, ◌≤◌,
}
use nexus_gateway.Static.{send_loop, serve_file}
use nexus_gateway.Zerocopy.{Kernel, Transfer, splice_loop, zc_splice}
use nexus_gateway.Zerocopy.Conserve.{bytes_of, splice_loop-bytes_of}
use nexus_gateway.Zerocopy.Steady.{IsLive, IsSteady, splice_loop-Sent, splice_loop-all}

-- Nothing is left in a pipe, and no byte is lost.
record Keeps (s r : Transfer) : Type 0 where
  empty : r.pipe ≡ []
  bytes : bytes_of r ≡ bytes_of s

zc_splice-Keeps :
    (k : Kernel) (len : ℕ) (s : Transfer) → IsSteady k → s.pipe ≡ [] → Keeps s (zc_splice k len s).0
unfolding zc_splice
zc_splice-Keeps k len s steady e =
    let start = record s { pipe = [] } in
    elim (Bool-cases (k.opens s.clock)) [
      | inl opened ↦ simp opened (record {
        empty = (splice_loop-Sent len k len start 0 steady refl).empty;
        bytes = splice_loop-bytes_of len k len start 0 ∙ rw e refl;
      })
      | inr failed ↦ simp failed (record { empty = e; bytes = refl })
    ]

send_loop-Keeps :
    (fuel : ℕ) (k : Kernel) (remaining : ℕ) (s : Transfer)
    → IsSteady k
    → s.pipe ≡ []
    → Keeps s (send_loop fuel k remaining s)
unfolding send_loop
send_loop-Keeps zero k remaining s steady e = record { empty = e; bytes = refl }
send_loop-Keeps (suc fuel) k remaining s steady e =
    let first = zc_splice-Keeps k remaining s steady e in
    let s' = (zc_splice k remaining s).0 in
    elim (Bool-cases (remaining == 0)) [
      | inl f ↦ simp f (record { empty = e; bytes = refl })
      | inr f ↦ elim (Option-cases (zc_splice k remaining s).1) [
        | inl g ↦ simp (f, g) first
        | inr (zero, g) ↦ simp (f, g) first
        | inr (suc m, g) ↦
            let rest = send_loop-Keeps fuel k (remaining - suc m) s' steady first.empty in
            simp (f, g) (record { empty = rest.empty; bytes = rest.bytes ∙ first.bytes })
      ]
    ]

positive-suc : (n : ℕ) → (n == 0) ≡ false → (m : ℕ) × (n ≡ suc m)
positive-suc zero e = absurd (ground (arith, e))
positive-suc (suc n) e = (n, refl)

send_loop_done : (fuel : ℕ) (k : Kernel) (s : Transfer) → send_loop fuel k 0 s ≡ s
unfolding send_loop
send_loop_done zero k s = refl
send_loop_done (suc fuel) k s = refl

-- On a live system one call sends the whole file.
send_loop-all :
    (fuel : ℕ) (k : Kernel) (s : Transfer)
    → IsSteady k
    → IsLive k
    → s.pipe ≡ []
    → s.out ≡ []
    → length s.file ≤ fuel
    → length (send_loop fuel k (length s.file) s).out ≡ length s.file
unfolding send_loop zc_splice
send_loop-all zero k s steady live e o enough = rw o (omega arith)
send_loop-all (suc fuel) k s steady live e o enough =
    let n = length s.file in
    let start = record s { pipe = [] } in
    let all = splice_loop-all n k n start 0 steady live refl (omega arith) (omega arith) in
    let sent = (splice_loop-Sent n k n start 0 steady refl).count in
    elim (Bool-cases (n == 0)) [
      | inl f ↦ simp f (rw o (ground arith))
      | inr f ↦
          let (m, e1) : (m : ℕ) × (n ≡ suc m) = positive-suc n f in
          let total : (splice_loop n k n start 0).1 ≡ suc m = all ∙ omega (arith, e1) in
          let s' = (zc_splice k n s).0 in
          let len : length s'.out ≡ n =
            rw ((live s.clock).0) (omega (arith, sent, all, ap length o)) in
          let nothing_left : n - suc m ≡ 0 = omega (arith, e1) in
          rw ((live s.clock).0, f, total)
            (ap (λ j. length (send_loop fuel k j s').out) nothing_left
              ∙ (ap (λ t. length t.out) (send_loop_done fuel k s') ∙ len))
    ]

empty-nil : (s : Bytes) → length s ≡ 0 → s ≡ []
empty-nil [] e = refl
empty-nil (x ∷ s) e = absurd (omega (arith, e))

-- Where the socket takes whatever was read, the client is sent a beginning of the file, without
-- holes, even if pipes fail to open or splices from the file move nothing.
serve_file-prefix :
    (k : Kernel) (path file : Bytes)
    → IsSteady k
    → (rest : Bytes) × ((serve_file k path (some file)).body ++ rest ≡ file)
unfolding serve_file
serve_file-prefix k path file steady =
    let start : Transfer = record { file = file; pipe = []; out = []; clock = 0 } in
    let s = send_loop (length file) k (length file) start in
    let kept = send_loop-Keeps (length file) k (length file) start steady refl in
    (s.file, ap (λ p. s.out ++ (p ++ s.file)) (sym kept.empty) ∙ kept.bytes)

-- Where every pipe opens, every splice from the file moves something and the socket takes
-- whatever was read, the client is sent the whole file.
pub serve_file-whole :
    (k : Kernel) (path file : Bytes)
    → IsSteady k
    → IsLive k
    → (serve_file k path (some file)).body ≡ file
unfolding serve_file
serve_file-whole k path file steady live =
    let start : Transfer = record { file = file; pipe = []; out = []; clock = 0 } in
    let (rest, e) = serve_file-prefix k path file steady in
    let all = send_loop-all (length file) k start steady live refl refl (omega arith) in
    let none_left = empty-nil rest (omega (arith, length-append _ rest, ap length e, all)) in
    let sent = (send_loop (length file) k (length file) start).out in
    sym (append-nil sent) ∙ (ap (λ r. sent ++ r) (sym none_left) ∙ e)
