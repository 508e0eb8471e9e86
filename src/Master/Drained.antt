-- ===== src/Master/Drained.antt =====
-- src/master.c: which processes a restart kills.
use nexus_gateway.Base.{
  Bool, Bool-cases, List, [], arith, if◌then◌else◌, inl, inr, not, refl, suc, sym, true, zero, ℕ,
  ◌&&◌, ◌+◌, ◌==◌, ◌∙◌, ◌∷◌, ◌≡◌,
}
use nexus_gateway.Base.Int.{ltb_ℤ, pos, ℤ}
use nexus_gateway.Master.Restart.{Master, RestartEnv, drain_loop, drain_round, kill_left, killed}

-- The process is not waited for in any of the `n` rounds from `t` on.
unfoldable pub stays : (ℕ → ℤ → Bool) → ℕ → ℕ → ℤ → Bool
stays exited t zero p = true
stays exited t (suc n) p = not (exited t p) && stays exited (t + 1) n p

-- The processes among `ps` that stay.
unfoldable pub survivors : (ℕ → ℤ → Bool) → ℕ → ℕ → List ℤ → List ℤ
survivors exited t n [] = []
survivors exited t n (p ∷ ps) =
    if ltb_ℤ (pos 0) p && stays exited t n p
    then p ∷ survivors exited t n ps
    else survivors exited t n ps

survivors_now :
    (exited : ℕ → ℤ → Bool) (t : ℕ) (ps : List ℤ) → kill_left ps ≡ survivors exited t 0 ps
unfolding kill_left survivors stays
survivors_now exited t [] = refl
survivors_now exited t (p ∷ ps) = ground (arith, survivors_now exited t ps)

survivors-drain_round :
    (exited : ℕ → ℤ → Bool) (t n : ℕ) (ps : List ℤ)
    → survivors exited (t + 1) n (drain_round (exited t) ps).0 ≡ survivors exited t (suc n) ps
unfolding drain_round survivors stays
survivors-drain_round exited t n [] = refl
survivors-drain_round exited t n (p ∷ ps) = ground (arith, survivors-drain_round exited t n ps)

kill_left_none :
    (exited : ℤ → Bool) (ps : List ℤ)
    → (drain_round exited ps).1 ≡ 0
    → kill_left (drain_round exited ps).0 ≡ []
unfolding drain_round kill_left
kill_left_none exited [] e = refl
kill_left_none exited (p ∷ ps) e = ground (arith, kill_left_none exited ps)

survivors_none :
    (exited : ℕ → ℤ → Bool) (t n : ℕ) (ps : List ℤ)
    → kill_left ps ≡ []
    → survivors exited t n ps ≡ []
unfolding kill_left survivors
survivors_none exited t n [] e = refl
survivors_none exited t n (p ∷ ps) e = ground (arith, survivors_none exited t n ps)

pub kill_left-drain_loop :
    (exited : ℕ → ℤ → Bool) (n t : ℕ) (ps : List ℤ)
    → kill_left (drain_loop n exited t ps) ≡ survivors exited t n ps
unfolding drain_loop
kill_left-drain_loop exited zero t ps = survivors_now exited t ps
kill_left-drain_loop exited (suc n) t ps =
    let ps' = (drain_round (exited t) ps).0 in
    let ih = kill_left-drain_loop exited n (t + 1) ps' in
    let same = survivors-drain_round exited t n ps in
    elim (Bool-cases ((drain_round (exited t) ps).1 == 0)) [
      | inl e ↦
          let gone = kill_left_none (exited t) ps (ground (arith, e)) in
          simp e (gone ∙ (sym (survivors_none exited (t + 1) n ps' gone) ∙ same))
      | inr e ↦ simp e (ih ∙ same)
    ]

-- The old processes that a restart kills are exactly those that were forked and are not waited
-- for in any of the 30 rounds, in their order, though the loop stops early when none is left.
pub killed-survivors :
    (m : Master) (env : RestartEnv) → killed m env ≡ survivors env.exited 0 30 m.worker_pids
unfolding killed
killed-survivors m env = kill_left-drain_loop env.exited 30 0 m.worker_pids
