-- ===== src/Gateway/Restarted.antt =====
-- src/master.c: what the actions of a whole restart leave of the old processes.
use nexus_gateway.Base.{
  All, All-get_elem?, Bool, Bool-cases, List, [], ap, arith, false, get_elem?, inl, inr, length,
  map, refl, some, subst, suc, sym, true, zero, ℕ, ◌&&◌, ◌++◌, ◌+◌, ◌<◌, ◌∙◌, ◌∷◌, ◌≡◌, ◌⊎◌,
}
use nexus_gateway.Base.Int.{eq_ℤ, eq_ℤ_refl, ltb_ℤ, pos, ℤ}
use nexus_gateway.Config.{Config, config_load}
use nexus_gateway.Gateway.{Peer, System, act, act_all, end_pid, ended}
use nexus_gateway.Master.Drained.{killed-survivors, stays, survivors}
use nexus_gateway.Master.Restart.{
  Action, Master, RestartEnv, bump_generation, fork_worker, kill_worker, killed, restart,
  set_shutting_down, spawn_all, write_config,
}

-- Every process with the pid has ended.
abbrev HasEnded : ℤ → Peer → Type 0
HasEnded pid p = p.pid ≡ pid → p.phase ≡ ended

abbrev AllEnded : ℤ → System → Type 0
AllEnded pid s = All (HasEnded pid) s.peers

end_pid-HasEnded : (pid : ℤ) (p : Peer) → HasEnded pid (end_pid pid p)
end_pid-HasEnded pid p = elim (Bool-cases (eq_ℤ p.pid pid)) [
  | inl e ↦ rw e (λ same. refl)
  | inr e ↦ rw e (λ same. absurd (ground (arith, e, eq_ℤ_refl p.pid pid same)))
]

end_pid-keeps : (other pid : ℤ) (p : Peer) → HasEnded pid p → HasEnded pid (end_pid other p)
end_pid-keeps other pid p h = elim (Bool-cases (eq_ℤ p.pid other)) [
  | inl e ↦ rw e (λ same. refl)
  | inr e ↦ rw e h
]

kill-AllEnded : (pid : ℤ) (ps : List Peer) → All (HasEnded pid) (map (end_pid pid) ps)
kill-AllEnded pid [] = tt
kill-AllEnded pid (p ∷ ps) = (end_pid-HasEnded pid p, kill-AllEnded pid ps)

kill-keeps :
    (other pid : ℤ) (ps : List Peer)
    → All (HasEnded pid) ps
    → All (HasEnded pid) (map (end_pid other) ps)
kill-keeps other pid [] h = tt
kill-keeps other pid (p ∷ ps) h = (end_pid-keeps other pid p h.0, kill-keeps other pid ps h.1)

act_all-append :
    (xs ys : List Action) (s : System) → act_all (xs ++ ys) s ≡ act_all ys (act_all xs s)
unfolding act_all
act_all-append [] ys s = refl
act_all-append (x ∷ xs) ys s = act_all-append xs ys (act x s)

-- The processes are killed one after another.
kills-keep :
    (pid : ℤ) (ks : List ℤ) (s : System)
    → AllEnded pid s
    → AllEnded pid (act_all (map kill_worker ks) s)
unfolding act_all act
kills-keep pid [] s h = h
kills-keep pid (k ∷ ks) s h =
    kills-keep pid ks (record s { peers = map (end_pid k) s.peers }) (kill-keeps k pid s.peers h)

kills-AllEnded :
    (pid : ℤ) (ks : List ℤ) (i : ℕ) (s : System)
    → get_elem? ks i ≡ some pid
    → AllEnded pid (act_all (map kill_worker ks) s)
unfolding act_all act
kills-AllEnded pid [] i s e = cc
kills-AllEnded pid (k ∷ ks) zero s e =
    let same : k ≡ pid = cc in
    kills-keep pid ks (record s { peers = map (end_pid k) s.peers })
      (subst (λ q. All (HasEnded pid) (map (end_pid q) s.peers)) (sym same)
        (kill-AllEnded pid s.peers))
kills-AllEnded pid (k ∷ ks) (suc i) s e =
    kills-AllEnded pid ks i (record s { peers = map (end_pid k) s.peers }) e

-- A process stays in every round, or is waited for in one.
stays-cases :
    (exited : ℕ → ℤ → Bool) (t n : ℕ) (p : ℤ)
    → (stays exited t n p ≡ true) ⊎ ((k : ℕ) × (k < t + n) × (exited k p ≡ true))
unfolding stays
stays-cases exited t zero p = inl refl
stays-cases exited t (suc n) p = elim (Bool-cases (exited t p)) [
  | inl e ↦ inr (t, omega arith, e)
  | inr e ↦ elim (stays-cases exited (t + 1) n p) [
    | inl all ↦ inl (ground (arith, e, all))
    | inr (k, small, f) ↦ inr (k, omega (arith, small), f)
  ]
]

survivors-member :
    (exited : ℕ → ℤ → Bool) (t n : ℕ) (ps : List ℤ) (j : ℕ) (p : ℤ)
    → get_elem? ps j ≡ some p
    → ltb_ℤ (pos 0) p ≡ true
    → stays exited t n p ≡ true
    → (i : ℕ) × (get_elem? (survivors exited t n ps) i ≡ some p)
unfolding survivors
survivors-member exited t n [] j p e forked all = cc
survivors-member exited t n (q ∷ ps) zero p e forked all =
    let same : q ≡ p = cc in
    let kept : (ltb_ℤ (pos 0) q && stays exited t n q) ≡ true =
      rw same (ground (arith, forked, all)) in
    rw kept (0, e)
survivors-member exited t n (q ∷ ps) (suc j) p e forked all =
    let (i, at) = survivors-member exited t n ps j p e forked all in
    elim (Bool-cases (ltb_ℤ (pos 0) q && stays exited t n q)) [
      | inl kept ↦ rw kept (suc i, at)
      | inr dropped ↦ rw dropped (i, at)
    ]

-- Whatever is done before the kills and the last store.
finish-AllEnded :
    (pid : ℤ) (before : List Action) (ks : List ℤ) (i : ℕ) (s : System)
    → get_elem? ks i ≡ some pid
    → AllEnded pid (act_all (before ++ (map kill_worker ks ++ set_shutting_down false ∷ [])) s)
unfolding act_all act
finish-AllEnded pid before ks i s e =
    let begun = act_all before s in
    let parts =
      act_all-append before (map kill_worker ks ++ set_shutting_down false ∷ []) s
      ∙ act_all-append (map kill_worker ks) (set_shutting_down false ∷ []) begun in
    subst (AllEnded pid) (sym parts) (kills-AllEnded pid ks i begun e)

restart_finish :
    (m : Master) (env : RestartEnv) {new_cfg : Config}
    → config_load env.file ≡ some new_cfg
    → (before : List Action) × ((restart m env).1
        ≡ before ++ (map kill_worker (killed m env) ++ set_shutting_down false ∷ []))
unfolding restart
restart_finish m env {new_cfg} loaded =
    let forks = map (fork_worker new_cfg) (spawn_all env.forks 0 (length m.worker_pids)) in
    (
      write_config new_cfg ∷ bump_generation ∷ set_shutting_down true ∷ forks,
      rw (loaded, restart) refl,
    )

-- Behind the actions of a restart whose configuration is loaded, a process that has the pid of an
-- old worker has ended, or was waited for in one of the 30 rounds.
pub restart_ends_old :
    (m : Master) (env : RestartEnv) (s : System) (i j : ℕ) (p : Peer) {new_cfg : Config}
    → config_load env.file ≡ some new_cfg
    → get_elem? (act_all (restart m env).1 s).peers i ≡ some p
    → get_elem? m.worker_pids j ≡ some p.pid
    → ltb_ℤ (pos 0) p.pid ≡ true
    → (p.phase ≡ ended) ⊎ ((t : ℕ) × (t < 30) × (env.exited t p.pid ≡ true))
restart_ends_old m env s i j p loaded at old forked = elim (stays-cases env.exited 0 30 p.pid) [
  | inr waited ↦ inr waited
  | inl all ↦
      let (before, actions) = restart_finish m env loaded in
      let (k, member) = survivors-member env.exited 0 30 m.worker_pids j p.pid old forked all in
      let killed_at = ap (λ ks. get_elem? ks k) (killed-survivors m env) ∙ member in
      let done_for = finish-AllEnded p.pid before (killed m env) k s killed_at in
      let after = subst (λ l. AllEnded p.pid (act_all l s)) (sym actions) done_for in
      inl (All-get_elem? (HasEnded p.pid) (act_all (restart m env).1 s).peers i after at refl)
]
