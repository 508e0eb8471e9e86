-- ===== src/Health/Unpicked.antt =====
-- src/health.c and src/upstream.c: the checker's rounds, and the node that is picked behind them.
use nexus_gateway.Base.{
  Bool, List, [], ap, arith, get_elem?, get_elem?-unique, map, refl, some, suc, zero, ℕ, ◌+◌, ◌<◌,
  ◌∙◌, ◌∷◌, ◌≡◌, ◌≢◌, ◌≤◌,
}
use nexus_gateway.Health.{Checker, health_round, health_run, probe_node, probe_round}
use nexus_gateway.Health.Streak.{Agrees, probes, probes-healthy, streak}
use nexus_gateway.Upstream.{Node, Upstream, pick}
use nexus_gateway.Upstream.Failover.{pick_healthy}

-- A round moves each node by its own probe.
probe_round-node :
    (threshold : ℕ) (ok : ℕ → Bool) (i j : ℕ) (fs : List ℕ) (ns : List Node) (f : ℕ) (n : Node)
    → get_elem? fs j ≡ some f
    → get_elem? ns j ≡ some n
    → (get_elem? (probe_round threshold ok i fs ns).0 j
        ≡ some (probe_node threshold (ok (i + j)) f n).0)
      × (get_elem? (probe_round threshold ok i fs ns).1 j
          ≡ some (probe_node threshold (ok (i + j)) f n).1)
unfolding probe_round
probe_round-node threshold ok i j [] ns f n e g = cc
probe_round-node threshold ok i j (x ∷ fs) [] f n e g = cc
probe_round-node threshold ok i zero (x ∷ fs) (y ∷ ns) f n e g =
    let same : x ≡ f = cc in
    let same' : y ≡ n = cc in
    let here : i + 0 ≡ i = omega arith in rw (same, same', here) (refl, refl)
probe_round-node threshold ok i (suc j) (x ∷ fs) (y ∷ ns) f n e g =
    let moved_on : i + suc j ≡ i + 1 + j = omega arith in
    rw moved_on (probe_round-node threshold ok (i + 1) j fs ns f n e g)

-- What the rounds found of the node `i`.
abbrev pub outcomes : ℕ → List (ℕ → Bool) → List Bool
outcomes i oks = map (λ (ok : ℕ → Bool). ok i) oks

health_run-node :
    (oks : List (ℕ → Bool)) (c : Checker) (u : Upstream) (i f : ℕ) (n : Node)
    → get_elem? c.fail_count i ≡ some f
    → get_elem? u.nodes i ≡ some n
    → get_elem? (health_run c oks u).1.nodes i
      ≡ some (probes c.fail_threshold (f, n) (outcomes i oks)).1
unfolding health_run health_round probes
health_run-node [] c u i f n e g = g
health_run-node (ok ∷ oks) c u i f n e g =
    let r = health_round c ok u in
    let (e', g') = probe_round-node c.fail_threshold ok 0 i c.fail_count u.nodes f n e g in
    let here : 0 + i ≡ i = omega arith in
    let s = probe_node c.fail_threshold (ok i) f n in
    health_run-node oks r.0 r.1 i s.0 s.1
      (e' ∙ ap (λ k. some (probe_node c.fail_threshold (ok k) f n).0) here)
      (g' ∙ ap (λ k. some (probe_node c.fail_threshold (ok k) f n).1) here)

-- With a positive threshold, a node that was in step with its counter and whose last threshold
-- probes, or more, failed is not the one that nexus_upstream_pick returns behind those rounds.
pub pick-health_run :
    (c : Checker) (oks : List (ℕ → Bool)) (u : Upstream) (i f : ℕ) (n : Node)
    → 0 < c.fail_threshold
    → get_elem? c.fail_count i ≡ some f
    → get_elem? u.nodes i ≡ some n
    → Agrees c.fail_threshold f n
    → c.fail_threshold ≤ streak f (outcomes i oks)
    → (pick (health_run c oks u).1).1 ≢ some i
pick-health_run c oks u i f n h e g agrees failing picked =
    let up = (health_run c oks u).1 in
    let (m, at, up_now) = pick_healthy up picked in
    let last = health_run-node oks c u i f n e g in
    let same = get_elem?-unique up.nodes i at last in
    let health = probes-healthy c.fail_threshold f n (outcomes i oks) h agrees in
    let state = ap (λ (x : Node). x.healthy) same ∙ health in ground (arith, up_now, state, failing)
