-- ===== src/Tests/Balancing.antt =====
-- src/upstream.c and src/health.c at concrete inputs.
use nexus_gateway.Base.{
  Bool, List, [], arith, codes, false, get_elem?, none, refl, some, true, ℕ, ◌*◌, ◌+◌, ◌<◌, ◌↔◌,
  ◌∷◌, ◌≡◌, ◌≢◌,
}
use nexus_gateway.Base.Int.{pos, ◌+ℤ◌, ◌-ℤ◌}
use nexus_gateway.Health.{health_create, health_run, probe_node}
use nexus_gateway.Health.Streak.{probes, streak}
use nexus_gateway.Health.Unpicked.{pick-health_run}
use nexus_gateway.Upstream.{
  Node, Upstream, best_loop, better, charge, debit, pick, pick_nodes, recompute, total_weight,
}
use nexus_gateway.Upstream.Cycle.{picks_of-eq_weight, picks_of-share}
use nexus_gateway.Upstream.Failover.{pick-eq-none, pick_healthy}
use nexus_gateway.Upstream.Fairness.{serve}
use nexus_gateway.Upstream.Settle.{picks_of}

abbrev node : ℕ → Bool → Node
node weight healthy = record {
  host = codes "10.0.0.1";
  port = pos 80;
  weight = weight;
  healthy = healthy;
  active_conns = pos 0;
}

-- Weights 3 and 1, and a node that is down.
abbrev three_nodes : Upstream
three_nodes = record {
  name = codes "default";
  nodes = node 3 true ∷ node 2 false ∷ node 1 true ∷ [];
  cur_weight = 0;
  max_weight = 0;
  gcd_weight = 0;
}

-- The order of a cycle, and that the next one begins like it.
serve_test : (serve 5 three_nodes).1 ≡ some 0 ∷ some 0 ∷ some 2 ∷ some 0 ∷ some 0 ∷ []
unfolding serve pick pick_nodes charge total_weight best_loop better debit recompute ◌+ℤ◌ ◌-ℤ◌
serve_test = refl

-- With every node down there is no pick.
pick_down_test : (pick (record three_nodes { nodes = node 2 false ∷ [] })).1 ≡ none
unfolding pick pick_nodes charge total_weight recompute
pick_down_test = refl

picks_of-eq_weight_example : picks_of 0 (serve (total_weight three_nodes.nodes) three_nodes).1 ≡ 3
unfolding total_weight
picks_of-eq_weight_example =
    picks_of-eq_weight three_nodes (refl, (refl, (refl, tt))) (omega arith) 0 {n = node 3 true} refl
      refl

picks_of-share_example :
    total_weight three_nodes.nodes * picks_of 2 (serve 6 three_nodes).1
    < 6 * 1 + total_weight three_nodes.nodes
unfolding total_weight
picks_of-share_example =
    picks_of-share three_nodes (refl, (refl, (refl, tt))) (omega arith) 2 {n = node 1 true} refl
      refl 6

probes_test : (probes 2 (0, node 1 true) (true ∷ false ∷ false ∷ [])).1.healthy ≡ false
unfolding probes probe_node
probes_test = refl

-- The node that a pick of `three_nodes` returns.
pick_test : (pick three_nodes).1 ≡ some 0
unfolding pick pick_nodes charge total_weight best_loop better debit recompute ◌+ℤ◌ ◌-ℤ◌
pick_test = refl

pick_healthy_example : (n : Node) × (get_elem? three_nodes.nodes 0 ≡ some n) × (n.healthy ≡ true)
pick_healthy_example = pick_healthy three_nodes {i = 0} pick_test

pick-eq-none_example : ((pick three_nodes).1 ≡ none) ↔ (total_weight three_nodes.nodes ≡ 0)
pick-eq-none_example = pick-eq-none three_nodes

-- Two rounds in which every probe fails.
abbrev two_failures : List (ℕ → Bool)
two_failures = (λ i. false) ∷ (λ i. false) ∷ []

pick-health_run_example :
    (pick (health_run (health_create 2) two_failures three_nodes).1).1 ≢ some 0
unfolding streak
pick-health_run_example =
    pick-health_run (health_create 2) two_failures three_nodes 0 0 (node 3 true) (omega arith) refl
      refl refl (omega arith)
