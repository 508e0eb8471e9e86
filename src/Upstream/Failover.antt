-- ===== src/Upstream/Failover.antt =====
-- src/upstream.c: which nodes `nexus_upstream_pick` may return, whatever the credits are.
use nexus_gateway.Base.{
  Bool-cases, arith, get_elem?, inl, inr, none, some, sym, true, ℕ, ◌==◌, ◌↔◌, ◌∙◌, ◌≡◌, ◌≢◌,
}
use nexus_gateway.Upstream.{Node, Upstream, charge, pick, pick_nodes, total_weight}
use nexus_gateway.Upstream.Cycle.{healths-charge, healths-get_elem?}
use nexus_gateway.Upstream.Ledger.{pick_nodes-Picked}
use nexus_gateway.Upstream.Settle.{pick-nodes}

-- nexus_upstream_pick returns no node exactly when no healthy node has weight.
pub pick-eq-none : (u : Upstream) → ((pick u).1 ≡ none) ↔ (total_weight u.nodes ≡ 0)
unfolding pick_nodes
pick-eq-none u = elim (Bool-cases (total_weight u.nodes == 0)) [
  | inl none_up ↦ rw (pick-nodes u).1 (ground arith)
  | inr some_up ↦
      let (b, p) = pick_nodes-Picked u.nodes (ground arith) in
      rw ((pick-nodes u).1, p.index) (ground arith)
]

-- A node that nexus_upstream_pick returns is healthy, whatever the credits are.
pub pick_healthy :
    (u : Upstream) {i : ℕ}
    → (pick u).1 ≡ some i
    → (n : Node) × (get_elem? u.nodes i ≡ some n) × (n.healthy ≡ true)
pick_healthy u {i} e =
    let weighs : total_weight u.nodes ≢ 0 = λ z. ground (arith, (pick-eq-none u).1 z) in
    let (b, p) = pick_nodes-Picked u.nodes weighs in
    let same : b ≡ i = ground (arith, (pick-nodes u).1, p.index) in
    let (n, at, up) =
      healths-get_elem? (charge u.nodes) u.nodes b {m = p.node} (healths-charge u.nodes) p.at in
    (n, rw (sym same) at, up ∙ p.is_healthy)
