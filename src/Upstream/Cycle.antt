-- ===== src/Upstream/Cycle.antt =====
-- src/upstream.c: how often `nexus_upstream_pick` returns a node, from a fresh upstream.
use nexus_gateway.Base.{
  All, All-get_elem?, Bool, Bool-cases, List, Option, Option-cases, [], ap, arith, get_elem?,
  get_elem?-unique, inl, inr, leb, leb→le, map, none, refl, some, suc, true, zero, ℕ, ◌*◌, ◌+◌, ◌<◌,
  ◌∙◌, ◌∷◌, ◌≡◌, ◌≤◌,
}
use nexus_gateway.Base.Int.{int_laws, neg_part, pos, pos_part, ◌+ℤ◌, ◌≤ℤ◌}
use nexus_gateway.Upstream.{
  Node, Upstream, best_loop, charge, debit, pick, pick_nodes, total_weight,
}
use nexus_gateway.Upstream.Fairness.{IsFresh, IsFresh-IsBalanced, serve, serve-Served}
use nexus_gateway.Upstream.Ledger.{credit_sum}
use nexus_gateway.Upstream.Settle.{Owes, pick-nodes, picks_of}

module _ (u : Upstream) (fresh : IsFresh u.nodes) (positive : 0 < total_weight u.nodes) (i : ℕ)
    {n : Node} (e : get_elem? u.nodes i ≡ some n) (up : n.healthy ≡ true) where
  -- From a fresh upstream whose healthy nodes have a positive total weight, in k calls, a healthy
  -- node is picked fewer than k * weight / total + 1 times.
  pub picks_of-share :
      (k : ℕ)
      → total_weight u.nodes * picks_of i (serve k u).1 < k * n.weight + total_weight u.nodes
  picks_of-share k =
      let (bal, s) =
        serve-Served k _ u i {n = n} (IsFresh-IsBalanced u.nodes positive fresh) e up in
      let owed =
        All-get_elem? (Owes (total_weight u.nodes)) _ i bal.owes s.at (s.same_health ∙ up) in
      let start = All-get_elem? (λ m. m.active_conns ≡ pos 0) _ i fresh e in
      omega (arith, s.settles, owed, ap pos_part start, ap neg_part start)

abbrev Solvent : Node → Type 0
Solvent n = n.healthy ≡ true → neg_part n.active_conns ≤ pos_part n.active_conns

credit_sum-Solvent : (ns : List Node) → All Solvent ns → pos 0 ≤ℤ credit_sum ns
unfolding credit_sum
credit_sum-Solvent [] h = omega arith
credit_sum-Solvent (n ∷ ns) h = elim (Bool-cases n.healthy) [
  | inl up ↦ simp up (omega (int_laws, h.0 up, credit_sum-Solvent ns h.1))
  | inr down ↦ simp down (credit_sum-Solvent ns h.1)
]

-- Where no healthy node is in debt and the credits add up to nothing, none has credit.
Solvent-level :
    (ns : List Node) (i : ℕ) {n : Node}
    → All Solvent ns
    → credit_sum ns ≤ℤ pos 0
    → get_elem? ns i ≡ some n
    → n.healthy ≡ true
    → pos_part n.active_conns ≤ neg_part n.active_conns
unfolding credit_sum
Solvent-level [] i h l e up = cc
Solvent-level (m ∷ ns) zero h l e up =
    let up' : m.healthy ≡ true = ground arith in
    let l' : m.active_conns +ℤ credit_sum ns ≤ℤ pos 0 = simp up' at l in
    let below : pos_part m.active_conns ≤ neg_part m.active_conns =
      omega (int_laws, l', credit_sum-Solvent ns h.1) in
    ground (arith, below)
Solvent-level (m ∷ ns) (suc i) {n} h l e up = elim (Bool-cases m.healthy) [
  | inl up' ↦
      let l' : m.active_conns +ℤ credit_sum ns ≤ℤ pos 0 = simp up' at l in
      Solvent-level ns i {n = n} h.1 (omega (int_laws, l', h.0 up')) e up
  | inr down ↦ Solvent-level ns i {n = n} h.1 (simp down at l) e up
]

abbrev pub healths : List Node → List Bool
healths = map (λ n. n.healthy)

pub healths-charge : (ns : List Node) → healths (charge ns) ≡ healths ns
unfolding charge
healths-charge [] = refl
healths-charge (n ∷ ns) = ground (arith, healths-charge ns)

healths-debit : (ns : List Node) (b total : ℕ) → healths (debit b total ns) ≡ healths ns
unfolding debit
healths-debit [] b total = refl
healths-debit (n ∷ ns) zero total = refl
healths-debit (n ∷ ns) (suc b) total = ap (◌∷◌ n.healthy) (healths-debit ns b total)

healths-pick_nodes : (ns : List Node) → healths (pick_nodes ns).0 ≡ healths ns
unfolding pick_nodes
healths-pick_nodes ns = elim (Option-cases (best_loop 0 none (charge ns))) [
  | inl e ↦ ground (arith, e, healths-charge ns)
  | inr ((b, v), e) ↦
      ground (arith, e, healths-charge ns, healths-debit (charge ns) b (total_weight ns))
]

healths-serve : (k : ℕ) (u : Upstream) → healths (serve k u).0.nodes ≡ healths u.nodes
unfolding serve
healths-serve zero u = refl
healths-serve (suc k) u =
    healths-serve k (pick u).0 ∙ rw (pick-nodes u).0 (healths-pick_nodes u.nodes)

-- A node that is healthy afterwards was so before.
pub healths-get_elem? :
    (ms ns : List Node) (i : ℕ) {m : Node}
    → healths ms ≡ healths ns
    → get_elem? ms i ≡ some m
    → (n : Node) × (get_elem? ns i ≡ some n) × (n.healthy ≡ m.healthy)
healths-get_elem? [] ns i h e = cc
healths-get_elem? (x ∷ ms) [] i h e = cc
healths-get_elem? (x ∷ ms) (y ∷ ns) zero h e = (y, refl, ground arith)
healths-get_elem? (x ∷ ms) (y ∷ ns) (suc i) h e = healths-get_elem? ms ns i (ground arith) e

All-of_get_elem? {ℓ} :
    (P : Node → Type ℓ) (ns : List Node)
    → ((i : ℕ) (n : Node) → get_elem? ns i ≡ some n → P n)
    → All P ns
All-of_get_elem? P [] f = tt
All-of_get_elem? P (n ∷ ns) f = (f 0 n refl, All-of_get_elem? P ns (λ i. f (suc i)))

mul_cancel : (t c w : ℕ) → 0 < t → t * c ≡ t * w → c ≡ w
mul_cancel t c w h e = grind arith

-- A debt that is a multiple of the total weight, and below it, is none.
no_debt : (t c w a d : ℕ) → a + t * c ≡ d + t * w → d < t + a → d ≤ a
no_debt t c w a d e h = elim (Bool-cases (leb c w)) [
  | inl small ↦
      let small' : c ≤ w = leb→le c w small in let le : t * c ≤ t * w = grind arith in omega arith
  | inr big ↦
      let lt : w + 1 ≤ c = ground arith in let le : t * (w + 1) ≤ t * c = grind arith in omega arith
]

module _ (u : Upstream) (fresh : IsFresh u.nodes) (positive : 0 < total_weight u.nodes) where
  abbrev cycle : Upstream × List (Option ℕ)
  cycle = serve (total_weight u.nodes) u

  cycle-Solvent : All Solvent cycle.0.nodes
  cycle-Solvent = All-of_get_elem? Solvent _ λ i m e up.
      let (n, at, same) = healths-get_elem? _ u.nodes i (healths-serve _ u) e in
      let (bal, s) =
        serve-Served (total_weight u.nodes) _ u i {n = n}
          (IsFresh-IsBalanced u.nodes positive fresh) at (same ∙ up) in
      let start = All-get_elem? (λ m. m.active_conns ≡ pos 0) _ i fresh at in
      let owed = All-get_elem? (Owes (total_weight u.nodes)) _ i bal.owes e up in
      let it : s.node ≡ m = get_elem?-unique _ i s.at e in
      no_debt _ (picks_of i cycle.1) n.weight _ _
        (omega (
          arith,
          s.settles,
          ap pos_part start,
          ap neg_part start,
          ap (λ (x : Node). pos_part x.active_conns) it,
          ap (λ (x : Node). neg_part x.active_conns) it,
        ))
        owed

  -- From a fresh upstream whose healthy nodes have a positive total weight, in as many calls of
  -- nexus_upstream_pick as that total, a healthy node is picked exactly as often as its weight
  -- says.
  pub picks_of-eq_weight :
      (i : ℕ) {n : Node}
      → get_elem? u.nodes i ≡ some n
      → n.healthy ≡ true
      → picks_of i (serve (total_weight u.nodes) u).1 ≡ n.weight
  picks_of-eq_weight i {n} e up =
      let (bal, s) =
        serve-Served (total_weight u.nodes) _ u i {n = n}
          (IsFresh-IsBalanced u.nodes positive fresh) e up in
      let low =
        Solvent-level _ i {n = s.node} cycle-Solvent (rw bal.level (omega arith)) s.at
          (s.same_health ∙ up) in
      let high = All-get_elem? Solvent _ i cycle-Solvent s.at (s.same_health ∙ up) in
      let start = All-get_elem? (λ m. m.active_conns ≡ pos 0) _ i fresh e in
      mul_cancel _ _ _ positive
        (omega (arith, s.settles, low, high, ap pos_part start, ap neg_part start))
