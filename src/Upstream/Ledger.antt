-- ===== src/Upstream/Ledger.antt =====
-- src/upstream.c: what one call of `nexus_upstream_pick` does to each node, and to the sum of credit.
use nexus_gateway.Base.{
  Bool-cases, List, [], ap, arith, get_elem?, if◌then◌else◌, inl, inr, none, refl, some, suc, true,
  zero, ℕ, ◌+◌, ◌∷◌, ◌≡◌, ◌≢◌,
}
use nexus_gateway.Base.Int.{int_laws, pos, ℤ, ◌+ℤ◌, ◌-ℤ◌, ◌≤ℤ◌}
use nexus_gateway.Upstream.{Node, best_loop, charge, debit, pick_nodes, total_weight}
use nexus_gateway.Upstream.Best.{AtMost, Best, NoneHealthy, best_loop-Best, found, nothing}

-- The sum of the credit of the healthy nodes.
unfoldable pub credit_sum : List Node → ℤ
credit_sum [] = pos 0
credit_sum (n ∷ ns) = if n.healthy then n.active_conns +ℤ credit_sum ns else credit_sum ns

-- The sum over all nodes.
unfoldable pub all_credit : List Node → ℤ
all_credit [] = pos 0
all_credit (n ∷ ns) = n.active_conns +ℤ all_credit ns

-- Node `n` after the first loop.
abbrev pub charged_node : Node → Node
charged_node n = if n.healthy then record n { active_conns = n.active_conns +ℤ pos n.weight } else n

pub get_elem?-charge :
    (ns : List Node) (i : ℕ) {n : Node}
    → get_elem? ns i ≡ some n
    → get_elem? (charge ns) i ≡ some (charged_node n)
unfolding charge
get_elem?-charge [] i e = cc
get_elem?-charge (n ∷ ns) zero e = ground arith
get_elem?-charge (n ∷ ns) (suc i) e = get_elem?-charge ns i e

pub get_elem?-debit_self :
    (ns : List Node) (b total : ℕ) {n : Node}
    → get_elem? ns b ≡ some n
    → get_elem? (debit b total ns) b
      ≡ some (record n { active_conns = n.active_conns -ℤ pos total })
unfolding debit
get_elem?-debit_self [] b total e = cc
get_elem?-debit_self (n ∷ ns) zero total e = ground arith
get_elem?-debit_self (n ∷ ns) (suc b) total e = get_elem?-debit_self ns b total e

pub get_elem?-debit_ne :
    (ns : List Node) (b total i : ℕ) → b ≢ i → get_elem? (debit b total ns) i ≡ get_elem? ns i
unfolding debit
get_elem?-debit_ne [] b total i h = refl
get_elem?-debit_ne (n ∷ ns) zero total zero h = absurd (h refl)
get_elem?-debit_ne (n ∷ ns) zero total (suc i) h = refl
get_elem?-debit_ne (n ∷ ns) (suc b) total zero h = refl
get_elem?-debit_ne (n ∷ ns) (suc b) total (suc i) h =
    get_elem?-debit_ne ns b total i (λ e. h (ap suc e))

earn : (a c : ℤ) (w t : ℕ) → a +ℤ pos w +ℤ (c +ℤ pos t) ≡ a +ℤ c +ℤ pos (w + t)
earn a c w t = omega int_laws

keep : (a c : ℤ) (t : ℕ) → a +ℤ (c +ℤ pos t) ≡ a +ℤ c +ℤ pos (0 + t)
keep a c t = omega int_laws

pay : (a c : ℤ) (t : ℕ) → a +ℤ (c -ℤ pos t) ≡ a +ℤ c -ℤ pos t
pay a c t = omega int_laws

pay_here : (a c : ℤ) (t : ℕ) → a -ℤ pos t +ℤ c ≡ a +ℤ c -ℤ pos t
pay_here a c t = omega int_laws

-- The first loop adds the total weight to the credit of the healthy nodes.
pub credit_sum-charge :
    (ns : List Node) → credit_sum (charge ns) ≡ credit_sum ns +ℤ pos (total_weight ns)
unfolding credit_sum charge total_weight
credit_sum-charge [] = omega int_laws
credit_sum-charge (n ∷ ns) = elim (Bool-cases n.healthy) [
  | inl up ↦
      simp (up, credit_sum-charge ns)
        (earn n.active_conns (credit_sum ns) n.weight (total_weight ns))
  | inr down ↦ simp (down, credit_sum-charge ns) (omega int_laws)
]

pub credit_sum-debit :
    (ns : List Node) (b total : ℕ) {n : Node}
    → get_elem? ns b ≡ some n
    → n.healthy ≡ true
    → credit_sum (debit b total ns) ≡ credit_sum ns -ℤ pos total
unfolding credit_sum debit
credit_sum-debit [] b total e h = cc
credit_sum-debit (n ∷ ns) zero total e h =
    let up : n.healthy ≡ true = ground arith in
    simp up (pay_here n.active_conns (credit_sum ns) total)
credit_sum-debit (n ∷ ns) (suc b) total e h = elim (Bool-cases n.healthy) [
  | inl up ↦ simp (up, credit_sum-debit ns b total e h) (pay n.active_conns (credit_sum ns) total)
  | inr down ↦ simp down (credit_sum-debit ns b total e h)
]

all_credit-charge :
    (ns : List Node) → all_credit (charge ns) ≡ all_credit ns +ℤ pos (total_weight ns)
unfolding all_credit charge total_weight
all_credit-charge [] = omega int_laws
all_credit-charge (n ∷ ns) = elim (Bool-cases n.healthy) [
  | inl up ↦
      simp (up, all_credit-charge ns)
        (earn n.active_conns (all_credit ns) n.weight (total_weight ns))
  | inr down ↦
      simp (down, all_credit-charge ns) (keep n.active_conns (all_credit ns) (total_weight ns))
]

all_credit-debit :
    (ns : List Node) (b total : ℕ) {n : Node}
    → get_elem? ns b ≡ some n
    → all_credit (debit b total ns) ≡ all_credit ns -ℤ pos total
unfolding all_credit debit
all_credit-debit [] b total e = cc
all_credit-debit (n ∷ ns) zero total e = omega int_laws
all_credit-debit (n ∷ ns) (suc b) total e =
    rw (all_credit-debit ns b total e) (pay n.active_conns (all_credit ns) total)

pub AtMost-credit_sum : (ns : List Node) → AtMost (pos 0) ns → credit_sum ns ≤ℤ pos 0
unfolding credit_sum
AtMost-credit_sum [] h = omega arith
AtMost-credit_sum (n ∷ ns) h = elim (Bool-cases n.healthy) [
  | inl up ↦ simp up (omega (int_laws, h.0 up, AtMost-credit_sum ns h.1))
  | inr down ↦ simp down (AtMost-credit_sum ns h.1)
]

total_weight-NoneHealthy : (ns : List Node) → NoneHealthy ns → total_weight ns ≡ 0
unfolding total_weight
total_weight-NoneHealthy [] h = refl
total_weight-NoneHealthy (n ∷ ns) h = ground (arith, total_weight-NoneHealthy ns h.1)

NoneHealthy-charge : (ns : List Node) → NoneHealthy (charge ns) → NoneHealthy ns
unfolding charge
NoneHealthy-charge [] h = tt
NoneHealthy-charge (n ∷ ns) h = (ground (arith, h.0), NoneHealthy-charge ns h.1)

-- What a call that picks does: `b` is a healthy node of greatest credit after the first loop, and
-- pays the total weight.
pub record Picked (ns : List Node) (b : ℕ) : Type 0 where
  pub node : Node
  pub at : get_elem? (charge ns) b ≡ some node
  pub is_healthy : node.healthy ≡ true
  pub most : AtMost node.active_conns (charge ns)
  pub nodes : (pick_nodes ns).0 ≡ debit b (total_weight ns) (charge ns)
  pub index : (pick_nodes ns).1 ≡ some b

pick_nodes-of_Best :
    (ns : List Node)
    → total_weight ns ≢ 0
    → Best 0 (charge ns) (best_loop 0 none (charge ns))
    → (b : ℕ) × Picked ns b
unfolding pick_nodes
pick_nodes-of_Best ns t (nothing e down) =
    absurd (t (total_weight-NoneHealthy ns (NoneHealthy-charge ns down)))
pick_nodes-of_Best ns t (found {b} {v} e f most) = (
  b,
  record {
    node = f.node;
    at = ground (arith, f.at, f.index);
    is_healthy = f.is_healthy;
    most = rw f.credit most;
    nodes = ground (arith, e);
    index = ground (arith, e);
  },
)

-- Where some healthy node has weight, a node is picked.
pub pick_nodes-Picked : (ns : List Node) → total_weight ns ≢ 0 → (b : ℕ) × Picked ns b
pick_nodes-Picked ns t = pick_nodes-of_Best ns t (best_loop-Best (charge ns) 0)
