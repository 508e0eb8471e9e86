-- ===== src/Upstream/Settle.antt =====
-- src/upstream.c: what one call of `nexus_upstream_pick` settles for each node.
use nexus_gateway.Base.{
  ==_iff, All, Bool-cases, List, List-cases, Option, [], arith, get_elem?, inl, inr, ltb, ltb→lt,
  none, refl, some, subst, suc, sym, to_int, true, zero, ℕ, ◌*◌, ◌+◌, ◌<◌, ◌==◌, ◌∙◌, ◌∷◌, ◌≡◌,
}
use nexus_gateway.Base.Int.{int_laws, neg_part, pos, pos_part, ℤ, ◌+ℤ◌, ◌-ℤ◌, ◌≤ℤ◌}
use nexus_gateway.Upstream.{
  Node, Upstream, charge, debit, pick, pick_nodes, recompute, total_weight,
}
use nexus_gateway.Upstream.Best.{AtMost}
use nexus_gateway.Upstream.Ledger.{
  AtMost-credit_sum, Picked, charged_node, credit_sum, credit_sum-charge, credit_sum-debit,
  get_elem?-charge, get_elem?-debit_ne, get_elem?-debit_self,
}

module _ {ℓ κ} (P : Node → Type ℓ) (Q : Node → Type κ) where
  All-charge :
      (ns : List Node) → ((n : Node) → P n → Q (charged_node n)) → All P ns → All Q (charge ns)
  unfolding charge
  All-charge [] f h = tt
  All-charge (n ∷ ns) f h = (f n h.0, All-charge ns f h.1)

abbrev pub debited : ℕ → Node → Node
debited total n = record n { active_conns = n.active_conns -ℤ pos total }

pub All-debit {ℓ} :
    (Q : Node → Type ℓ) (ns : List Node) (b total : ℕ) {n : Node}
    → get_elem? ns b ≡ some n
    → Q (debited total n)
    → All Q ns
    → All Q (debit b total ns)
unfolding debit
All-debit Q [] b total e q h = cc
All-debit Q (m ∷ ns) zero total e q h =
    (subst (λ x. Q (debited total x)) (sym (ground arith)) q, h.1)
All-debit Q (m ∷ ns) (suc b) total e q h = (h.0, All-debit Q ns b total e q h.1)

pub total_weight-charge : (ns : List Node) → total_weight (charge ns) ≡ total_weight ns
unfolding total_weight charge
total_weight-charge [] = refl
total_weight-charge (n ∷ ns) = ground (arith, total_weight-charge ns)

pub total_weight-debit :
    (ns : List Node) (b total : ℕ) → total_weight (debit b total ns) ≡ total_weight ns
unfolding total_weight debit
total_weight-debit [] b total = refl
total_weight-debit (n ∷ ns) zero total = refl
total_weight-debit (n ∷ ns) (suc b) total = ground (arith, total_weight-debit ns b total)

-- A healthy node owes less than `total`.
abbrev pub Owes : ℕ → Node → Type 0
Owes total n = n.healthy ≡ true → neg_part n.active_conns < total + pos_part n.active_conns

-- What holds between two calls.
pub record IsBalanced (total : ℕ) (ns : List Node) : Type 0 where
  pub weighs : total_weight ns ≡ total
  pub positive : 0 < total
  pub level : credit_sum ns ≡ pos 0
  pub owes : All (Owes total) ns

pub AtMost-mono : (ns : List Node) (v : ℤ) → v ≤ℤ pos 0 → AtMost v ns → AtMost (pos 0) ns
AtMost-mono [] v h a = tt
AtMost-mono (n ∷ ns) v h a = (λ up. omega (arith, a.0 up), AtMost-mono ns v h a.1)

module _ {total : ℕ} {ns : List Node} (bal : IsBalanced total ns) {b : ℕ} (p : Picked ns b) where
  -- The node that is picked has positive credit after the first loop.
  Picked-pos : neg_part p.node.active_conns < pos_part p.node.active_conns
  Picked-pos =
      elim (Bool-cases (ltb (neg_part p.node.active_conns) (pos_part p.node.active_conns))) [
        | inl h ↦ ltb→lt _ _ h
        | inr h ↦
            let low : p.node.active_conns ≤ℤ pos 0 = ground arith in
            let most = AtMost-credit_sum (charge ns) (AtMost-mono _ _ low p.most) in
            let sum : credit_sum (charge ns) ≡ pos 0 +ℤ pos total =
              rw (credit_sum-charge ns, bal.level, bal.weighs) in
            absurd (omega (int_laws, rw sum at most, bal.positive))
      ]

  Owes-charged : (n : Node) → Owes total n → Owes total (charged_node n)
  Owes-charged n h = elim (Bool-cases n.healthy) [
    | inl up ↦ simp up (λ _. omega (int_laws, h up))
    | inr down ↦ simp down (λ e. cc)
  ]

  pub Picked-IsBalanced : IsBalanced total (pick_nodes ns).0
  Picked-IsBalanced = rw p.nodes (record {
    weighs = total_weight-debit _ b _ ∙ total_weight-charge ns ∙ bal.weighs;
    positive = bal.positive;
    level =
        credit_sum-debit _ b _ p.at p.is_healthy
        ∙ rw (credit_sum-charge ns, bal.level) (omega int_laws);
    owes =
        All-debit (Owes total) (charge ns) b _ p.at
          (λ _. rw bal.weighs (omega (int_laws, Picked-pos)))
          (All-charge (Owes total) (Owes total) ns Owes-charged bal.owes);
  })

-- The credit of a node that had credit `n` and weight `w`, was called `k` times and picked `c` times.
abbrev pub Settles : ℕ → ℕ → ℕ → Node → Node → Type 0
Settles total k c n m =
    pos_part m.active_conns + neg_part n.active_conns + total * c
    ≡ neg_part m.active_conns + pos_part n.active_conns + k * n.weight

-- Node `i` before and after `k` calls that picked it `c` times.
pub record Served (total k c : ℕ) (before after : List Node) (i : ℕ) (n : Node) : Type 0 where
  pub node : Node
  pub at : get_elem? after i ≡ some node
  pub same_weight : node.weight ≡ n.weight
  pub same_health : node.healthy ≡ n.healthy
  pub settles : Settles total k c n node

-- Whether a call picked node `i`.
unfoldable pub hits : ℕ → Option ℕ → ℕ
hits i none = 0
hits i (some b) = to_int (b == i)

-- How often `i` was picked.
unfoldable pub picks_of : ℕ → List (Option ℕ) → ℕ
picks_of i [] = 0
picks_of i (r ∷ rs) = hits i r + picks_of i rs

module _ {total : ℕ} {ns : List Node} (bal : IsBalanced total ns) {b : ℕ} (p : Picked ns b) (i : ℕ)
    {n : Node} (e : get_elem? ns i ≡ some n) (up : n.healthy ≡ true) where
  pub Picked-Served : Served total 1 (hits i (some b)) ns (pick_nodes ns).0 i n
  unfolding hits
  Picked-Served = elim (Bool-cases (b == i)) [
    | inl here ↦
        let same : b ≡ i = (==_iff b i).0 here in
        record {
          node = debited total (charged_node n);
          at =
              rw (p.nodes, ← same, bal.weighs)
                (get_elem?-debit_self (charge ns) b total
                  (get_elem?-charge ns b {n = n} (rw same e)));
          same_weight = ground arith;
          same_health = ground arith;
          settles = simp (here, up) (omega int_laws);
        }
    | inr other ↦ record {
      node = charged_node n;
      at =
          rw p.nodes (
            get_elem?-debit_ne (charge ns) b _ i (λ q. ground (arith, q))
            ∙ get_elem?-charge ns i e);
      same_weight = ground arith;
      same_health = ground arith;
      settles = simp (other, up) (omega int_laws);
    }
  ]

pub pick-nodes :
    (u : Upstream)
    → ((pick u).0.nodes ≡ (pick_nodes u.nodes).0) × ((pick u).1 ≡ (pick_nodes u.nodes).1)
unfolding pick recompute pick_nodes charge total_weight
pick-nodes u = elim (List-cases u.nodes) [ inl e ↦ ground arith | inr (n, ns, e) ↦ ground arith ]
