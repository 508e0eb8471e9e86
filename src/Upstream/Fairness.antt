-- ===== src/Upstream/Fairness.antt =====
-- src/upstream.c: `nexus_upstream_pick` over many calls, while no node changes its health.
use nexus_gateway.Base.{
  All, Bool-cases, List, Option, [], ap, arith, get_elem?, inl, inr, refl, some, suc, true, zero, ℕ,
  ◌*◌, ◌<◌, ◌∙◌, ◌∷◌, ◌≡◌,
}
use nexus_gateway.Base.Int.{int_laws, pos}
use nexus_gateway.Upstream.{Node, Upstream, pick, total_weight}
use nexus_gateway.Upstream.Ledger.{credit_sum, pick_nodes-Picked}
use nexus_gateway.Upstream.Settle.{
  IsBalanced, Owes, Picked-IsBalanced, Picked-Served, Served, pick-nodes, picks_of,
}

-- `k` calls in a row: the upstream they leave, and what each returned.
unfoldable pub serve : ℕ → Upstream → Upstream × List (Option ℕ)
serve zero u = (u, [])
serve (suc k) u = let (v, r) = pick u in let (w, rs) = serve k v in (w, r ∷ rs)

pub serve-Served :
    (k total : ℕ) (u : Upstream) (i : ℕ) {n : Node}
    → IsBalanced total u.nodes
    → get_elem? u.nodes i ≡ some n
    → n.healthy ≡ true
    → IsBalanced total (serve k u).0.nodes
      × Served total k (picks_of i (serve k u).1) u.nodes (serve k u).0.nodes i n
unfolding serve picks_of
serve-Served zero total u i {n} bal e up = (
  bal,
  record { node = n; at = e; same_weight = refl; same_health = refl; settles = omega arith },
)
serve-Served (suc k) total u i {n} bal e up =
    let (b, p) = pick_nodes-Picked u.nodes (omega (arith, bal.weighs, bal.positive)) in
    let one = Picked-Served bal p i e up in
    let (same, index) = pick-nodes u in
    let (bal', rest) =
      serve-Served k total (pick u).0 i {n = one.node} (rw same (Picked-IsBalanced bal p))
        (rw same one.at) (one.same_health ∙ up) in
    (
      bal',
      record {
        node = rest.node;
        at = rest.at;
        same_weight = rest.same_weight ∙ one.same_weight;
        same_health = rest.same_health ∙ one.same_health;
        settles =
            rw (index, p.index)
              (omega (arith, one.settles, rest.settles, ap (λ (w : ℕ). k * w) one.same_weight));
      },
    )

-- The credit that `nexus_upstream_init` and `nexus_upstream_add_node` start a node with.
abbrev pub IsFresh : List Node → Type 0
IsFresh = All (λ n. n.active_conns ≡ pos 0)

credit_sum-IsFresh : (ns : List Node) → IsFresh ns → credit_sum ns ≡ pos 0
unfolding credit_sum
credit_sum-IsFresh [] h = refl
credit_sum-IsFresh (n ∷ ns) h = elim (Bool-cases n.healthy) [
  | inl up ↦ simp (up, h.0, credit_sum-IsFresh ns h.1) (omega int_laws)
  | inr down ↦ simp down (credit_sum-IsFresh ns h.1)
]

Owes-IsFresh : (total : ℕ) (ns : List Node) → 0 < total → IsFresh ns → All (Owes total) ns
Owes-IsFresh total [] t h = tt
Owes-IsFresh total (n ∷ ns) t h = (λ up. ground (arith, h.0), Owes-IsFresh total ns t h.1)

pub IsFresh-IsBalanced :
    (ns : List Node) → 0 < total_weight ns → IsFresh ns → IsBalanced (total_weight ns) ns
IsFresh-IsBalanced ns t h = record {
  weighs = refl;
  positive = t;
  level = credit_sum-IsFresh ns h;
  owes = Owes-IsFresh _ ns t h;
}
