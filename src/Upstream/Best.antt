-- ===== src/Upstream/Best.antt =====
-- src/upstream.c: the second loop of `nexus_upstream_pick`, the search for a node of greatest credit.
use nexus_gateway.Base.{
  All, Bool-cases, List, Option, [], arith, false, get_elem?, inl, inr, none, refl, some, suc, sym,
  true, ℕ, ◌&&◌, ◌+◌, ◌∷◌, ◌≡◌, ◌⊎◌,
}
use nexus_gateway.Base.Int.{ltb_ℤ, ℤ, ◌≤ℤ◌}
use nexus_gateway.Upstream.{Node, best_loop, better}

-- No healthy node has more credit than `v`.
abbrev pub AtMost : ℤ → List Node → Type 0
AtMost v = All (λ n. n.healthy ≡ true → n.active_conns ≤ℤ v)

-- Index `b`, counted from `i`, is a healthy node of credit `v`.
pub record FoundAt (i : ℕ) (ns : List Node) (b : ℕ) (v : ℤ) : Type 0 where
  pub offset : ℕ
  pub node : Node
  pub index : b ≡ i + offset
  pub at : get_elem? ns offset ≡ some node
  pub is_healthy : node.healthy ≡ true
  pub credit : node.active_conns ≡ v

FoundAt-here :
    (i : ℕ) (n : Node) (ns : List Node) {b : ℕ} {v : ℤ}
    → n.healthy ≡ true
    → b ≡ i
    → v ≡ n.active_conns
    → FoundAt i (n ∷ ns) b v
FoundAt-here i n ns h e f = record {
  offset = 0;
  node = n;
  index = omega arith;
  at = refl;
  is_healthy = h;
  credit = sym f;
}

FoundAt-cons :
    (i : ℕ) (n : Node) (ns : List Node) {b : ℕ} {v : ℤ}
    → FoundAt (i + 1) ns b v
    → FoundAt i (n ∷ ns) b v
FoundAt-cons i n ns f = record {
  offset = suc f.offset;
  node = f.node;
  index = omega (arith, f.index);
  at = f.at;
  is_healthy = f.is_healthy;
  credit = f.credit;
}

-- The loop from a best node so far: the result is at least as good, and is that node or a later one.
pub record Improves (i j : ℕ) (w : ℤ) (ns : List Node) : Type 0 where
  pub b : ℕ
  pub v : ℤ
  pub result : best_loop i (some (j, w)) ns ≡ some (b, v)
  pub most : AtMost v ns
  pub above : w ≤ℤ v
  pub source : ((b ≡ j) × (v ≡ w)) ⊎ FoundAt i ns b v

best_loop-Improves : (ns : List Node) (i j : ℕ) (w : ℤ) → Improves i j w ns
unfolding best_loop better
best_loop-Improves [] i j w = record {
  b = j;
  v = w;
  result = refl;
  most = tt;
  above = omega arith;
  source = inl (refl, refl);
}
best_loop-Improves (n ∷ ns) i j w = elim (Bool-cases (n.healthy && ltb_ℤ w n.active_conns)) [
  | inl new ↦
      let r = best_loop-Improves ns (i + 1) i n.active_conns in
      record {
        b = r.b;
        v = r.v;
        result = rw new r.result;
        most = (λ h. r.above, r.most);
        above = ground (arith, r.above);
        source = inr (elim r.source [
          | inl (e, f) ↦ FoundAt-here i n ns (ground arith) e f
          | inr found ↦ FoundAt-cons i n ns found
        ]);
      }
  | inr old ↦
      let r = best_loop-Improves ns (i + 1) j w in
      record {
        b = r.b;
        v = r.v;
        result = rw old r.result;
        most = (λ h. ground (arith, r.above), r.most);
        above = r.above;
        source = elim r.source [ inl e ↦ inl e | inr found ↦ inr (FoundAt-cons i n ns found) ];
      }
]

-- No node is healthy.
abbrev pub NoneHealthy : List Node → Type 0
NoneHealthy = All (λ n. n.healthy ≡ false)

-- What the loop finds from the start: nothing where no node is healthy, and otherwise the index and
-- the credit of a healthy node that no healthy node exceeds.
pub data Best (i : ℕ) (ns : List Node) : Option (ℕ × ℤ) → Type 0 where
  nothing : {r : Option (ℕ × ℤ)} → r ≡ none → NoneHealthy ns → Best i ns r
  found :
      {r : Option (ℕ × ℤ)} {b : ℕ} {v : ℤ}
      → r ≡ some (b, v)
      → FoundAt i ns b v
      → AtMost v ns
      → Best i ns r

Best-skip :
    (i : ℕ) (n : Node) (ns : List Node) {r : Option (ℕ × ℤ)}
    → n.healthy ≡ false
    → Best (i + 1) ns r
    → Best i (n ∷ ns) r
Best-skip i n ns h (nothing e all) = nothing e (h, all)
Best-skip i n ns h (found e f most) = found e (FoundAt-cons i n ns f) (λ k. cc, most)

pub best_loop-Best : (ns : List Node) (i : ℕ) → Best i ns (best_loop i none ns)
unfolding best_loop better
best_loop-Best [] i = nothing refl tt
best_loop-Best (n ∷ ns) i = elim (Bool-cases n.healthy) [
  | inr down ↦ simp down (Best-skip i n ns down (best_loop-Best ns (i + 1)))
  | inl up ↦
      let r = best_loop-Improves ns (i + 1) i n.active_conns in
      found (simp up r.result)
        (elim r.source [
          | inl (e, f) ↦ FoundAt-here i n ns up e f
          | inr later ↦ FoundAt-cons i n ns later
        ])
        (λ h. r.above, r.most)
]
