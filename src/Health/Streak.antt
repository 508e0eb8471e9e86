-- ===== src/Health/Streak.antt =====
-- src/health.c: a node over many rounds.
use nexus_gateway.Base.{
  Bool, List, [], ap, arith, false, leb, not, refl, true, ℕ, ◌+◌, ◌<◌, ◌∙◌, ◌∷◌, ◌≡◌,
}
use nexus_gateway.Health.{probe_node}
use nexus_gateway.Upstream.{Node}

-- One node through the outcomes of its probes, oldest first.
unfoldable pub probes : ℕ → ℕ × Node → List Bool → ℕ × Node
probes threshold s [] = s
probes threshold (fails, n) (ok ∷ oks) = probes threshold (probe_node threshold ok fails n) oks

-- How many of the last outcomes are failures, behind `k` that were.
unfoldable pub streak : ℕ → List Bool → ℕ
streak k [] = k
streak k (true ∷ oks) = streak 0 oks
streak k (false ∷ oks) = streak (k + 1) oks

-- The counter is the number of failures in a row up to now.
pub probes-streak :
    (threshold fails : ℕ) (n : Node) (oks : List Bool)
    → (probes threshold (fails, n) oks).0 ≡ streak fails oks
unfolding probes streak probe_node
probes-streak threshold fails n [] = refl
probes-streak threshold fails n (true ∷ oks) = probes-streak threshold 0 _ oks
probes-streak threshold fails n (false ∷ oks) = probes-streak threshold (fails + 1) _ oks

-- What the counter says of the node.
abbrev pub Agrees : ℕ → ℕ → Node → Type 0
Agrees threshold fails n = n.healthy ≡ not (leb threshold fails)

probe_node-Agrees :
    (threshold : ℕ) (ok : Bool) (fails : ℕ) (n : Node)
    → 0 < threshold
    → Agrees threshold fails n
    → Agrees threshold (probe_node threshold ok fails n).0 (probe_node threshold ok fails n).1
unfolding probe_node
probe_node-Agrees threshold true fails n h a = ground arith
probe_node-Agrees threshold false fails n h a = ground arith

probes-Agrees :
    (threshold fails : ℕ) (n : Node) (oks : List Bool)
    → 0 < threshold
    → Agrees threshold fails n
    → Agrees threshold (probes threshold (fails, n) oks).0 (probes threshold (fails, n) oks).1
unfolding probes
probes-Agrees threshold fails n [] h a = a
probes-Agrees threshold fails n (ok ∷ oks) h a =
    let s = probe_node threshold ok fails n in
    probes-Agrees threshold s.0 s.1 oks h (probe_node-Agrees threshold ok fails n h a)

-- With a positive threshold, a node that was in step with its counter is unhealthy exactly while
-- its last threshold probes, or more, failed: one success makes it healthy again.
pub probes-healthy :
    (threshold fails : ℕ) (n : Node) (oks : List Bool)
    → 0 < threshold
    → Agrees threshold fails n
    → (probes threshold (fails, n) oks).1.healthy ≡ not (leb threshold (streak fails oks))
probes-healthy threshold fails n oks h a =
    probes-Agrees threshold fails n oks h a
    ∙ ap (λ (k : ℕ). not (leb threshold k)) (probes-streak threshold fails n oks)
