-- ===== src/Upstream.antt =====
-- src/upstream.c: the nodes of an upstream and the smooth weighted round robin over them.
-- `int` fields that may be negative are ℤ; a picked node is its index in `nodes`.
pub mod Gcd
pub mod Best
pub mod Ledger
pub mod Settle
pub mod Fairness
pub mod Cycle
pub mod Failover
use nexus_gateway.Base.{
  Bool, Bytes, List, Option, [], bytes_eq, c_str, false, if◌then◌else◌, leb, length, ltb, none,
  some, suc, take, true, zero, ℕ, ◌&&◌, ◌++◌, ◌+◌, ◌==◌, ◌∷◌,
}
use nexus_gateway.Base.Int.{eq_ℤ, ltb_ℤ, negsuc, pos, ℤ, ◌+ℤ◌, ◌-ℤ◌}
use nexus_gateway.Upstream.Gcd.{gcd}

-- NEXUS_UPSTREAM_MAX_NODES
abbrev pub max_nodes : ℕ
max_nodes = 16

-- `nexus_upstream_node_t`. `healthy` is only used as a truth value.
pub record Node : Type 0 where
  pub host : Bytes
  pub port : ℤ
  pub weight : ℕ
  pub healthy : Bool
  pub active_conns : ℤ

-- `nexus_upstream_t`; `node_count` is the length of `nodes`.
pub record Upstream : Type 0 where
  pub name : Bytes
  pub nodes : List Node
  pub cur_weight : ℕ
  pub max_weight : ℕ
  pub gcd_weight : ℕ

-- `nexus_upstream_init`: at most 63 bytes of the name are kept.
unfoldable pub upstream_init : Bytes → Upstream
upstream_init name = record {
  name = take 63 (c_str name);
  nodes = [];
  cur_weight = 0;
  max_weight = 0;
  gcd_weight = 0;
}

-- `weight > 0 ? weight : 1`
unfoldable pub positive_weight : ℤ → ℕ
positive_weight (pos zero) = 1
positive_weight (pos (suc n)) = suc n
positive_weight (negsuc _) = 1

-- `nexus_upstream_add_node`; the flag says whether it returned 0.
unfoldable pub add_node : Upstream → Bytes → ℤ → ℤ → Upstream × Bool
add_node u host port weight = if leb max_nodes (length u.nodes) then (u, false) else (
  record u {
    nodes =
        u.nodes
        ++ record {
          host = take 63 (c_str host);
          port = port;
          weight = positive_weight weight;
          healthy = true;
          active_conns = pos 0;
        }
          ∷ [];
  },
  true,
)

max_of : ℕ → List Node → ℕ
max_of mw [] = mw
max_of mw (n ∷ ns) = max_of (if ltb mw n.weight then n.weight else mw) ns

gcd_of : ℕ → List Node → ℕ
gcd_of g [] = g
gcd_of g (n ∷ ns) = gcd_of (gcd g n.weight) ns

-- The `g` of `recompute`: the first node's weight starts the fold.
gcd_nodes : List Node → ℕ
gcd_nodes [] = 0
gcd_nodes (n ∷ ns) = gcd_of n.weight ns

-- `recompute`
unfoldable pub recompute : Upstream → Upstream
unfolding max_of gcd_nodes gcd_of
recompute u =
    let g = gcd_nodes u.nodes in
    record u { max_weight = max_of 0 u.nodes; gcd_weight = if ltb 0 g then g else 1 }

-- First loop of `nexus_upstream_pick`: every healthy node earns its weight.
unfoldable pub charge : List Node → List Node
charge [] = []
charge (n ∷ ns) =
    (if n.healthy then record n { active_conns = n.active_conns +ℤ pos n.weight } else n)
    ∷ charge ns

-- `total` of the same loop.
unfoldable pub total_weight : List Node → ℕ
total_weight [] = 0
total_weight (n ∷ ns) = (if n.healthy then n.weight else 0) + total_weight ns

-- The second loop's test at node `i`; `best` is `none` for the code's -1.
unfoldable pub better : ℕ → Node → Option (ℕ × ℤ) → Option (ℕ × ℤ)
better i n none = if n.healthy then some (i, n.active_conns) else none
better i n (some (j, v)) =
    if n.healthy && ltb_ℤ v n.active_conns then some (i, n.active_conns) else some (j, v)

unfoldable pub best_loop : ℕ → Option (ℕ × ℤ) → List Node → Option (ℕ × ℤ)
best_loop i best [] = best
best_loop i best (n ∷ ns) = best_loop (i + 1) (better i n best) ns

-- `u->nodes[best].active_conns -= total`
unfoldable pub debit : ℕ → ℕ → List Node → List Node
debit b total [] = []
debit zero total (n ∷ ns) = record n { active_conns = n.active_conns -ℤ pos total } ∷ ns
debit (suc b) total (n ∷ ns) = n ∷ debit b total ns

-- `nexus_upstream_pick`, behind the recomputation: the nodes and the index returned.
unfoldable pub pick_nodes : List Node → List Node × Option ℕ
pick_nodes ns =
    let charged = charge ns in
    let total = total_weight ns in
    if total == 0 then (charged, none) else elim (best_loop 0 none charged) [
      | none ↦ (charged, none)
      | some (b, v) ↦ (debit b total charged, some b)
    ]

-- `nexus_upstream_pick`
unfoldable pub pick : Upstream → Upstream × Option ℕ
pick u =
    if length u.nodes == 0
    then (u, none)
    else let v = if u.max_weight == 0 then recompute u else u in
      let (ns, r) = pick_nodes v.nodes in (record v { nodes = ns }, r)

-- The body of the loop of `nexus_upstream_mark`.
unfoldable pub mark_nodes : Bytes → ℤ → Bool → List Node → List Node
mark_nodes host port healthy [] = []
mark_nodes host port healthy (n ∷ ns) =
    (if eq_ℤ n.port port && bytes_eq n.host (c_str host) then record n { healthy = healthy } else n)
    ∷ mark_nodes host port healthy ns

-- `nexus_upstream_mark`
unfoldable pub mark : Upstream → Bytes → ℤ → Bool → Upstream
mark u host port healthy = record u { nodes = mark_nodes host port healthy u.nodes }
