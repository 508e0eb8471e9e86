-- ===== src/Health.antt =====
-- src/health.c: the health checker's rounds over the nodes of an upstream. The outcome of
-- `tcp_probe` for each node is an argument: a connection attempt is the system's.
pub mod Streak
pub mod Unpicked
pub mod Thread
use nexus_gateway.Base.{
  Bool, List, Option, [], false, if◌then◌else◌, leb, none, replicate, some, true, ℕ, ◌+◌, ◌∷◌,
}
use nexus_gateway.Upstream.{Node, Upstream, max_nodes}

-- `struct nexus_health_checker_t`, less the thread: its nodes, and the failures in a row of each.
pub record Checker : Type 0 where
  pub fail_threshold : ℕ
  pub fail_count : List ℕ

-- `nexus_health_create` for 16 nodes
abbrev pub health_create : ℕ → Checker
health_create threshold = record { fail_threshold = threshold; fail_count = replicate max_nodes 0 }

-- The body of the loop in `run` for one node: its failures in a row, and the node.
unfoldable pub probe_node : ℕ → Bool → ℕ → Node → ℕ × Node
probe_node threshold true fails n = (0, record n { healthy = true })
probe_node threshold false fails n =
    (fails + 1, if leb threshold (fails + 1) then record n { healthy = false } else n)

-- One round of `run` over the nodes, given what each probe found.
unfoldable pub probe_round : ℕ → (ℕ → Bool) → ℕ → List ℕ → List Node → List ℕ × List Node
probe_round threshold ok i fails [] = (fails, [])
probe_round threshold ok i [] (n ∷ ns) = ([], n ∷ ns)
probe_round threshold ok i (f ∷ fs) (n ∷ ns) =
    let (f', n') = probe_node threshold (ok i) f n in
    let (fs', ns') = probe_round threshold ok (i + 1) fs ns in (f' ∷ fs', n' ∷ ns')

-- A round of the checker on an upstream.
unfoldable pub health_round : Checker → (ℕ → Bool) → Upstream → Checker × Upstream
health_round c ok u =
    let (fails, ns) = probe_round c.fail_threshold ok 0 c.fail_count u.nodes in
    (record c { fail_count = fails }, record u { nodes = ns })

-- `tcp_probe`, given the descriptor of `socket` if there is one and whether `connect` succeeds: what
-- it returns, and the descriptors that it closes.
unfoldable pub tcp_probe : Option ℕ → Bool → Bool × List ℕ
tcp_probe none connects = (false, [])
tcp_probe (some fd) connects = (connects, fd ∷ [])

-- The loop of `run` while `running` is set: one round for each entry.
unfoldable pub health_run : Checker → List (ℕ → Bool) → Upstream → Checker × Upstream
health_run c [] u = (c, u)
health_run c (ok ∷ oks) u = let (c', u') = health_round c ok u in health_run c' oks u'
