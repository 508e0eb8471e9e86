-- ===== src/Worker/Lifecycle.antt =====
-- src/worker.c: the life of a slot of the pool as a step relation, and the closing of a slot in it.
use nexus_gateway.Base.{
  Bool-cases, List, [], ap, arith, get_elem?, inl, inr, refl, set, some, suc, sym, zero, ℕ, ◌==◌,
  ◌∷◌, ◌≡◌, ◌≢◌, ◌⊎◌,
}
use nexus_gateway.Base.Int.{negsuc, pos, ◌-ℤ◌}
use nexus_gateway.Connection.{connecting_upstream, reading_req, reading_upstream}
use nexus_gateway.Worker.{ProxyConn, Worker, close_client_conn, proxy_free, put}
use nexus_gateway.Worker.Backend.{broken, upstream_readable}

-- What a slot is used for: its client's descriptor, and the node's.
pub data SlotUse : Type 0 where
  unused : SlotUse
  reading : (client : ℕ) → SlotUse
  connecting answering : (client node : ℕ) → SlotUse

-- A slot of the pool is in that use. A free slot has a node's descriptor of -1, or 0 in the zeroed pool.
abbrev pub Views : SlotUse → ProxyConn → Type 0
Views unused c = (c.fd ≡ 0) × ((c.upstream_fd ≡ negsuc 0) ⊎ (c.upstream_fd ≡ pos 0))
Views (reading fd) c = (c.fd ≡ fd) × (fd ≢ 0) × (c.state ≡ reading_req) × (c.upstream_fd ≡ negsuc 0)
Views (connecting fd u) c =
    (c.fd ≡ fd) × (fd ≢ 0) × (c.state ≡ connecting_upstream) × (c.upstream_fd ≡ pos u)
Views (answering fd u) c =
    (c.fd ≡ fd) × (fd ≢ 0) × (c.state ≡ reading_upstream) × (c.upstream_fd ≡ pos u)

-- The steps of that life; a step that takes a descriptor takes one that satisfies `P`.
pub data Next (P : ℕ → Type 0) : SlotUse → SlotUse → Type 0 where
  keeps_on : (s : SlotUse) → Next P s s
  takes_client : (fd : ℕ) → fd ≢ 0 → P fd → Next P unused (reading fd)
  opens_node : (fd u : ℕ) → P u → Next P (reading fd) (connecting fd u)
  sends_request : (fd u : ℕ) → Next P (connecting fd u) (answering fd u)
  closes_both : (s : SlotUse) → Next P s unused

-- The worker `w'` is `w` with a step of slot `i`, which was in use `s`.
pub record Leads (P : ℕ → Type 0) (w : Worker) (i : ℕ) (s : SlotUse) (w' : Worker) : Type 0 where
  pub conn : ProxyConn
  pub slot : SlotUse
  pub pool : w'.pool ≡ set w.pool i conn
  pub views : Views slot conn
  pub next : Next P s slot

set_same {ℓ} :
    {A : Type ℓ} (xs : List A) (i : ℕ) {a : A} → get_elem? xs i ≡ some a → set xs i a ≡ xs
set_same [] i e = refl
set_same (x ∷ xs) zero e = ap (λ y. y ∷ xs) (ground arith)
set_same (x ∷ xs) (suc i) {a} e = ap (λ ys. x ∷ ys) (set_same xs i {a = a} e)

module _ (P : ℕ → Type 0) (w : Worker) (i : ℕ) (s : SlotUse) (c : ProxyConn) where
  pub stays-Leads : get_elem? w.pool i ≡ some c → Views s c → Leads P w i s w
  stays-Leads at v = record {
    conn = c;
    slot = s;
    pool = sym (set_same w.pool i {a = c} at);
    views = v;
    next = keeps_on s;
  }

  closed : (w' : Worker) → w'.pool ≡ set w.pool i (proxy_free c) → Leads P w i s w'
  unfolding proxy_free
  closed w' e = record {
    conn = proxy_free c;
    slot = unused;
    pool = e;
    views = (refl, inl refl);
    next = closes_both s;
  }

  pub close_client_conn-Leads : Leads P w i s (close_client_conn w i c).0
  unfolding close_client_conn
  close_client_conn-Leads = elim (Bool-cases (c.fd == 0)) [
    | inl e ↦ simp e (closed (put w i (proxy_free c)) refl)
    | inr e ↦
        simp e
          (closed (record (put w i (proxy_free c)) { active_conns = w.active_conns -ℤ pos 1 }) refl)
  ]

  pub broken-Leads : (u : ℕ) → Leads P w i s (upstream_readable w i c (pos u) broken).0
  unfolding upstream_readable
  broken-Leads u = closed (put w i (proxy_free c)) refl
