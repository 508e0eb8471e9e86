-- ===== src/Worker/Views.antt =====
-- src/worker.c: the uses of all slots of a pool, and what `proxy_get` and `proxy_alloc` find in it.
use nexus_gateway.Base.{
  Bool-cases, List, Option-cases, [], ap, arith, get_elem?, inl, inr, length, refl, set, some,
  subst, suc, sym, zero, ℕ, ◌<◌, ◌==◌, ◌∙◌, ◌∷◌, ◌≡◌, ◌≢◌, ◌⊎◌,
}
use nexus_gateway.Base.Int.{eq_ℤ, eq_ℤ_sound, neg_part, negsuc, pos, pos_part}
use nexus_gateway.Connection.{idle}
use nexus_gateway.Worker.{ProxyConn, proxy_alloc, proxy_get}
use nexus_gateway.Worker.Lifecycle.{SlotUse, Views, answering, connecting, reading, unused}

-- Each slot of the pool is in the use that the list says.
abbrev pub ViewsAll : List SlotUse → List ProxyConn → Type 0
ViewsAll [] [] = Unit
ViewsAll (s ∷ ss) (c ∷ cs) = Views s c × ViewsAll ss cs
ViewsAll _ _ = ⊥

pub ViewsAll-at :
    (ss : List SlotUse) (cs : List ProxyConn) (i : ℕ) {c : ProxyConn}
    → ViewsAll ss cs
    → get_elem? cs i ≡ some c
    → (s : SlotUse) × (get_elem? ss i ≡ some s) × Views s c
ViewsAll-at [] [] i v e = absurd (ground arith)
ViewsAll-at [] (c ∷ cs) i v e = elim v [ ]
ViewsAll-at (s ∷ ss) [] i v e = elim v [ ]
ViewsAll-at (s ∷ ss) (x ∷ cs) zero {c} v e =
    let same : x ≡ c = ground arith in (s, refl, subst (λ y. Views s y) same v.0)
ViewsAll-at (s ∷ ss) (x ∷ cs) (suc i) {c} v e = ViewsAll-at ss cs i {c = c} v.1 e

pub ViewsAll-conn :
    (ss : List SlotUse) (cs : List ProxyConn) (i : ℕ) {s : SlotUse}
    → ViewsAll ss cs
    → get_elem? ss i ≡ some s
    → (c : ProxyConn) × (get_elem? cs i ≡ some c) × Views s c
ViewsAll-conn [] [] i v e = absurd (ground arith)
ViewsAll-conn [] (c ∷ cs) i v e = elim v [ ]
ViewsAll-conn (s ∷ ss) [] i v e = elim v [ ]
ViewsAll-conn (x ∷ ss) (c ∷ cs) zero {s} v e =
    let same : x ≡ s = ground arith in (c, refl, subst (λ y. Views y c) same v.0)
ViewsAll-conn (x ∷ ss) (c ∷ cs) (suc i) {s} v e = ViewsAll-conn ss cs i {s = s} v.1 e

pub ViewsAll-set :
    (ss : List SlotUse) (cs : List ProxyConn) (i : ℕ) (s : SlotUse) (c : ProxyConn)
    → ViewsAll ss cs
    → Views s c
    → ViewsAll (set ss i s) (set cs i c)
ViewsAll-set [] [] i s c v new = tt
ViewsAll-set [] (x ∷ cs) i s c v new = elim v [ ]
ViewsAll-set (x ∷ ss) [] i s c v new = elim v [ ]
ViewsAll-set (x ∷ ss) (y ∷ cs) zero s c v new = (new, v.1)
ViewsAll-set (x ∷ ss) (y ∷ cs) (suc i) s c v new = (v.0, ViewsAll-set ss cs i s c v.1 new)

-- One side of the connection is that descriptor.
abbrev pub HoldsFd : ProxyConn → ℕ → Type 0
HoldsFd c fd = (c.fd ≡ fd) ⊎ (c.upstream_fd ≡ pos fd)

pub proxy_get-HoldsFd :
    (cs : List ProxyConn) (fd i : ℕ)
    → proxy_get cs fd ≡ some i
    → (c : ProxyConn) × (get_elem? cs i ≡ some c) × HoldsFd c fd
unfolding proxy_get
proxy_get-HoldsFd [] fd i e = absurd (ground arith)
proxy_get-HoldsFd (x ∷ cs) fd i e = elim (Bool-cases (x.fd == fd)) [
  | inl client ↦
      let z : i ≡ 0 = ground (arith, client) in simp z (x, refl, inl (ground (arith, client)))
  | inr other ↦ elim (Bool-cases (eq_ℤ x.upstream_fd (pos fd))) [
    | inl node ↦
        let z : i ≡ 0 = ground (arith, node) in
        simp z (x, refl, inr (eq_ℤ_sound x.upstream_fd (pos fd) node))
    | inr neither ↦ elim (Option-cases (proxy_get cs fd)) [
      | inl f ↦ absurd (ground (arith, f, other, neither))
      | inr (j, f) ↦
          let z : i ≡ suc j = ground (arith, f, other, neither) in
          simp z (proxy_get-HoldsFd cs fd j f)
    ]
  ]
]

pub HoldsFd-used :
    (s : SlotUse) (c : ProxyConn) (fd : ℕ) → Views s c → fd ≢ 0 → HoldsFd c fd → s ≢ unused
HoldsFd-used s c fd v ne h e =
    let (zero_fd, closed_node) = subst (λ x. Views x c) e v in
    elim h [
      | inl client ↦ ne (sym client ∙ zero_fd)
      | inr node ↦ elim closed_node [
        | inl shut ↦ absurd (omega (arith, ap neg_part (sym shut ∙ node)))
        | inr zeroed ↦ ne (ap pos_part (sym node ∙ zeroed))
      ]
    ]

-- The slot that `proxy_alloc` takes was unused.
pub proxy_alloc-at :
    (cs : List ProxyConn) (fd i : ℕ)
    → (proxy_alloc cs fd).1 ≡ some i
    → (c : ProxyConn) × (get_elem? cs i ≡ some c)
      × (c.fd ≡ 0)
      × ((proxy_alloc cs fd).0
          ≡ set cs i (record c { fd = fd; state = idle; upstream_fd = negsuc 0 }))
unfolding proxy_alloc
proxy_alloc-at [] fd i e = absurd (ground arith)
proxy_alloc-at (x ∷ cs) fd i e = elim (Bool-cases (x.fd == 0)) [
  | inl free ↦
      let z : i ≡ 0 = ground (arith, free) in simp (free, z) (x, refl, ground (arith, free), refl)
  | inr busy ↦ elim (Option-cases (proxy_alloc cs fd).1) [
    | inl f ↦ absurd (ground (arith, f))
    | inr (j, f) ↦
        let (c, at, unheld, pool) = proxy_alloc-at cs fd j f in
        let z : i ≡ suc j = ground (arith, busy, f) in
        simp (busy, z) (c, at, unheld, ap (λ p. x ∷ p) pool)
  ]
]

pub set-set {ℓ} : {A : Type ℓ} (xs : List A) (i : ℕ) (a b : A) → set (set xs i a) i b ≡ set xs i b
set-set [] i a b = refl
set-set (x ∷ xs) zero a b = refl
set-set (x ∷ xs) (suc i) a b = ap (λ ys. x ∷ ys) (set-set xs i a b)

pub at-bound {ℓ} :
    {A : Type ℓ} (xs : List A) (i : ℕ) {a : A} → get_elem? xs i ≡ some a → i < length xs
at-bound [] i e = absurd (ground arith)
at-bound (x ∷ xs) zero e = omega arith
at-bound (x ∷ xs) (suc i) {a} e = let r = at-bound xs i {a = a} e in omega arith

-- A connection with that descriptor on neither side is in no use of it.
pub Views-unused : (s : SlotUse) (c : ProxyConn) → Views s c → c.fd ≡ 0 → s ≡ unused
Views-unused unused c v e = refl
Views-unused (reading fd) c v e = absurd (v.1 (sym v.0 ∙ e))
Views-unused (connecting fd u) c v e = absurd (v.1 (sym v.0 ∙ e))
Views-unused (answering fd u) c v e = absurd (v.1 (sym v.0 ∙ e))
