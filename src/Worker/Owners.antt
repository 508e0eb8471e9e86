-- ===== src/Worker/Owners.antt =====
-- src/worker.c: which connection of a pool has a descriptor open, across an event.
use nexus_gateway.Base.{
  Bool, Bool-cases, List, Option-cases, [], ap, arith, false, get_elem?, get_elem?-set_ne, inl, inr,
  refl, some, subst, suc, sym, true, zero, ℕ, ◌==◌, ◌||◌, ◌∙◌, ◌∷◌, ◌≡◌, ◌≢◌,
}
use nexus_gateway.Base.Int.{eq_ℤ, eq_ℤ_refl, neg_part, negsuc, pos, pos_part, ℤ}
use nexus_gateway.Worker.{ProxyConn, Worker, proxy_get}
use nexus_gateway.Worker.Events.{EventEnv, Shared, on_event, on_slot}
use nexus_gateway.Worker.Leak.{IsDescriptor}
use nexus_gateway.Worker.Lifecycle.{SlotUse, Views, answering, connecting, reading, unused}
use nexus_gateway.Worker.Slots.{Apart, IsNew, SlotsStep-Apart, Uses}
use nexus_gateway.Worker.Stepped.{AllNew, on_event-Stepped}
use nexus_gateway.Worker.Steps.{on_conn-Leads}
use nexus_gateway.Worker.Views.{
  HoldsFd, HoldsFd-used, ViewsAll, ViewsAll-at, ViewsAll-conn, proxy_get-HoldsFd,
}

-- No connection of the pool has the descriptor open.
abbrev pub NewIn : List ProxyConn → ℕ → Type 0
NewIn cs fd = (i : ℕ) (c : ProxyConn) → get_elem? cs i ≡ some c → ¬ HoldsFd c fd

-- The pool is in a use in which no two slots have the same descriptor open.
pub record Owned (cs : List ProxyConn) : Type 0 where
  pub slots : List SlotUse
  pub views : ViewsAll slots cs
  pub apart : Apart slots

Uses-HoldsFd : (s : SlotUse) (c : ProxyConn) (fd : ℕ) → Views s c → Uses s fd → HoldsFd c fd
Uses-HoldsFd unused c fd v u = elim u [ ]
Uses-HoldsFd (reading a) c fd v u = inl (v.0 ∙ u)
Uses-HoldsFd (connecting a n) c fd v (inl u) = inl (v.0 ∙ u)
Uses-HoldsFd (connecting a n) c fd v (inr u) = inr (v.3 ∙ ap pos u)
Uses-HoldsFd (answering a n) c fd v (inl u) = inl (v.0 ∙ u)
Uses-HoldsFd (answering a n) c fd v (inr u) = inr (v.3 ∙ ap pos u)

not_closed : (x : ℤ) (fd : ℕ) → x ≡ negsuc 0 → x ≢ pos fd
not_closed x fd e h = absurd (omega (arith, ap neg_part (sym e ∙ h)))

HoldsFd-Uses :
    (s : SlotUse) (c : ProxyConn) (fd : ℕ) → Views s c → fd ≢ 0 → HoldsFd c fd → Uses s fd
HoldsFd-Uses unused c fd v ne h = absurd (HoldsFd-used unused c fd v ne h refl)
HoldsFd-Uses (reading a) c fd v ne (inl h) = sym v.0 ∙ h
HoldsFd-Uses (reading a) c fd v ne (inr h) = absurd (not_closed c.upstream_fd fd v.3 h)
HoldsFd-Uses (connecting a n) c fd v ne (inl h) = inl (sym v.0 ∙ h)
HoldsFd-Uses (connecting a n) c fd v ne (inr h) = inr (ap pos_part (sym v.3 ∙ h))
HoldsFd-Uses (answering a n) c fd v ne (inl h) = inl (sym v.0 ∙ h)
HoldsFd-Uses (answering a n) c fd v ne (inr h) = inr (ap pos_part (sym v.3 ∙ h))

NewIn-IsNew :
    (ss : List SlotUse) (cs : List ProxyConn) (fd : ℕ) → ViewsAll ss cs → NewIn cs fd → IsNew ss fd
NewIn-IsNew ss cs fd v new i s at u =
    let (c, here, view) = ViewsAll-conn ss cs i {s = s} v at in
    new i c here (Uses-HoldsFd s c fd view u)

pub on_event-Owned :
    (w : Worker) (s : Shared) (fd : ℕ) (can_read can_write : Bool) (env : EventEnv)
    → fd ≢ 0
    → IsDescriptor env.accepted
    → AllNew (NewIn w.pool) env
    → Owned w.pool
    → Owned (on_event w s fd can_read can_write env).0.pool
on_event-Owned w s fd can_read can_write env ne d new o =
    let stepped =
      on_event-Stepped (IsNew o.slots) w s fd can_read can_write env o.slots o.views ne d (
        (λ a e. NewIn-IsNew o.slots w.pool a.fd o.views (new.0 a e)),
        λ host port u e. NewIn-IsNew o.slots w.pool u o.views (new.1 host port u e),
      ) in
    record {
      slots = stepped.slots;
      views = stepped.views;
      apart = SlotsStep-Apart o.slots stepped.slots stepped.step o.apart;
    }

-- The test of `proxy_get`.
HoldsFd-test :
    (c : ProxyConn) (fd : ℕ) → HoldsFd c fd → (c.fd == fd || eq_ℤ c.upstream_fd (pos fd)) ≡ true
HoldsFd-test c fd (inl h) = ground (arith, h)
HoldsFd-test c fd (inr h) =
    rw (eq_ℤ_refl c.upstream_fd (pos fd) h)
      (elim (Bool-cases (c.fd == fd)) [ inl e ↦ rw e refl | inr e ↦ rw e refl ])

proxy_get-finds :
    (cs : List ProxyConn) (fd i : ℕ) {c : ProxyConn}
    → get_elem? cs i ≡ some c
    → HoldsFd c fd
    → (j : ℕ) × (proxy_get cs fd ≡ some j)
unfolding proxy_get
proxy_get-finds [] fd i e h = absurd (ground arith)
proxy_get-finds (x ∷ cs) fd zero {c} e h =
    let same : x ≡ c = ground arith in
    let test = HoldsFd-test x fd (subst (λ d. HoldsFd d fd) (sym same) h) in (0, rw test refl)
proxy_get-finds (x ∷ cs) fd (suc k) {c} e h =
    let (j, f) = proxy_get-finds cs fd k {c = c} e h in
    elim (Bool-cases (x.fd == fd || eq_ℤ x.upstream_fd (pos fd))) [
      | inl this ↦ (0, rw this refl)
      | inr other ↦ (suc j, rw (other, f) refl)
    ]

pub proxy_get-owner :
    (cs : List ProxyConn) (fd i : ℕ) {c : ProxyConn}
    → Owned cs
    → fd ≢ 0
    → get_elem? cs i ≡ some c
    → HoldsFd c fd
    → proxy_get cs fd ≡ some i
proxy_get-owner cs fd i {c} o ne at h =
    let (j, e) = proxy_get-finds cs fd i {c = c} at h in
    let (d, at', h') = proxy_get-HoldsFd cs fd j e in
    let (s, here, view) = ViewsAll-at o.slots cs i {c = c} o.views at in
    let (t, here', view') = ViewsAll-at o.slots cs j {c = d} o.views at' in
    e
    ∙ ap some (
        o.apart j i fd t s here' here (HoldsFd-Uses t d fd view' ne h')
          (HoldsFd-Uses s c fd view ne h))

-- An event of a descriptor other than 0 and the listening socket, at a pool in which no two slots
-- have the same descriptor open, leaves every connection as it is that does not have it open.
pub on_event-others :
    (w : Worker) (s : Shared) (fd : ℕ) (can_read can_write : Bool) (env : EventEnv) (j : ℕ)
    {c : ProxyConn}
    → Owned w.pool
    → fd ≢ 0
    → fd ≢ w.listen_fd
    → get_elem? w.pool j ≡ some c
    → ¬ HoldsFd c fd
    → get_elem? (on_event w s fd can_read can_write env).0.pool j ≡ some c
unfolding on_event on_slot
on_event-others w s fd can_read can_write env j {c} o ne other at without =
    let closed : (fd == w.listen_fd) ≡ false = ground (arith, other) in
    elim (Option-cases (proxy_get w.pool fd)) [
      | inl f ↦ simp (closed, f) at
      | inr (i, f) ↦
          let (d, here, held) = proxy_get-HoldsFd w.pool fd i f in
          let (u, _, view) = ViewsAll-at o.slots w.pool i {c = d} o.views here in
          let leads =
            on_conn-Leads (λ n. Unit) w i d u can_read can_write env (λ host port n e. tt) here
              (HoldsFd-used u d fd view ne held) view in
          let apart : i ≢ j = λ same.
            let this_slot : get_elem? w.pool i ≡ some c = ap (λ k. get_elem? w.pool k) same ∙ at in
            let one : d ≡ c = ground (arith, here, this_slot) in
            without (subst (λ x. HoldsFd x fd) one held) in
          rw (closed, f, on_slot, here)
            (ap (λ p. get_elem? p j) leads.pool ∙ (get_elem?-set_ne w.pool leads.conn apart ∙ at))
    ]
