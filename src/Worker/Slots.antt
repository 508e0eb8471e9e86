-- ===== src/Worker/Slots.antt =====
-- src/worker.c: the pool as slots, each in some use, of which a step changes one.
use nexus_gateway.Base.{
  List, [], ap, arith, get_elem?, inl, inr, refl, set, some, subst, suc, sym, zero, ℕ, ◌∙◌, ◌∷◌,
  ◌≡◌, ◌⊎◌,
}
use nexus_gateway.Worker.Lifecycle.{
  Next, SlotUse, answering, closes_both, connecting, keeps_on, opens_node, reading, sends_request,
  takes_client, unused,
}

pub data SlotsStep (P : ℕ → Type 0) : List SlotUse → List SlotUse → Type 0 where
  same_slots : (ss : List SlotUse) → SlotsStep P ss ss
  at_slot :
      (ss : List SlotUse) (i : ℕ) (s s' : SlotUse)
      → get_elem? ss i ≡ some s
      → Next P s s'
      → SlotsStep P ss (set ss i s')

-- The slot has the descriptor open, on either side.
abbrev pub Uses : SlotUse → ℕ → Type 0
Uses unused fd = ⊥
Uses (reading c) fd = c ≡ fd
Uses (connecting c u) fd = (c ≡ fd) ⊎ (u ≡ fd)
Uses (answering c u) fd = (c ≡ fd) ⊎ (u ≡ fd)

-- No slot has the descriptor open.
abbrev pub IsNew : List SlotUse → ℕ → Type 0
IsNew ss fd = (i : ℕ) (s : SlotUse) → get_elem? ss i ≡ some s → ¬ Uses s fd

-- No two slots have the same descriptor open.
abbrev pub Apart : List SlotUse → Type 0
Apart ss =
    (i j fd : ℕ) (s t : SlotUse)
    → get_elem? ss i ≡ some s
    → get_elem? ss j ≡ some t
    → Uses s fd
    → Uses t fd
    → i ≡ j

Next-Uses : (P : ℕ → Type 0) (fd : ℕ) {s s' : SlotUse} → Next P s s' → Uses s' fd → Uses s fd ⊎ P fd
Next-Uses P fd (keeps_on s) u = inl u
Next-Uses P fd (takes_client c ne p) u = inr (subst P u p)
Next-Uses P fd (opens_node c n p) (inl u) = inl u
Next-Uses P fd (opens_node c n p) (inr u) = inr (subst P u p)
Next-Uses P fd (sends_request c n) u = inl u
Next-Uses P fd (closes_both s) u = elim u [ ]

set-cases {ℓ} :
    {A : Type ℓ} (xs : List A) (i j : ℕ) (v : A) {t : A}
    → get_elem? (set xs i v) j ≡ some t
    → ((j ≡ i) × (v ≡ t)) ⊎ (get_elem? xs j ≡ some t)
set-cases [] i j v e = inr e
set-cases (x ∷ xs) zero zero v e = inl (refl, ground arith)
set-cases (x ∷ xs) zero (suc j) v e = inr e
set-cases (x ∷ xs) (suc i) zero v e = inr e
set-cases (x ∷ xs) (suc i) (suc j) v {t} e = elim (set-cases xs i j v {t = t} e) [
  | inl (same, w) ↦ inl (ap suc same, w)
  | inr old ↦ inr old
]

-- A descriptor that slot `j` has open behind a step of slot `i` was open there, or is new.
set-Uses :
    (ss : List SlotUse) (i j fd : ℕ) (s s' t : SlotUse)
    → get_elem? ss i ≡ some s
    → Next (IsNew ss) s s'
    → get_elem? (set ss i s') j ≡ some t
    → Uses t fd
    → ((u : SlotUse) × (get_elem? ss j ≡ some u) × Uses u fd) ⊎ ((j ≡ i) × IsNew ss fd)
set-Uses ss i j fd s s' t at next e u = elim (set-cases ss i j s' {t = t} e) [
  | inr old ↦ inl (t, old, u)
  | inl (same, w) ↦ elim (Next-Uses (IsNew ss) fd next (subst (λ x. Uses x fd) (sym w) u)) [
    | inl before ↦ inl (s, ap (λ k. get_elem? ss k) same ∙ at, before)
    | inr new ↦ inr (same, new)
  ]
]

pub SlotsStep-Apart : (ss ss' : List SlotUse) → SlotsStep (IsNew ss) ss ss' → Apart ss → Apart ss'
SlotsStep-Apart ss ss' (same_slots _) a = a
SlotsStep-Apart ss ss' (at_slot _ i s s' at next) a = λ j k fd t t' ej ek u u'.
    elim (set-Uses ss i j fd s s' t at next ej u) [
      | inl (x, ex, ux) ↦ elim (set-Uses ss i k fd s s' t' at next ek u') [
        | inl (y, ey, uy) ↦ a j k fd x y ex ey ux uy
        | inr (same, new) ↦ absurd (new j x ex ux)
      ]
      | inr (same, new) ↦ elim (set-Uses ss i k fd s s' t' at next ek u') [
        | inl (y, ey, uy) ↦ absurd (new k y ey uy)
        | inr (same', new') ↦ same ∙ sym same'
      ]
    ]
