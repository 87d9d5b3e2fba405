-- ===== src/Controller/Settled/Views.antt =====
-- The phase of a map, by its ID.
use ark_asa_operator.Prelude.{
  ◌≡◌, refl, ◌≢◌, ◌⊎◌, inl, inr, ◌==◌, ==_iff, ==_refl, List_eq, ℕ_eq, Bool, Bool-cases, true,
  false, if◌then◌else◌, List, [], ◌∷◌, modify, keep_if, any, Option, none, some, Text, arith,
}
use ark_asa_operator.Api.{MapSpec, MapStatus, MapPhase}
use ark_asa_operator.Reconcile.Status.{ensure_map_status, status_index}
use ark_asa_operator.Controller.Settled.{view_of, with_phase}
use ark_asa_operator.Controller.Settled.Ends.{IsSettled, SettledAt}

-- The map is among those of the list.
abbrev pub has_id : List MapSpec → Text → Bool
has_id maps j = any (λ m. m.id == j) maps

-- The phase of the first entry with the ID.
abbrev pub phase_of : Text → List (Text × MapPhase) → Option MapPhase
phase_of id [] = none
phase_of id (e ∷ l) = let rest = phase_of id l in if e.0 == id then some e.1 else rest

-- The map has an entry, and it is in a phase that needs no haste.
abbrev pub Settled : Text → List (Text × MapPhase) → Type 0
Settled id l = (phase_of id l ≡ some MapPhase.running) ⊎ (phase_of id l ≡ some MapPhase.failed)

first-Settled :
    (id i : Text) (x : MapPhase) (l : List (Text × MapPhase))
    → i == id ≡ true
    → IsSettled x
    → Settled id ((i, x) ∷ l)
first-Settled id i x l e (inl h) = inl (ground (arith, e, h))
first-Settled id i x l e (inr h) = inr (ground (arith, e, h))

later-Settled :
    (id i : Text) (x : MapPhase) (l : List (Text × MapPhase))
    → i == id ≡ false
    → Settled id l
    → Settled id ((i, x) ∷ l)
later-Settled id i x l e (inl h) = inl (ground (arith, e, h))
later-Settled id i x l e (inr h) = inr (ground (arith, e, h))

module _ (id : Text) (g : MapPhase → MapPhase) where
  abbrev pub opened : List MapStatus → List MapStatus
  opened maps = ensure_map_status id maps

  -- The view after `EnsureMapStatus` and a change through its pointer.
  abbrev pub changed : List MapStatus → List (Text × MapPhase)
  changed maps = modify (view_of (opened maps)) (status_index id (opened maps)) (with_phase g)

  pub changed-Settled :
      (maps : List MapStatus)
      → SettledAt (status_index id (opened maps)) (changed maps)
      → Settled id (changed maps)
  unfolding ensure_map_status status_index
  changed-Settled [] = rw (==_refl id) λ h. first-Settled id id _ [] (==_refl id) h
  changed-Settled (m ∷ maps) = elim (Bool-cases (m.id == id)) [
    | inl e ↦ rw (e, e) λ h. first-Settled id m.id _ _ e h
    | inr e ↦ rw (e, e) λ h. later-Settled id m.id _ _ e (changed-Settled maps h)
  ]

  pub changed-others :
      (j : Text) (maps : List MapStatus)
      → id ≢ j
      → phase_of j (changed maps) ≡ phase_of j (view_of maps)
  unfolding ensure_map_status status_index
  changed-others j [] n = rw (==_refl id) (ground (arith, n, ==_iff id j))
  changed-others j (m ∷ maps) n = elim (Bool-cases (m.id == id)) [
    | inl e ↦ rw e (ground (arith, n, e, ==_iff m.id id, ==_iff m.id j))
    | inr e ↦ rw e (ground (arith, changed-others j maps n))
  ]

-- A filter that keeps all entries with the ID.
pub keep_if-phase_of :
    (id : Text) (q : MapStatus → Bool) (maps : List MapStatus)
    → ((m : MapStatus) → m.id ≡ id → q m ≡ true)
    → phase_of id (view_of (keep_if q maps)) ≡ phase_of id (view_of maps)
keep_if-phase_of id q [] h = refl
keep_if-phase_of id q (m ∷ maps) h = elim (Bool-cases (m.id == id)) [
  | inl e ↦ rw (h m ((==_iff m.id id).0 e)) (ground (arith, e))
  | inr e ↦ ground (arith, e, keep_if-phase_of id q maps h)
]
