-- ===== src/Controller/WellFormed/Updates.antt =====
-- The changes of the status that keep it well formed.
use mathlib.Core.Path.{subst}
use mathlib.Core.Option
use ark_asa_operator.Prelude.{
  Bool-cases, if-both, get_elem?, ◌≡◌, refl, ◌≢◌, false, ◌==◌, ==_iff, List_eq, ℕ_eq, inl, inr,
  List, [], ◌∷◌, All, modify, Text, ℕ, zero, suc, arith,
}
use ark_asa_operator.Api.{Condition, ConditionStatus_eq, MapStatus}
use ark_asa_operator.Reconcile.Status.{
  set_condition, set_map_condition, fresh_status, ensure_map_status,
}
use ark_asa_operator.Controller.WellFormed.{Distinct, IsEntry, AreEntries}

-- The type of no condition in the list is `t`.
abbrev Lacks : Text → List Condition → Type 0
Lacks t conds = All (λ (c : Condition). c.type ≢ t) conds

set_condition-Lacks :
    (now : ℕ) (cond : Condition) (t : Text) (conds : List Condition)
    → cond.type ≢ t
    → Lacks t conds
    → Lacks t (set_condition now cond conds)
unfolding set_condition
set_condition-Lacks now cond t [] n h = (n, tt)
set_condition-Lacks now cond t (c ∷ conds) n (h, hs) =
    ground (arith, set_condition-Lacks now cond t conds n hs)

set_condition-Distinct :
    (now : ℕ) (cond : Condition) (conds : List Condition)
    → Distinct (λ (c : Condition). c.type) conds
    → Distinct (λ (c : Condition). c.type) (set_condition now cond conds)
unfolding set_condition
set_condition-Distinct now cond [] h = (tt, tt)
set_condition-Distinct now cond (c ∷ conds) (h, hs) = elim (Bool-cases (c.type == cond.type)) [
  | inl e ↦ rw e (
      if-both (Distinct (λ (c : Condition). c.type)) (c.status == cond.status) (h, hs)
        (subst (λ (t : Text). Lacks t conds) ((==_iff c.type cond.type).0 e) h, hs))
  | inr e ↦ rw e (
    set_condition-Lacks now cond c.type conds (not_same e) h,
    set_condition-Distinct now cond conds hs,
  )
]
  where
    not_same : c.type == cond.type ≡ false → cond.type ≢ c.type
    not_same e = ground (arith, e, ==_iff c.type cond.type)

-- The ID of no entry in the list is `j`.
abbrev Misses : Text → List MapStatus → Type 0
Misses j maps = All (λ (m : MapStatus). m.id ≢ j) maps

set_map_condition-Misses :
    (now : ℕ) (id : Text) (cond : Condition) (j : Text) (maps : List MapStatus)
    → Misses j maps
    → Misses j (set_map_condition now id cond maps)
unfolding set_map_condition
set_map_condition-Misses now id cond j [] h = tt
set_map_condition-Misses now id cond j (m ∷ maps) (h, hs) =
    ground (arith, set_map_condition-Misses now id cond j maps hs)

pub set_map_condition-AreEntries :
    (now : ℕ) (id : Text) (cond : Condition) (maps : List MapStatus)
    → AreEntries maps
    → AreEntries (set_map_condition now id cond maps)
unfolding set_map_condition
set_map_condition-AreEntries now id cond [] h = h
set_map_condition-AreEntries now id cond (m ∷ maps) (((va, vg, d), hs), (n, ns)) = ground (
  arith,
  set_condition-Distinct now cond m.conditions d,
  set_map_condition-AreEntries now id cond maps (hs, ns),
  set_map_condition-Misses now id cond m.id maps n,
)

ensure_map_status-Misses :
    (id j : Text) (maps : List MapStatus)
    → id ≢ j
    → Misses j maps
    → Misses j (ensure_map_status id maps)
unfolding ensure_map_status
ensure_map_status-Misses id j [] n h = (n, tt)
ensure_map_status-Misses id j (m ∷ maps) n (h, hs) =
    if-both (Misses j) (m.id == id) (h, hs) (h, ensure_map_status-Misses id j maps n hs)

pub ensure_map_status-AreEntries :
    (id : Text) (maps : List MapStatus) → AreEntries maps → AreEntries (ensure_map_status id maps)
unfolding ensure_map_status
ensure_map_status-AreEntries id [] h = (((inl refl, inl refl, tt), tt), (tt, tt))
ensure_map_status-AreEntries id (m ∷ maps) ((e, es), (n, ns)) = elim (Bool-cases (m.id == id)) [
  | inl same ↦ rw same ((e, es), (n, ns))
  | inr differs ↦
      let (es', ns') = ensure_map_status-AreEntries id maps (es, ns) in
      rw differs ((e, es'), (ensure_map_status-Misses id m.id maps (not_same differs) n, ns'))
]
  where
    not_same : m.id == id ≡ false → id ≢ m.id
    not_same e = ground (arith, e, ==_iff m.id id)

-- Assignments through a pointer that keep the ID of the entry.
modify-Misses :
    (f : MapStatus → MapStatus) (same : (m : MapStatus) → (f m).id ≡ m.id) (j : Text) (p : ℕ)
    (maps : List MapStatus)
    → Misses j maps
    → Misses j (modify maps p f)
modify-Misses f same j p [] h = tt
modify-Misses f same j zero (m ∷ maps) (h, hs) = (rw (same m) h, hs)
modify-Misses f same j (suc p) (m ∷ maps) (h, hs) = (h, modify-Misses f same j p maps hs)

pub modify-AreEntries :
    (f : MapStatus → MapStatus) (same : (m : MapStatus) → (f m).id ≡ m.id)
    (good : (m : MapStatus) → IsEntry m → IsEntry (f m)) (p : ℕ) (maps : List MapStatus)
    → AreEntries maps
    → AreEntries (modify maps p f)
modify-AreEntries f same good p [] h = h
modify-AreEntries f same good zero (m ∷ maps) ((e, es), (n, ns)) =
    ((good m e, es), (rw (same m) n, ns))
modify-AreEntries f same good (suc p) (m ∷ maps) ((e, es), (n, ns)) =
    let (es', ns') = modify-AreEntries f same good p maps (es, ns) in
    ((e, es'), (modify-Misses f same m.id p maps n, ns'))

-- The entry behind a pointer, a fresh one where the pointer is out of range.
pub get_elem?-IsEntry :
    (p : ℕ) (maps : List MapStatus)
    → All IsEntry maps
    → IsEntry (Option.get_or (get_elem? maps p) (fresh_status []))
get_elem?-IsEntry p [] h = (inl refl, inl refl, tt)
get_elem?-IsEntry zero (m ∷ maps) (h, hs) = h
get_elem?-IsEntry (suc p) (m ∷ maps) (h, hs) = get_elem?-IsEntry p maps hs
