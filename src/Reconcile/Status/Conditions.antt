-- ===== src/Reconcile/Status/Conditions.antt =====
-- Conditions behave as a map from condition types, and status entries as a map from map IDs.
use ark_asa_operator.Prelude.{
  ℕ, ◌≡◌, refl, ◌==◌, ==_iff, ==_refl, List_eq, ℕ_eq, if◌then◌else◌, List, [], ◌∷◌, Option, none,
  some, Text, first, get_elem?, arith,
}
use mathlib.Core.Option
use ark_asa_operator.Api.{Condition, ConditionStatus_eq, MapStatus}
use ark_asa_operator.Reconcile.Status.{
  set_condition, set_map_condition, fresh_status, status_index, ensure_map_status,
}

abbrev pub find_condition : Text → List Condition → Option Condition
find_condition t conds = first (λ c. c.type == t) conds

abbrev pub find_status : Text → List MapStatus → Option MapStatus
find_status id maps = first (λ m. m.id == id) maps

-- What becomes of the condition that was there.
abbrev pub updated : ℕ → Condition → Option Condition → Condition
updated now cond none = record cond { last_transition_time = some now }
updated now cond (some c) =
    if c.status == cond.status
    then record c { reason = cond.reason; message = cond.message }
    else record cond { last_transition_time = some now }

-- After a condition is set, the condition of its type is the old one with the new reason and message
-- if the status is unchanged (so its transition time stays), else the new one stamped with the
-- current time; the conditions of all other types are as before.
pub find_condition-set_condition :
    (now : ℕ) (cond : Condition) (t : Text) (conds : List Condition)
    → find_condition t (set_condition now cond conds) ≡ (
        if cond.type == t
        then some (updated now cond (find_condition t conds))
        else find_condition t conds)
unfolding set_condition
find_condition-set_condition now cond t [] = refl
find_condition-set_condition now cond t (c ∷ conds) = ground (
  arith,
  ==_iff c.type cond.type,
  ==_iff c.type t,
  ==_iff cond.type t,
  find_condition-set_condition now cond t conds,
)

-- `set_map_condition` changes the conditions of the named map's entry, by `set_condition`, and no
-- other entry; with no entry it changes nothing.
pub find_status-set_map_condition :
    (now : ℕ) (id j : Text) (cond : Condition) (maps : List MapStatus)
    → find_status j (set_map_condition now id cond maps) ≡ (
        if id == j
        then Option.map
            (λ (m : MapStatus). record m { conditions = set_condition now cond m.conditions })
            (find_status j maps)
        else find_status j maps)
unfolding set_map_condition
find_status-set_map_condition now id j cond [] = ground arith
find_status-set_map_condition now id j cond (m ∷ maps) = ground (
  arith,
  ==_iff m.id id,
  ==_iff m.id j,
  ==_iff id j,
  find_status-set_map_condition now id j cond maps,
)

-- After `EnsureMapStatus` the named map has an entry, the old one if there was one and a fresh one
-- otherwise; the entries of all other maps are as before.
pub find_status-ensure_map_status :
    (id j : Text) (maps : List MapStatus)
    → find_status j (ensure_map_status id maps) ≡ (
        if id == j
        then some (Option.get_or (find_status j maps) (fresh_status id))
        else find_status j maps)
unfolding ensure_map_status
find_status-ensure_map_status id j [] = refl
find_status-ensure_map_status id j (m ∷ maps) =
    ground
      (arith, ==_iff m.id id, ==_iff m.id j, ==_iff id j, find_status-ensure_map_status id j maps)

-- The pointer that `EnsureMapStatus` returns is to the named map's entry.
pub get_elem?-status_index :
    (id : Text) (maps : List MapStatus)
    → get_elem? (ensure_map_status id maps) (status_index id (ensure_map_status id maps))
      ≡ find_status id (ensure_map_status id maps)
unfolding ensure_map_status status_index
get_elem?-status_index id [] = ground (arith, ==_refl id)
get_elem?-status_index id (m ∷ maps) = ground (arith, get_elem?-status_index id maps)

-- A second call changes nothing.
pub ensure_map_status_idem :
    (id : Text) (maps : List MapStatus)
    → ensure_map_status id (ensure_map_status id maps) ≡ ensure_map_status id maps
unfolding ensure_map_status
ensure_map_status_idem id [] = ground (arith, ==_refl id)
ensure_map_status_idem id (m ∷ maps) = ground (arith, ensure_map_status_idem id maps)
