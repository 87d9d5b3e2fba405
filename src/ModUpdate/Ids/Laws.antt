-- ===== src/ModUpdate/Ids/Laws.antt =====
-- The mods that are polled, and the maps that a mod's change concerns.
use mathlib.Core.Path.{subst}
use ark_asa_operator.Prelude.{
  ◌≡◌, refl, sym, ap, ◌∙◌, Bool, true, false, ◌==◌, ==_iff, List_eq, ℕ_eq, ◌||◌, if◌then◌else◌,
  List, [], ◌∷◌, ◌++◌, any, keep_if, map, length, ltb, arith, Bool-cases, inl, inr, none, some,
  Text,
}
use ark_asa_operator.Prelude.Int.{ℤ, ℤ_eq}
use ark_asa_operator.Prelude.Sorting.{ℤ_order, Text_order, sort}
use ark_asa_operator.Prelude.Sorting.Ascending.{
  has_key, Distinct, Ascending, any-sort_by, sort_by-Ascending,
}
use ark_asa_operator.Api.{ArkCluster, MapSpec}
use ark_asa_operator.Reconcile.Pod.{find_map, mods_or, pod_mods}
use ark_asa_operator.ModUpdate.Ids.{
  contains, add_id, add_ids, add_map_ids, collect_mod_ids, uses_mod, affected_maps,
}

any-append :
    {A : Type 0} (p : A → Bool) (xs ys : List A) → any p (xs ++ ys) ≡ (any p xs || any p ys)
any-append p [] ys = refl
any-append p (x ∷ xs) ys = ground (arith, any-append p xs ys)

contains-add_id :
    (key id : ℤ) (set : List ℤ) → contains key (add_id id set) ≡ ((id == key) || contains key set)
unfolding add_id
contains-add_id key id set = elim (Bool-cases (contains id set)) [
  | inl e ↦ rw e (known e)
  | inr e ↦ rw (e, any-append (λ m. m == key) set (id ∷ [])) (ground arith)
]
  where
    known : contains id set ≡ true → contains key set ≡ ((id == key) || contains key set)
    known e = ground (arith, e, ==_iff id key, ap (λ (i : ℤ). contains i set))

contains-add_ids :
    (key : ℤ) (mods set : List ℤ)
    → contains key (add_ids mods set) ≡ (contains key mods || contains key set)
unfolding add_ids
contains-add_ids key [] set = refl
contains-add_ids key (m ∷ mods) set =
    ground (arith, contains-add_ids key mods (add_id m set), contains-add_id key m set)

contains-add_map_ids :
    (key : ℤ) (maps : List MapSpec) (set : List ℤ)
    → contains key (add_map_ids maps set)
      ≡ (any (λ m. contains key m.mods) maps || contains key set)
unfolding add_map_ids
contains-add_map_ids key [] set = refl
contains-add_map_ids key (m ∷ maps) set =
    ground
      (arith, contains-add_map_ids key maps (add_ids m.mods set), contains-add_ids key m.mods set)

abbrev pub self : ℤ → ℤ
self id = id

at_end :
    (id : ℤ) (set : List ℤ)
    → Distinct self set
    → contains id set ≡ false
    → Distinct self (set ++ (id ∷ []))
at_end id [] d h = (refl, tt)
at_end id (x ∷ set) (fresh, d) h = (
  any-append (λ m. m == x) set (id ∷ []) ∙ ground (arith, fresh, h, ==_iff id x, ==_iff x id),
  at_end id set d (ground (arith, h)),
)

add_id-Distinct : (id : ℤ) (set : List ℤ) → Distinct self set → Distinct self (add_id id set)
unfolding add_id
add_id-Distinct id set d = elim (Bool-cases (contains id set)) [
  | inl e ↦ rw e d
  | inr e ↦ rw e (at_end id set d e)
]

add_ids-Distinct : (mods set : List ℤ) → Distinct self set → Distinct self (add_ids mods set)
unfolding add_ids
add_ids-Distinct [] set d = d
add_ids-Distinct (m ∷ mods) set d = add_ids-Distinct mods (add_id m set) (add_id-Distinct m set d)

add_map_ids-Distinct :
    (maps : List MapSpec) (set : List ℤ) → Distinct self set → Distinct self (add_map_ids maps set)
unfolding add_map_ids
add_map_ids-Distinct [] set d = d
add_map_ids-Distinct (m ∷ maps) set d =
    add_map_ids-Distinct maps (add_ids m.mods set) (add_ids-Distinct m.mods set d)

-- The polled IDs ascend, with none twice, and are the mods of the global list and of all maps.
pub collect_mod_ids_lem :
    (c : ArkCluster)
    → Ascending self (collect_mod_ids c)
      × ((id : ℤ)
          → contains id (collect_mod_ids c) ≡ (
              any (λ m. contains id m.mods) c.spec.maps || contains id c.spec.global_settings.mods))
unfolding collect_mod_ids sort
collect_mod_ids_lem c =
    let global = add_ids c.spec.global_settings.mods [] in
    let all = add_map_ids c.spec.maps global in
    (
      sort_by-Ascending self all (
          add_map_ids-Distinct c.spec.maps global
            (add_ids-Distinct c.spec.global_settings.mods [] tt)),
      λ id.
          any-sort_by self (λ m. m == id) all
          ∙ (contains-add_map_ids id c.spec.maps global
              ∙ ground (arith, contains-add_ids id c.spec.global_settings.mods [])),
    )

uses_mod_lem :
    (global : List ℤ) (id : ℤ) (m : MapSpec)
    → uses_mod (contains id global) id m ≡ contains id (mods_or global m.mods)
unfolding uses_mod
uses_mod_lem global id m = by_mods m.mods
  where
    by_mods :
        (mods : List ℤ)
        → (if ltb 0 (length mods) then contains id mods else contains id global)
          ≡ contains id (mods_or global mods)
    by_mods [] = refl
    by_mods (x ∷ mods) = ground arith

abbrev pub map_id : MapSpec → Text
map_id m = m.id

absent :
    (p : MapSpec → Bool) (key : Text) (maps : List MapSpec)
    → has_key map_id key maps ≡ false
    → any (λ x. x == key) (map map_id (keep_if p maps)) ≡ false
absent p key [] h = refl
absent p key (m ∷ maps) h = ground (arith, absent p key maps, h)

-- The IDs of the maps that are found to use a mod: those whose first map in the list does.
affected_loop :
    (global : List ℤ) (id : ℤ) (key : Text) (maps : List MapSpec)
    → Distinct map_id maps
    → any (λ x. x == key) (map map_id (keep_if (uses_mod (contains id global) id) maps))
      ≡ (elim (find_map key maps) [ none ↦ false | some m ↦ contains id (mods_or global m.mods) ])
unfolding find_map
affected_loop global id key [] d = refl
affected_loop global id key (m ∷ maps) (fresh, d) = elim (Bool-cases (m.id == key)) [
  | inl e ↦
      let no_more = absent (uses_mod (contains id global) id) m.id maps fresh in
      ground (
        arith,
        e,
        uses_mod_lem global id m,
        subst
            (λ (i : Text).
              any (λ x. x == i) (map map_id (keep_if (uses_mod (contains id global) id) maps))
              ≡ false)
            ((==_iff m.id key).0 e) no_more,
      )
  | inr e ↦ ground (arith, e, affected_loop global id key maps d)
]

pod_mods-some :
    (c : ArkCluster) (key : Text) (m : MapSpec)
    → find_map key c.spec.maps ≡ some m
    → pod_mods c key ≡ mods_or c.spec.global_settings.mods m.mods
unfolding pod_mods
pod_mods-some c key m found = ground (arith, found)

-- For a map of the cluster, where no map ID is there twice: the map is listed as affected by a mod
-- exactly if the mod is among those that its server pod is started with.
pub affected_maps_iff :
    (c : ArkCluster) (id : ℤ) (m : MapSpec) (key : Text)
    → Distinct map_id c.spec.maps
    → find_map key c.spec.maps ≡ some m
    → any (λ x. x == key) (affected_maps c id) ≡ contains id (pod_mods c key)
unfolding affected_maps sort
affected_maps_iff c id m key d found =
    any-sort_by (λ (t : Text). t) (λ x. x == key) _
    ∙ (affected_loop c.spec.global_settings.mods id key c.spec.maps d
        ∙ (rw found refl ∙ ap (contains id) (sym (pod_mods-some c key m found))))
