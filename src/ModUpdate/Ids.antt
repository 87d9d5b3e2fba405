-- ===== src/ModUpdate/Ids.antt =====
-- `collectModIDs` and `affectedMaps`: the mods of a cluster, and the maps of a mod.
pub mod Laws
use ark_asa_operator.Prelude.{
  ℕ, Bool, ◌==◌, ltb, if◌then◌else◌, List, [], ◌∷◌, ◌++◌, any, keep_if, length, map, Text,
}
use ark_asa_operator.Prelude.Int.{ℤ, ℤ_eq}
use ark_asa_operator.Prelude.Sorting.{ℤ_order, Text_order, sort}
use ark_asa_operator.Api.{ArkCluster, MapSpec}

abbrev pub contains : ℤ → List ℤ → Bool
contains id mods = any (λ m. m == id) mods

-- `set[m] = true`, on the keys of the set
unfoldable pub add_id : ℤ → List ℤ → List ℤ
add_id id set = if contains id set then set else set ++ (id ∷ [])

unfoldable pub add_ids : List ℤ → List ℤ → List ℤ
unfolding add_id
add_ids [] set = set
add_ids (m ∷ mods) set = add_ids mods (add_id m set)

-- The loop over the maps.
unfoldable pub add_map_ids : List MapSpec → List ℤ → List ℤ
unfolding add_ids
add_map_ids [] set = set
add_map_ids (m ∷ maps) set = add_map_ids maps (add_ids m.mods set)

unfoldable pub collect_mod_ids : ArkCluster → List ℤ
unfolding add_map_ids
collect_mod_ids c = sort (add_map_ids c.spec.maps (add_ids c.spec.global_settings.mods []))

-- The test of the loop of `affectedMaps`.
unfoldable pub uses_mod : Bool → ℤ → MapSpec → Bool
uses_mod in_global id m = if ltb 0 (length m.mods) then contains id m.mods else in_global

unfoldable pub affected_maps : ArkCluster → ℤ → List Text
unfolding uses_mod
affected_maps c id =
    let in_global = contains id c.spec.global_settings.mods in
    sort (map (λ (m : MapSpec). m.id) (keep_if (uses_mod in_global id) c.spec.maps))
