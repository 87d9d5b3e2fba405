-- ===== src/ModUpdate/Merge.antt =====
-- `mergeModStatus` and `hashTracked`. The loop over `info` visits the entries of a Go map, in the order
-- of the list.
pub mod View
pub mod Entry
pub mod Order
pub mod Stable
use ark_asa_operator.Prelude.{
  ℕ, Bool, true, false, ◌&&◌, ◌||◌, not, ◌==◌, if◌then◌else◌, List, [], ◌∷◌, ◌++◌, take, Option,
  none, some, Text, codes,
}
use ark_asa_operator.Prelude.Int.{ℤ, pos, ℤ_eq}
use ark_asa_operator.Prelude.Decimal.{format_int}
use ark_asa_operator.Prelude.Assoc.{lookup, insert}
use ark_asa_operator.Prelude.Sorting.{ℤ_order, sort_by}
use ark_asa_operator.Api.{ArkCluster, TrackedMod, ModStatus}
use ark_asa_operator.Ark.Hash.{hex_encode}
use ark_asa_operator.CurseForge.{ModInfo}
use ark_asa_operator.ModUpdate.Ids.{affected_maps}

-- `prev[t.ID] = t` over the tracked mods: the last entry of an ID counts.
unfoldable pub prev_from : List (ℤ × TrackedMod) → List TrackedMod → List (ℤ × TrackedMod)
prev_from prev [] = prev
prev_from prev (t ∷ tracked) = prev_from (insert t.id t prev) tracked

abbrev pub tracked_of : Option ModStatus → List TrackedMod
tracked_of none = []
tracked_of (some m) = m.tracked

unfoldable pub prev_tracked : ArkCluster → List (ℤ × TrackedMod)
unfolding prev_from
prev_tracked c = prev_from [] (tracked_of c.status.mods)

-- The new entry of a mod that was not tracked.
abbrev pub new_entry : ArkCluster → ℤ → ModInfo → TrackedMod
new_entry c id info = record {
  id = id;
  slug = info.slug;
  installed_version = info.latest_version;
  installed_file_id = info.latest_file_id;
  latest_version = info.latest_version;
  latest_file_id = info.latest_file_id;
  last_changed = none;
  affected_maps = affected_maps c id;
}

-- The new entry of a mod with the previous entry `p`.
abbrev pub next_entry : ArkCluster → ℕ → ℤ → ModInfo → TrackedMod → TrackedMod
next_entry c now id info p =
    let unset = p.installed_file_id == pos 0 in
    record {
      id = id;
      slug = info.slug;
      installed_version = if unset then info.latest_version else p.installed_version;
      installed_file_id = if unset then info.latest_file_id else p.installed_file_id;
      latest_version = info.latest_version;
      latest_file_id = info.latest_file_id;
      last_changed =
          if not (p.latest_file_id == info.latest_file_id) then some now else p.last_changed;
      affected_maps = affected_maps c id;
    }

abbrev pub merge_entry : ArkCluster → ℕ → ℤ → ModInfo → Option TrackedMod → TrackedMod
merge_entry c now id info none = new_entry c id info
merge_entry c now id info (some p) = next_entry c now id info p

abbrev pub is_changed : ModInfo → Option TrackedMod → Bool
is_changed info none = false
is_changed info (some p) = not (p.latest_file_id == info.latest_file_id)

-- The loop, with `changed` and `tracked`.
unfoldable pub merge_from :
    ArkCluster
    → ℕ
    → List (ℤ × TrackedMod)
    → Bool
    → List TrackedMod
    → List (ℤ × ModInfo)
    → List TrackedMod × Bool
merge_from c now prev changed tracked [] = (tracked, changed)
merge_from c now prev changed tracked ((id, info) ∷ infos) =
    let p = lookup id prev in
    merge_from c now prev (if is_changed info p then true else changed)
      (tracked ++ (merge_entry c now id info p ∷ [])) infos

unfoldable pub merge_mod_status : ArkCluster → List (ℤ × ModInfo) → ℕ → List TrackedMod × Bool
unfolding merge_from prev_tracked
merge_mod_status c infos now =
    let (tracked, changed) = merge_from c now (prev_tracked c) false [] infos in
    (sort_by (λ (t : TrackedMod). t.id) tracked, changed)

-- The loop `s += fmt.Sprintf("%d=%d;", …)`.
unfoldable pub tracked_text : Text → List TrackedMod → Text
tracked_text s [] = s
tracked_text s (t ∷ tracked) =
    tracked_text
      (s ++ (format_int t.id ++ (codes "=" ++ (format_int t.latest_file_id ++ codes ";")))) tracked

unfoldable pub hash_tracked : (Text → List ℕ) → List TrackedMod → Text
unfolding tracked_text
hash_tracked sha256 tracked = hex_encode (take 8 (sha256 (tracked_text [] tracked)))
