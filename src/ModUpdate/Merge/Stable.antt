-- ===== src/ModUpdate/Merge/Stable.antt =====
-- Merging the same data again changes nothing. `infos` stands for a Go map, so it has no ID twice.
use mathlib.Core.Option
use mathlib.Core.Path.{subst}
use ark_asa_operator.Prelude.{
  ℕ, ◌≡◌, refl, sym, ap, ◌∙◌, false, ◌==◌, ==_iff, ==_refl, List, [], ◌∷◌, arith, Bool-cases, inl,
  inr, Option, none, some,
}
use ark_asa_operator.Prelude.Int.{ℤ, ℤ_eq, pos}
use ark_asa_operator.Prelude.Assoc.{lookup}
use ark_asa_operator.Prelude.Sorting.{ℤ_order}
use ark_asa_operator.Prelude.Sorting.Ascending.{
  find_key, Distinct, Ascending, not_below, Ascending-ext,
}
use ark_asa_operator.Api.{ArkCluster, TrackedMod, ModStatus}
use ark_asa_operator.CurseForge.{ModInfo}
use ark_asa_operator.ModUpdate.Ids.{affected_maps}
use ark_asa_operator.ModUpdate.Merge.{merge_entry, is_changed, merge_mod_status}
use ark_asa_operator.ModUpdate.Merge.View.{
  id_of, last_tracked, prev_entry, any_changed, merge_mod_status_lem, find_key-merge_mod_status,
}
use ark_asa_operator.ModUpdate.Merge.Order.{key_of, merge_mod_status-Ascending, changed_mod}

last_tracked-none :
    (id : ℤ) (l : List TrackedMod) → find_key id_of id l ≡ none → last_tracked id l ≡ none
unfolding last_tracked Option.or_else
last_tracked-none id [] h = refl
last_tracked-none id (t ∷ l) h = ground (arith, last_tracked-none id l, h)

or_else-none : (o : Option TrackedMod) → Option.or_else o none ≡ o
unfolding Option.or_else
or_else-none none = refl
or_else-none (some t) = refl

last_tracked-Ascending :
    (id : ℤ) (l : List TrackedMod) → Ascending id_of l → last_tracked id l ≡ find_key id_of id l
unfolding last_tracked Option.or_else
last_tracked-Ascending id [] s = refl
last_tracked-Ascending id (t ∷ l) (b, s) = elim (Bool-cases (t.id == id)) [
  | inl e ↦
      let absent : last_tracked id l ≡ none =
        subst (λ (i : ℤ). last_tracked i l ≡ none) ((==_iff t.id id).0 e)
          (last_tracked-none t.id l (not_below id_of t.id l b)) in
      rw (e, absent) refl
  | inr e ↦ rw e (or_else-none (last_tracked id l) ∙ last_tracked-Ascending id l s)
]

-- The cluster with other mods in its status.
abbrev pub with_tracked : ModStatus → ArkCluster → ArkCluster
with_tracked m c = record c { status = record c.status { mods = some m } }

-- Merging once more into an entry changes nothing, and is no change.
entry_stable :
    (c : ArkCluster) (m : ModStatus) (now now' : ℕ) (id : ℤ) (info : ModInfo)
    (o : Option TrackedMod)
    → let t = merge_entry c now id info o in
      (merge_entry (with_tracked m c) now' id info (some t) ≡ t)
      × (is_changed info (some t) ≡ false)
unfolding affected_maps
entry_stable c m now now' id info none = ground (arith, ==_refl info.latest_file_id)
entry_stable c m now now' id info (some p) =
    ground (arith, ==_refl info.latest_file_id, ==_refl (pos 0), ==_iff info.latest_file_id (pos 0))

module _ (c : ArkCluster) (infos : List (ℤ × ModInfo)) (now now' : ℕ) (m : ModStatus)
    (d : Distinct key_of infos) (stored : m.tracked ≡ (merge_mod_status c infos now).0) where
  stored_entry :
      (id : ℤ)
      → prev_entry (with_tracked m c) id
        ≡ Option.map
            (λ (info : ModInfo). merge_entry c now id info (prev_entry c id))
            (lookup id infos)
  stored_entry id =
      ap (last_tracked id) stored
      ∙ (last_tracked-Ascending id _ (merge_mod_status-Ascending c infos now d)
          ∙ find_key-merge_mod_status c infos now id)

  stored_some :
      (id : ℤ) (info : ModInfo)
      → lookup id infos ≡ some info
      → prev_entry (with_tracked m c) id ≡ some (merge_entry c now id info (prev_entry c id))
  stored_some id info q =
      stored_entry id
      ∙ ap (Option.map (λ (i : ModInfo). merge_entry c now id i (prev_entry c id))) q

  same_entry :
      (id : ℤ) (o : Option ModInfo)
      → lookup id infos ≡ o
      → Option.map
          (λ (info : ModInfo).
            merge_entry (with_tracked m c) now' id info (prev_entry (with_tracked m c) id))
          o
        ≡ Option.map (λ (info : ModInfo). merge_entry c now id info (prev_entry c id)) o
  same_entry id none q = refl
  same_entry id (some info) q =
      ap (λ (p : Option TrackedMod). some (merge_entry (with_tracked m c) now' id info p))
        (stored_some id info q)
      ∙ ap (λ (t : TrackedMod). some t) (entry_stable c m now now' id info (prev_entry c id)).0

  no_change : any_changed (with_tracked m c) infos ≡ false
  no_change = elim (Bool-cases (any_changed (with_tracked m c) infos)) [
    | inr e ↦ e
    | inl e ↦
        let (id, info, q, r) = changed_mod (with_tracked m c) infos d e in
        let kept = (entry_stable c m now now' id info (prev_entry c id)).1 in
        cc (ap (is_changed info) (stored_some id info q), r, kept)
  ]

  -- If a status holds the outcome of a merge of a map that has no ID twice, then merging the same
  -- map again, at any time, reports no change and gives the same tracked mods.
  pub merge_mod_status_again :
      merge_mod_status (with_tracked m c) infos now' ≡ ((merge_mod_status c infos now).0, false)
  merge_mod_status_again =
      let tracked : (merge_mod_status (with_tracked m c) infos now').0
          ≡ (merge_mod_status c infos now).0 =
        Ascending-ext id_of _ _ (merge_mod_status-Ascending (with_tracked m c) infos now' d)
          (merge_mod_status-Ascending c infos now d)
          λ id.
            find_key-merge_mod_status (with_tracked m c) infos now' id
            ∙ (same_entry id (lookup id infos) refl
                ∙ sym (find_key-merge_mod_status c infos now id)) in
      cc (tracked, no_change, merge_mod_status_lem (with_tracked m c) infos now')
