-- ===== src/ModUpdate/Merge/Entry.antt =====
-- What `mergeModStatus` records of a mod, field by field, and when it reports a change.
use mathlib.Core.Option
use mathlib.Core.List.{Memᴰ}
use ark_asa_operator.Prelude.{
  ℕ, ◌≡◌, ◌≢◌, ◌↔◌, ◌⊎◌, refl, sym, ap, Bool, true, not, ◌==◌, ==_iff, Bool-cases, inl, inr, List,
  [], ◌∷◌, Option, none, some, arith,
}
use mathlib.Core.Path.{subst}
use ark_asa_operator.Prelude.Int.{ℤ, pos, ℤ_eq}
use ark_asa_operator.Prelude.Assoc.{lookup}
use ark_asa_operator.Prelude.Sorting.{ℤ_order}
use ark_asa_operator.Prelude.Sorting.Ascending.{find_key}
use ark_asa_operator.Api.{ArkCluster, TrackedMod}
use ark_asa_operator.CurseForge.{ModInfo}
use ark_asa_operator.ModUpdate.Ids.{affected_maps}
use ark_asa_operator.ModUpdate.Merge.{merge_entry, is_changed, merge_mod_status}
use ark_asa_operator.ModUpdate.Merge.View.{
  id_of, prev_entry, any_changed, merge_mod_status_lem, find_key-merge_mod_status,
}

-- What is installed and when the mod last changed: as the API says and never, if the mod was not
-- tracked; else what was installed, unless that was not known, and now, if there is another file.
abbrev pub Follows : ℕ → ModInfo → Option TrackedMod → TrackedMod → Type 0
Follows now info none t =
    (t.installed_version ≡ info.latest_version)
    × (t.installed_file_id ≡ info.latest_file_id)
    × (t.last_changed ≡ none)
Follows now info (some p) t =
    (((p.installed_file_id ≡ pos 0)
        × (t.installed_version ≡ info.latest_version)
        × (t.installed_file_id ≡ info.latest_file_id))
      ⊎ ((p.installed_file_id ≢ pos 0)
          × (t.installed_version ≡ p.installed_version)
          × (t.installed_file_id ≡ p.installed_file_id)))
    × (((p.latest_file_id ≡ info.latest_file_id) × (t.last_changed ≡ p.last_changed))
        ⊎ ((p.latest_file_id ≢ info.latest_file_id) × (t.last_changed ≡ some now)))

-- The entry that is found for a mod, from the API's data and the previous entry.
abbrev pub Recorded : ArkCluster → ℕ → ℤ → Option ModInfo → Option TrackedMod → Type 0
Recorded c now id none found = found ≡ none
Recorded c now id (some info) found =
    (t : TrackedMod) × (found ≡ some t)
    × (t.id ≡ id)
    × (t.slug ≡ info.slug)
    × (t.latest_version ≡ info.latest_version)
    × (t.latest_file_id ≡ info.latest_file_id)
    × (t.affected_maps ≡ affected_maps c id)
    × Follows now info (prev_entry c id) t

-- A tracked mod has another latest file than before.
abbrev pub NewFile : ArkCluster → List (ℤ × ModInfo) → Type 0
NewFile c infos =
    (id : ℤ) × (info : ModInfo) × (p : TrackedMod) × Memᴰ (id, info) infos
    × (prev_entry c id ≡ some p)
    × (p.latest_file_id ≢ info.latest_file_id)

merge_entry-Follows :
    (c : ArkCluster) (now : ℕ) (id : ℤ) (info : ModInfo) (o : Option TrackedMod)
    → Follows now info o (merge_entry c now id info o)
merge_entry-Follows c now id info none = (refl, refl, refl)
merge_entry-Follows c now id info (some p) = (
  elim (Bool-cases (p.installed_file_id == pos 0)) [
    | inl e ↦ inl ((==_iff _ _).0 e, rw e refl, rw e refl)
    | inr e ↦ inr (ground (arith, e, ==_iff p.installed_file_id (pos 0)), rw e refl, rw e refl)
  ],
  elim (Bool-cases (p.latest_file_id == info.latest_file_id)) [
    | inl e ↦ inl ((==_iff _ _).0 e, rw e refl)
    | inr e ↦ inr (ground (arith, e, ==_iff p.latest_file_id info.latest_file_id), rw e refl)
  ],
)

merge_entry-Recorded :
    (c : ArkCluster) (now : ℕ) (id : ℤ) (o : Option ModInfo)
    → Recorded c now id o
        (Option.map (λ (info : ModInfo). merge_entry c now id info (prev_entry c id)) o)
merge_entry-Recorded c now id none = refl
merge_entry-Recorded c now id (some info) =
    by_previous (prev_entry c id) (merge_entry-Follows c now id info (prev_entry c id))
  where
    by_previous :
        (o : Option TrackedMod)
        → Follows now info (prev_entry c id) (merge_entry c now id info o)
        → (t : TrackedMod) × (some (merge_entry c now id info o) ≡ some t)
          × (t.id ≡ id)
          × (t.slug ≡ info.slug)
          × (t.latest_version ≡ info.latest_version)
          × (t.latest_file_id ≡ info.latest_file_id)
          × (t.affected_maps ≡ affected_maps c id)
          × Follows now info (prev_entry c id) t
    by_previous none h = (_, refl, refl, refl, refl, refl, refl, h)
    by_previous (some p) h = (_, refl, refl, refl, refl, refl, refl, h)

is_changed_iff :
    (info : ModInfo) (o : Option TrackedMod)
    → (is_changed info o ≡ true)
      ↔ ((p : TrackedMod) × (o ≡ some p) × (p.latest_file_id ≢ info.latest_file_id))
is_changed_iff info none = (λ h. ground (arith, h), λ (p, e, n). ground (arith, e))
is_changed_iff info (some p) = (
  λ h. (p, refl, ground (arith, h, ==_iff p.latest_file_id info.latest_file_id)),
  λ (q, e, n).
      subst (λ (x : TrackedMod). not (x.latest_file_id == info.latest_file_id) ≡ true)
        (sym (ap (λ (o : Option TrackedMod). Option.get_or o p) e))
        (ground (arith, n, ==_iff q.latest_file_id info.latest_file_id)),
)

any_changed-Mem :
    (c : ArkCluster) (e : ℤ × ModInfo) (infos : List (ℤ × ModInfo))
    → Memᴰ e infos
    → is_changed e.1 (prev_entry c e.0) ≡ true
    → any_changed c infos ≡ true
any_changed-Mem c e [] m h = elim m [ ]
any_changed-Mem c e ((id, info) ∷ infos) (Memᴰ.head q) h =
    let h' : is_changed info (prev_entry c id) ≡ true =
      subst (λ (x : ℤ × ModInfo). is_changed x.1 (prev_entry c x.0) ≡ true) q h in
    ground (arith, h')
any_changed-Mem c e ((id, info) ∷ infos) (Memᴰ.tail m) h =
    ground (arith, any_changed-Mem c e infos m h)

any_changed-NewFile :
    (c : ArkCluster) (infos : List (ℤ × ModInfo)) → any_changed c infos ≡ true → NewFile c infos
any_changed-NewFile c [] h = ground (arith, h)
any_changed-NewFile c ((id, info) ∷ infos) h =
    elim (Bool-cases (is_changed info (prev_entry c id))) [
      | inl e ↦
          let (p, q, n) = (is_changed_iff info (prev_entry c id)).0 e in
          (id, info, p, Memᴰ.head refl, q, n)
      | inr e ↦
          let (id', info', p, m, q, n) = any_changed-NewFile c infos (ground (arith, e, h)) in
          (id', info', p, Memᴰ.tail m, q, n)
    ]

any_changed_iff :
    (c : ArkCluster) (infos : List (ℤ × ModInfo)) → (any_changed c infos ≡ true) ↔ NewFile c infos
any_changed_iff c infos = (
  any_changed-NewFile c infos,
  λ (id, info, p, m, q, n).
      any_changed-Mem c (id, info) infos m ((is_changed_iff info (prev_entry c id)).1 (p, q, n)),
)

-- After a merge: a mod has an entry exactly if the API has the mod. The entry has the API's slug and latest
-- file and the maps that use the mod. For a mod that was not tracked, the installed file is the
-- latest one, and no change is recorded; for one that was, the installed file stays unless its ID was 0, and
-- the time of the last change stays unless the latest file is another one, when it is the
-- present. A change is reported exactly if there is such a mod.
pub merge_mod_status-Recorded :
    (c : ArkCluster) (infos : List (ℤ × ModInfo)) (now : ℕ)
    → ((id : ℤ)
        → Recorded c now id (lookup id infos) (find_key id_of id (merge_mod_status c infos now).0))
      × (((merge_mod_status c infos now).1 ≡ true) ↔ NewFile c infos)
merge_mod_status-Recorded c infos now = (
  λ id.
      subst (λ (o : Option TrackedMod). Recorded c now id (lookup id infos) o)
        (sym (find_key-merge_mod_status c infos now id))
        (merge_entry-Recorded c now id (lookup id infos)),
  subst (λ (b : Bool). (b ≡ true) ↔ NewFile c infos)
      (sym (ap (λ (r : List TrackedMod × Bool). r.1) (merge_mod_status_lem c infos now)))
      (any_changed_iff c infos),
)
