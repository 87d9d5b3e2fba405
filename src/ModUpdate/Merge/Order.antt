-- ===== src/ModUpdate/Merge/Order.antt =====
-- The merge does not depend on the order of the API's data. `infos` stands for a Go map, so it has no
-- ID twice.
use mathlib.Core.Option
use ark_asa_operator.Prelude.{
  ℕ, ◌≡◌, refl, sym, ap, ◌∙◌, Bool, true, false, ◌==◌, ==_iff, ==_refl, List, [], ◌∷◌, arith,
  Bool-cases, inl, inr, none, some,
}
use ark_asa_operator.Prelude.Int.{ℤ, ℤ_eq}
use ark_asa_operator.Prelude.Assoc.{lookup}
use ark_asa_operator.Prelude.Sorting.{ℤ_order}
use ark_asa_operator.Prelude.Sorting.Ascending.{
  has_key, Distinct, Ascending, sort_by-Ascending, Ascending-ext,
}
use ark_asa_operator.Api.{ArkCluster}
use ark_asa_operator.CurseForge.{ModInfo}
use ark_asa_operator.ModUpdate.Merge.{merge_entry, is_changed, merge_mod_status}
use ark_asa_operator.ModUpdate.Merge.View.{
  id_of, prev_entry, entries, any_changed, merge_mod_status_lem, merge_entry-id,
  find_key-merge_mod_status,
}

abbrev pub key_of : ℤ × ModInfo → ℤ
key_of e = e.0

has_key-entries :
    (c : ArkCluster) (now : ℕ) (infos : List (ℤ × ModInfo)) (id : ℤ)
    → has_key id_of id (entries c now infos) ≡ has_key key_of id infos
has_key-entries c now [] id = refl
has_key-entries c now ((x, info) ∷ infos) id =
    rw (merge_entry-id c now x info (prev_entry c x), has_key-entries c now infos id) refl

entries-Distinct :
    (c : ArkCluster) (now : ℕ) (infos : List (ℤ × ModInfo))
    → Distinct key_of infos
    → Distinct id_of (entries c now infos)
entries-Distinct c now [] d = tt
entries-Distinct c now ((x, info) ∷ infos) (h, d) = (
  ap (λ (i : ℤ). has_key id_of i (entries c now infos))
        (merge_entry-id c now x info (prev_entry c x))
      ∙ (has_key-entries c now infos x ∙ h),
  entries-Distinct c now infos d,
)

-- The tracked mods that the merge gives ascend by their IDs, and none is there twice.
pub merge_mod_status-Ascending :
    (c : ArkCluster) (infos : List (ℤ × ModInfo)) (now : ℕ)
    → Distinct key_of infos
    → Ascending id_of (merge_mod_status c infos now).0
merge_mod_status-Ascending c infos now d =
    rw (merge_mod_status_lem c infos now)
      (sort_by-Ascending id_of (entries c now infos) (entries-Distinct c now infos d))

any_changed_of_lookup :
    (c : ArkCluster) (infos : List (ℤ × ModInfo)) (id : ℤ) (info : ModInfo)
    → lookup id infos ≡ some info
    → is_changed info (prev_entry c id) ≡ true
    → any_changed c infos ≡ true
unfolding lookup
any_changed_of_lookup c [] id info e h = ground (arith, e)
any_changed_of_lookup c ((x, i) ∷ infos) id info e h = elim (Bool-cases (x == id)) [
  | inl same ↦ let q : i ≡ info = ground (arith, e, same) in rw ((==_iff x id).0 same, q, h) refl
  | inr other ↦ ground (arith, any_changed_of_lookup c infos id info (ground (arith, e, other)) h)
]

-- A mod of the map that counts as changed.
abbrev pub Change : ArkCluster → List (ℤ × ModInfo) → Type 0
Change c infos =
    (id : ℤ) × (info : ModInfo) × (lookup id infos ≡ some info)
    × (is_changed info (prev_entry c id) ≡ true)

lookup-cons_ne :
    (x id : ℤ) (i info : ModInfo) (infos : List (ℤ × ModInfo))
    → has_key key_of x infos ≡ false
    → lookup id infos ≡ some info
    → lookup id ((x, i) ∷ infos) ≡ some info
unfolding lookup
lookup-cons_ne x id i info infos h e = ground (arith, e, ==_iff x id, absent id infos)
  where
    absent : (j : ℤ) (l : List (ℤ × ModInfo)) → has_key key_of j l ≡ false → lookup j l ≡ none
    absent j [] p = refl
    absent j ((y, v) ∷ l) p = ground (arith, absent j l, p)

pub changed_mod :
    (c : ArkCluster) (infos : List (ℤ × ModInfo))
    → Distinct key_of infos
    → any_changed c infos ≡ true
    → Change c infos
unfolding lookup
changed_mod c [] d h = absurd (cc h)
changed_mod c ((x, info) ∷ infos) (fresh, d) h =
    elim (Bool-cases (is_changed info (prev_entry c x))) [
      | inl e ↦ (x, info, ground (arith, ==_refl x), e)
      | inr e ↦
          let (id, i, q, r) = changed_mod c infos d (ground (arith, h, e)) in
          (id, i, lookup-cons_ne x id info i infos fresh q, r)
    ]

same_map_changed :
    (c : ArkCluster) (infos infos' : List (ℤ × ModInfo))
    → Distinct key_of infos
    → ((id : ℤ) → lookup id infos ≡ lookup id infos')
    → any_changed c infos ≡ true
    → any_changed c infos' ≡ true
same_map_changed c infos infos' d same h =
    let (id, info, q, r) = changed_mod c infos d h in
    any_changed_of_lookup c infos' id info (sym (same id) ∙ q) r

eq_of_imp : (a b : Bool) → (a ≡ true → b ≡ true) → (b ≡ true → a ≡ true) → a ≡ b
eq_of_imp true b f g = sym (f refl)
eq_of_imp false true f g = g refl
eq_of_imp false false f g = refl

-- Two maps with the same entries and no ID twice, whatever the order in which the loop visits them,
-- give the same tracked mods and the same answer whether something changed.
pub merge_mod_status_order :
    (c : ArkCluster) (infos infos' : List (ℤ × ModInfo)) (now : ℕ)
    → Distinct key_of infos
    → Distinct key_of infos'
    → ((id : ℤ) → lookup id infos ≡ lookup id infos')
    → merge_mod_status c infos now ≡ merge_mod_status c infos' now
merge_mod_status_order c infos infos' now d d' same =
    let tracked : (merge_mod_status c infos now).0 ≡ (merge_mod_status c infos' now).0 =
      Ascending-ext id_of _ _ (merge_mod_status-Ascending c infos now d)
        (merge_mod_status-Ascending c infos' now d')
        λ id.
          find_key-merge_mod_status c infos now id
          ∙ (ap (Option.map (λ (info : ModInfo). merge_entry c now id info (prev_entry c id)))
                (same id)
              ∙ sym (find_key-merge_mod_status c infos' now id)) in
    let changed : any_changed c infos ≡ any_changed c infos' =
      eq_of_imp _ _ (same_map_changed c infos infos' d same)
        (same_map_changed c infos' infos d' λ id. sym (same id)) in
    cc (tracked, changed, merge_mod_status_lem c infos now, merge_mod_status_lem c infos' now)
