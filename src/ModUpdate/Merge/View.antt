-- ===== src/ModUpdate/Merge/View.antt =====
-- `mergeModStatus` as a change to the map from mod IDs to entries.
use mathlib.Core.Option
use mathlib.Core.List.{append_assoc, append-nil}
use ark_asa_operator.Prelude.{
  ℕ, ◌≡◌, refl, ap, ◌∙◌, Bool, true, false, ◌==◌, ==_iff, ◌||◌, if◌then◌else◌, List, [], ◌∷◌, ◌++◌,
  arith, Bool-cases, inl, inr, Option, none, some,
}
use ark_asa_operator.Prelude.Int.{ℤ, ℤ_eq}
use ark_asa_operator.Prelude.Assoc.{lookup, insert, lookup-insert}
use ark_asa_operator.Prelude.Sorting.{ℤ_order, sort_by}
use ark_asa_operator.Prelude.Sorting.Ascending.{find_key, find_key-sort_by}
use ark_asa_operator.Api.{ArkCluster, TrackedMod}
use ark_asa_operator.CurseForge.{ModInfo}
use ark_asa_operator.ModUpdate.Merge.{
  prev_from, tracked_of, prev_tracked, merge_entry, is_changed, merge_from, merge_mod_status,
}

abbrev pub id_of : TrackedMod → ℤ
id_of t = t.id

-- The entry of an ID: the last one, which is the only one in a list with no ID twice.
unfoldable pub last_tracked : ℤ → List TrackedMod → Option TrackedMod
unfolding Option.or_else
last_tracked id [] = none
last_tracked id (t ∷ tracked) =
    Option.or_else (last_tracked id tracked) (if t.id == id then some t else none)

prev_from-lookup :
    (id : ℤ) (prev : List (ℤ × TrackedMod)) (tracked : List TrackedMod)
    → lookup id (prev_from prev tracked) ≡ Option.or_else (last_tracked id tracked) (lookup id prev)
unfolding prev_from last_tracked Option.or_else
prev_from-lookup id prev [] = refl
prev_from-lookup id prev (t ∷ tracked) =
    prev_from-lookup id (insert t.id t prev) tracked ∙ ground (arith, lookup-insert t.id t id prev)

lookup_nil : (id : ℤ) → lookup {V = TrackedMod} id [] ≡ none
unfolding lookup
lookup_nil id = refl

-- The entry of an ID in the status of the cluster.
abbrev pub prev_entry : ArkCluster → ℤ → Option TrackedMod
prev_entry c id = last_tracked id (tracked_of c.status.mods)

prev_tracked-lookup : (c : ArkCluster) (id : ℤ) → lookup id (prev_tracked c) ≡ prev_entry c id
unfolding prev_tracked Option.or_else
prev_tracked-lookup c id =
    prev_from-lookup id [] (tracked_of c.status.mods) ∙ ground (arith, lookup_nil id)

-- The entries that the loop makes, in the order of the loop, and whether one of them is a change.
abbrev pub entries : ArkCluster → ℕ → List (ℤ × ModInfo) → List TrackedMod
entries c now [] = []
entries c now ((id, info) ∷ infos) =
    merge_entry c now id info (prev_entry c id) ∷ entries c now infos

abbrev pub any_changed : ArkCluster → List (ℤ × ModInfo) → Bool
any_changed c [] = false
any_changed c ((id, info) ∷ infos) = is_changed info (prev_entry c id) || any_changed c infos

or_false : (a : Bool) → (a || false) ≡ a
or_false a = ground arith

or_if : (a b c : Bool) → (a || (if b then true else c)) ≡ ((b || a) || c)
or_if a b c = ground arith

merge_from_lem :
    (c : ArkCluster) (now : ℕ) (changed : Bool) (tracked : List TrackedMod)
    (infos : List (ℤ × ModInfo))
    → merge_from c now (prev_tracked c) changed tracked infos
      ≡ (tracked ++ entries c now infos, any_changed c infos || changed)
unfolding merge_from
merge_from_lem c now changed tracked [] = ground (arith, append-nil tracked)
merge_from_lem c now changed tracked ((id, info) ∷ infos) =
    let p = prev_entry c id in
    let t = merge_entry c now id info p in
    rw (prev_tracked-lookup c id) (
      merge_from_lem c now (if is_changed info p then true else changed) (tracked ++ (t ∷ [])) infos
      ∙ cc (
        append_assoc tracked (t ∷ []) (entries c now infos),
        or_if (any_changed c infos) (is_changed info p) changed,
      ))

pub merge_mod_status_lem :
    (c : ArkCluster) (infos : List (ℤ × ModInfo)) (now : ℕ)
    → merge_mod_status c infos now ≡ (sort_by id_of (entries c now infos), any_changed c infos)
unfolding merge_mod_status
merge_mod_status_lem c infos now =
    let e : merge_from c now (prev_tracked c) false [] infos
        ≡ (entries c now infos, any_changed c infos || false) =
      merge_from_lem c now false [] infos in
    cc (e, or_false (any_changed c infos))

pub merge_entry-id :
    (c : ArkCluster) (now : ℕ) (id : ℤ) (info : ModInfo) (o : Option TrackedMod)
    → id_of (merge_entry c now id info o) ≡ id
merge_entry-id c now id info none = refl
merge_entry-id c now id info (some p) = refl

find_key-entries :
    (c : ArkCluster) (now : ℕ) (infos : List (ℤ × ModInfo)) (id : ℤ)
    → find_key id_of id (entries c now infos)
      ≡ Option.map
          (λ (info : ModInfo). merge_entry c now id info (prev_entry c id))
          (lookup id infos)
unfolding lookup
find_key-entries c now [] id = refl
find_key-entries c now ((x, info) ∷ infos) id = elim (Bool-cases (x == id)) [
  | inl e ↦
      let q : x ≡ id = (==_iff x id).0 e in
      rw (merge_entry-id c now x info (prev_entry c x), e)
        (ap (λ (i : ℤ). some (merge_entry c now i info (prev_entry c i))) q)
  | inr e ↦ rw (merge_entry-id c now x info (prev_entry c x), e) (find_key-entries c now infos id)
]

-- The merged entry of a mod is found under its ID exactly if the API has the mod: it is `merge_entry` of
-- the API's data and of the previous entry.
pub find_key-merge_mod_status :
    (c : ArkCluster) (infos : List (ℤ × ModInfo)) (now : ℕ) (id : ℤ)
    → find_key id_of id (merge_mod_status c infos now).0
      ≡ Option.map
          (λ (info : ModInfo). merge_entry c now id info (prev_entry c id))
          (lookup id infos)
find_key-merge_mod_status c infos now id =
    ap (λ (r : List TrackedMod × Bool). find_key id_of id r.0) (merge_mod_status_lem c infos now)
    ∙ (find_key-sort_by id_of id (entries c now infos) ∙ find_key-entries c now infos id)
