-- ===== src/ModUpdate/Pass/WellFormed.antt =====
-- A check of the mods keeps the status well formed.
use mathlib.Core.Path.{subst}
use ark_asa_operator.Prelude.{
  ◌≡◌, refl, ◌≢◌, ◌==◌, ==_iff, List_eq, ℕ_eq, ℕ, Bool, Bool-cases, true, false, inl, inr, List, [],
  ◌∷◌, Option, none, some, Text, All, arith,
}
use ark_asa_operator.Prelude.Int.{ℤ}
use ark_asa_operator.Api.{
  ArkCluster, ArkClusterSpec, Condition, ModAutoUpdateSpec, TrackedMod, ModStatus,
  SecretKeySelector,
}
use ark_asa_operator.Kube.{Result, ok, err, Action, Client, modify_cluster, ◌>>=◌, recorded}
use ark_asa_operator.Kube.Quiet.{Quiet, quiet_rules, Quiet-call_ok}
use ark_asa_operator.Kube.Preserves.{
  SendsGood, preserves_rules, Preserves-bind, Preserves-modify, Preserves-write, Preserves-run,
}
use ark_asa_operator.CurseForge.{ModInfo, ModApi, ModClient, get_files}
use ark_asa_operator.ModUpdate.Merge.{hash_tracked}
use ark_asa_operator.ModUpdate.Pass.{
  replace_condition, with_conditions, with_mods, stamp, read_api_key, set_mod_failed_condition,
  write_status, wait_after, stamp_if, after_fetch, fetch, after_key, after_wait, check_mods,
  if_enabled, reconcile_mods, reconcile_named,
}
use ark_asa_operator.Controller.WellFormed.{Distinct, IsGoodStatus, IsWellFormed}
use ark_asa_operator.Controller.WellFormed.Flows.{Sound, Quiet-Sound}

-- The type of no condition in the list is `t`.
replace_condition-lacks :
    (cond : Condition) (t : Text) (conds : List Condition)
    → cond.type ≢ t
    → All (λ (c : Condition). c.type ≢ t) conds
    → All (λ (c : Condition). c.type ≢ t) (replace_condition cond conds)
unfolding replace_condition
replace_condition-lacks cond t [] n h = (n, tt)
replace_condition-lacks cond t (c ∷ conds) n (h, hs) =
    ground (arith, replace_condition-lacks cond t conds n hs)

pub replace_condition-Distinct :
    (cond : Condition) (conds : List Condition)
    → Distinct (λ (c : Condition). c.type) conds
    → Distinct (λ (c : Condition). c.type) (replace_condition cond conds)
unfolding replace_condition
replace_condition-Distinct cond [] h = (tt, tt)
replace_condition-Distinct cond (c ∷ conds) (h, hs) = elim (Bool-cases (c.type == cond.type)) [
  | inl e ↦ rw e (
    subst (λ (t : Text). All (λ (c : Condition). c.type ≢ t) conds) ((==_iff c.type cond.type).0 e)
        h,
    hs,
  )
  | inr e ↦ rw e (
    replace_condition-lacks cond c.type conds (not_same e) h,
    replace_condition-Distinct cond conds hs,
  )
]
  where
    not_same : c.type == cond.type ≡ false → cond.type ≢ c.type
    not_same e = ground (arith, e, ==_iff c.type cond.type)

module _ {W : Type 0} (k : Client W) (spec : ArkClusterSpec) where
  conditions-Sound :
      (cond : Condition)
      → Sound k spec (modify_cluster {W = W} (with_conditions (replace_condition cond)))
  conditions-Sound cond =
      Preserves-modify (IsWellFormed spec) _
        λ c h. (h.0, (h.1.0, replace_condition-Distinct cond c.status.conditions h.1.1))

  mods-Sound : (f : ModStatus → ModStatus) → Sound k spec (modify_cluster {W = W} (with_mods f))
  mods-Sound f = Preserves-modify (IsWellFormed spec) _ λ c h. h

  set_mod_failed_condition-Sound :
      (reason message : Text) → Sound k spec (set_mod_failed_condition k reason message)
  unfolding set_mod_failed_condition
  set_mod_failed_condition-Sound reason message =
      Preserves-bind (IsWellFormed spec) _ _ (Quiet-Sound k spec (Quiet-call_ok _))
        λ now. conditions-Sound _

  write_status-Sound : Sound k spec (write_status k)
  unfolding write_status
  write_status-Sound = Preserves-write (IsWellFormed spec) _ _ λ c r h. h

  -- The patch is sent with the object that it was made from, but for the annotation.
  stamp_if-Sound : (b : Bool) (ts : List TrackedMod) → Sound k spec (stamp_if k b ts)
  unfolding stamp_if ◌>>=◌ recorded
  stamp_if-Sound false ts = Quiet-Sound k spec (search quiet_rules)
  stamp_if-Sound true ts = record {
    sound = λ s i.
        let stamped = stamp (hash_tracked k.sha256 ts) s.cluster in
        let (r, w) = k.patch s.cluster stamped s.world in
        (i, (Action.patch_cluster stamped r ∷ [], refl, (i, tt)));
  }

  after_fetch-Sound :
      (n now : ℕ) (r : Result (List (ℤ × ModInfo))) → Sound k spec (after_fetch k n now r)
  unfolding after_fetch
  after_fetch-Sound n now (err e) =
      search
        (
          preserves_rules,
          set_mod_failed_condition-Sound,
          mods-Sound,
          write_status-Sound,
          Quiet-Sound k spec,
          quiet_rules,
        )
        depth 14
  after_fetch-Sound n now (ok infos) =
      search
        (
          preserves_rules,
          stamp_if-Sound,
          mods-Sound,
          write_status-Sound,
          Quiet-Sound k spec,
          quiet_rules,
        )
        depth 14

  read_api_key-Quiet :
      {P : Action → Type 0} (sel : SecretKeySelector) → Quiet P (read_api_key k sel)
  unfolding read_api_key
  read_api_key-Quiet sel = search quiet_rules

  wait_after-Quiet : {P : Action → Type 0} (n : ℕ) (o : Option ℕ) → Quiet P (wait_after k n o)
  unfolding wait_after
  wait_after-Quiet n none = search quiet_rules
  wait_after-Quiet n (some last) = search quiet_rules

  module _ (api : ModApi W) (base : Text) where
    get_files-Quiet :
        {P : Action → Type 0} (c : ModClient) (ids : List ℤ) → Quiet P (get_files k api c ids)
    unfolding get_files
    get_files-Quiet c ids = search quiet_rules

    fetch-Sound : (n : ℕ) (key : Text) (ids : List ℤ) → Sound k spec (fetch k api base n key ids)
    unfolding fetch
    fetch-Sound n key [] = Quiet-Sound k spec (search quiet_rules)
    fetch-Sound n key (id ∷ ids) =
        search
          (preserves_rules, get_files-Quiet, after_fetch-Sound, Quiet-Sound k spec, quiet_rules)
          depth 12

    after_key-Sound : (n : ℕ) (r : Result Text) → Sound k spec (after_key k api base n r)
    unfolding after_key
    after_key-Sound n (err e) =
        search
          (
            preserves_rules,
            set_mod_failed_condition-Sound,
            write_status-Sound,
            Quiet-Sound k spec,
            quiet_rules,
          )
          depth 12
    after_key-Sound n (ok key) =
        search (preserves_rules, fetch-Sound, Quiet-Sound k spec, quiet_rules) depth 12

    after_wait-Sound :
        (auto : ModAutoUpdateSpec) (n : ℕ) (o : Option ℕ)
        → Sound k spec (after_wait k api base auto n o)
    unfolding after_wait
    after_wait-Sound auto n none =
        search
          (preserves_rules, after_key-Sound, read_api_key-Quiet, Quiet-Sound k spec, quiet_rules)
          depth 12
    after_wait-Sound auto n (some d) = Quiet-Sound k spec (search quiet_rules)

    check_mods-Sound : (auto : ModAutoUpdateSpec) → Sound k spec (check_mods k api base auto)
    unfolding check_mods
    check_mods-Sound auto =
        search
          (preserves_rules, after_wait-Sound, wait_after-Quiet, Quiet-Sound k spec, quiet_rules)
          depth 12

    if_enabled-Sound : (o : Option ModAutoUpdateSpec) → Sound k spec (if_enabled k api base o)
    unfolding if_enabled
    if_enabled-Sound none = Quiet-Sound k spec (search quiet_rules)
    if_enabled-Sound (some auto) =
        search (preserves_rules, check_mods-Sound, Quiet-Sound k spec, quiet_rules)

    reconcile_mods-Sound : Sound k spec (reconcile_mods k api base)
    unfolding reconcile_mods
    reconcile_mods-Sound =
        search (preserves_rules, if_enabled-Sound, Quiet-Sound k spec, quiet_rules)

module _ {W : Type 0} (k : Client W) (api : ModApi W) (base : Text) where
  -- Where the status is well formed, all that a check writes is, and has the spec that was read.
  pub reconcile_mods-IsWellFormed :
      (namespace name : Text) (w : W) (c : ArkCluster)
      → (k.get_cluster namespace name w).0 ≡ ok c
      → IsGoodStatus c.status
      → All (SendsGood (IsWellFormed c.spec)) (reconcile_named k api base namespace name w).2
  unfolding reconcile_named
  reconcile_mods-IsWellFormed namespace name w c e h =
      rw (reconcile_named, e)
        (Preserves-run (IsWellFormed c.spec) _ (reconcile_mods-Sound k c.spec api base) c
          (k.get_cluster namespace name w).1 (refl, h))
