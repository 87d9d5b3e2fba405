-- ===== src/ModUpdate/Pass.antt =====
-- `Reconcile`, `readAPIKey` and `setModFailedCondition`. Times are nanoseconds; the conversions of
-- times beyond an int64 are left out.
pub mod Interval
pub mod Rate
pub mod Effects
pub mod Report
pub mod WellFormed
use ark_asa_operator.Prelude.{
  ℕ, suc, ◌+◌, ◌-◌, ◌*◌, Bool, true, false, ◌==◌, List_eq, ℕ_eq, ltb, if◌then◌else◌, List, [], ◌∷◌,
  ◌++◌, Option, none, some, Text, codes,
}
use ark_asa_operator.Prelude.Int.{ℤ, pos, negsuc, ℤ_eq, int64}
use ark_asa_operator.Prelude.Assoc.{value_at, insert}
use ark_asa_operator.Api.{
  ArkCluster, Condition, ConditionStatus, TrackedMod, ModStatus, ModAutoUpdateSpec,
  SecretKeySelector,
}
use ark_asa_operator.Kube.{
  Error, Result, ok, err, Secret, Action, Client, Exec, pure, raise, attempt, call, call_ok,
  recorded, modify_cluster, ◌>>=◌, ◌>>◌, done, cluster_now, ignore_conflict,
}
use ark_asa_operator.CurseForge.{ModInfo, ModApi, get_files}
use ark_asa_operator.Controller.Base.{condition}
use ark_asa_operator.Controller.Reconcile.{Requeue, no_requeue, requeue_after}
use ark_asa_operator.Controller.Template.{annotation_mods_changed}
use ark_asa_operator.ModUpdate.Ids.{collect_mod_ids}
use ark_asa_operator.ModUpdate.Merge.{merge_mod_status, hash_tracked}

-- time.Minute and 5*time.Minute
abbrev pub minute : ℕ
minute = 60000000000

abbrev pub shortest_interval : ℕ
shortest_interval = 300000000000

abbrev times_minute : ℤ → ℤ
times_minute (pos n) = pos (n * minute)
times_minute (negsuc n) = negsuc (suc n * minute - 1)

-- At least five minutes.
abbrev at_least_shortest : ℤ → ℕ
at_least_shortest (pos n) = if ltb n shortest_interval then shortest_interval else n
at_least_shortest (negsuc n) = shortest_interval

unfoldable pub interval_of : ℤ → ℕ
unfolding int64
interval_of minutes = at_least_shortest (int64 (times_minute minutes))

-- `setModFailedCondition`, at the time of its clock reading: the first condition of the type is
-- replaced.
unfoldable pub replace_condition : Condition → List Condition → List Condition
replace_condition cond [] = cond ∷ []
replace_condition cond (c ∷ conds) =
    let rest = replace_condition cond conds in
    if c.type == cond.type then cond ∷ conds else c ∷ rest

abbrev pub with_conditions : (List Condition → List Condition) → ArkCluster → ArkCluster
with_conditions f c = record c { status = record c.status { conditions = f c.status.conditions } }

-- `cluster.Status.Mods`, a fresh one if it is nil.
abbrev pub mods_or_fresh : Option ModStatus → ModStatus
mods_or_fresh (some m) = m
mods_or_fresh none = record {
  last_check_time = none;
  next_check_time = none;
  last_error = [];
  tracked = [];
}

abbrev pub with_mods : (ModStatus → ModStatus) → ArkCluster → ArkCluster
with_mods f c = record c {
  status = record c.status { mods = some (f (mods_or_fresh c.status.mods)) };
}

-- The assignments after a fetch that failed.
abbrev pub failed_check : ℕ → Text → ModStatus → ModStatus
failed_check now message m = record m { last_check_time = some now; last_error = message }

-- The assignments after a fetch.
abbrev pub checked : ℕ → ℕ → List TrackedMod → ModStatus → ModStatus
checked now interval tracked m = record m {
  last_check_time = some now;
  next_check_time = some (now + interval);
  last_error = [];
  tracked = tracked;
}

abbrev pub stamp : Text → ArkCluster → ArkCluster
stamp hash c = record c {
  meta = record c.meta { annotations = insert annotation_mods_changed hash c.meta.annotations };
}

abbrev pub last_check : Option ModStatus → Option ℕ
last_check none = none
last_check (some m) = m.last_check_time

abbrev pub default_base : Text
default_base = codes "https://api.curseforge.com"

-- `CurseForgeBaseURL` of the reconciler, or the real API.
abbrev pub base_or_default : Text → Text
base_or_default base = if base == [] then default_base else base

module _ {W : Type 0} (k : Client W) where
  abbrev pub message_of : Error → Text
  message_of (Error.other t) = t
  message_of e = k.error_text e

  -- The tests on the bytes of the secret's entry.
  abbrev pub key_of_secret : Text → Result Secret → Result Text
  key_of_secret key (err e) = err (Error.other (codes "read api key secret: " ++ message_of e))
  key_of_secret key (ok sec) =
      let v = value_at key sec.entries in
      if v == [] then err (Error.other (codes "api key empty")) else ok v

  -- `readAPIKey`; its error is a value for the caller.
  unfoldable pub read_api_key : SecretKeySelector → Exec W (Result Text)
  read_api_key sel = do
    c ← cluster_now
    r ← attempt (call (k.get_secret c.meta.namespace sel.name))
    pure (key_of_secret sel.key r)

  unfoldable pub set_mod_failed_condition : Text → Text → Exec W (Unit {0})
  set_mod_failed_condition reason message = do
    now ← call_ok k.now
    modify_cluster (
        with_conditions (
          replace_condition (record {
            type = codes "ModsHealthy";
            status = ConditionStatus.is_false;
            reason = reason;
            message = message;
            last_transition_time = some now;
          })))

  -- `r.Status().Update`
  unfoldable pub write_status : Exec W (Unit {0})
  write_status = do c ← cluster_now; recorded (Action.write_status c) (k.update_status c)

  -- The wait until the next check, if the interval since the last one is not over.
  unfoldable pub wait_after : ℕ → Option ℕ → Exec W (Option ℕ)
  wait_after interval none = pure none
  wait_after interval (some last) = do
    now ← call_ok k.now
    pure (if ltb now (last + interval) then some (last + interval - now) else none)

  -- The annotation that makes the cluster's reconciler roll the pods.
  unfoldable pub stamp_if : Bool → List TrackedMod → Exec W (Unit {0})
  stamp_if false tracked = done
  stamp_if true tracked = do
    c ← cluster_now
    let stamped = stamp (hash_tracked k.sha256 tracked) c
    modify_cluster (λ _. stamped)
    recorded (Action.patch_cluster stamped) (k.patch c stamped)

  -- After the fetch, at the time `now`.
  unfoldable pub after_fetch : ℕ → ℕ → Result (List (ℤ × ModInfo)) → Exec W Requeue
  after_fetch interval now (err e) = do
    set_mod_failed_condition (codes "ModAPIError") (message_of e)
    modify_cluster (with_mods (failed_check now (message_of e)))
    attempt write_status
    pure (requeue_after interval)
  after_fetch interval now (ok infos) = do
    c ← cluster_now
    let merged = merge_mod_status c infos now
    modify_cluster (with_mods (checked now interval merged.0))
    r ← attempt write_status
    ignore_conflict r
    stamp_if merged.1 merged.0
    pure (requeue_after interval)

  module _ (api : ModApi W) (base : Text) where
    -- The fetch, if the cluster has mods.
    unfoldable pub fetch : ℕ → Text → List ℤ → Exec W Requeue
    fetch interval key [] = pure (requeue_after interval)
    fetch interval key (id ∷ ids) = do
      infos ←
          attempt
            (get_files k api (record { base_url = base_or_default base; api_key = key }) (id ∷ ids))
      now ← call_ok k.now
      after_fetch interval now infos

    unfoldable pub after_key : ℕ → Result Text → Exec W Requeue
    after_key interval (err e) = do
      set_mod_failed_condition (codes "APIKeyMissing") (message_of e)
      attempt write_status
      pure (requeue_after interval)
    after_key interval (ok key) = do c ← cluster_now; fetch interval key (collect_mod_ids c)

    unfoldable pub after_wait : ModAutoUpdateSpec → ℕ → Option ℕ → Exec W Requeue
    after_wait spec interval (some wait) = pure (requeue_after wait)
    after_wait spec interval none = do
      key ← read_api_key spec.curse_forge_api_key_ref
      after_key interval key

    unfoldable pub check_mods : ModAutoUpdateSpec → Exec W Requeue
    check_mods spec = do
      c ← cluster_now
      let interval = interval_of spec.interval_minutes
      wait ← wait_after interval (last_check c.status.mods)
      after_wait spec interval wait

    -- The cluster's own switch.
    unfoldable pub if_enabled : Option ModAutoUpdateSpec → Exec W Requeue
    if_enabled none = pure no_requeue
    if_enabled (some spec) = if spec.enabled then check_mods spec else pure no_requeue

    -- `Reconcile` on a cluster that the first read has found.
    unfoldable pub reconcile_mods : Exec W Requeue
    reconcile_mods = do c ← cluster_now; if_enabled c.spec.mod_auto_update

    -- The whole pass: a cluster that is gone needs nothing.
    unfoldable pub reconcile_named : Text → Text → W → Result Requeue × W × List Action
    reconcile_named namespace name w =
        let (r, w') = k.get_cluster namespace name w in
        elim r [
          | err Error.not_found ↦ (ok no_requeue, w', [])
          | err e ↦ (err e, w', [])
          | ok c ↦
              let (r', s) =
                reconcile_mods (record { cluster = c; busy = false; world = w'; log = [] }) in
              (r', s.world, s.log)
        ]
