-- ===== src/ModUpdate/Pass/Effects.antt =====
-- What a check of the mods touches.
use ark_asa_operator.Prelude.{ℕ, Bool, true, false, List, [], ◌∷◌, Option, none, some, Text}
use ark_asa_operator.Prelude.Int.{ℤ}
use ark_asa_operator.Api.{ModAutoUpdateSpec, TrackedMod, SecretKeySelector}
use ark_asa_operator.Kube.{Result, ok, err, Action, Client}
use ark_asa_operator.Kube.Quiet.{Quiet, quiet_rules}
use ark_asa_operator.Kube.Logs.{Logs, log_rules}
use ark_asa_operator.CurseForge.{ModInfo, ModApi, ModClient, get_files}
use ark_asa_operator.ModUpdate.Pass.{
  read_api_key, set_mod_failed_condition, write_status, wait_after, stamp_if, after_fetch, fetch,
  after_key, after_wait, check_mods, if_enabled, reconcile_mods,
}

-- A status write or a patch of the cluster.
abbrev pub WritesCluster : Action → Type 0
WritesCluster (Action.write_status c r) = Unit
WritesCluster (Action.patch_cluster c r) = Unit
WritesCluster _ = ⊥

module _ {W : Type 0} (k : Client W) where
  read_api_key-Quiet : (sel : SecretKeySelector) → Quiet WritesCluster (read_api_key k sel)
  unfolding read_api_key
  read_api_key-Quiet sel = search quiet_rules

  set_mod_failed_condition-Logs :
      (reason message : Text) → Logs WritesCluster (set_mod_failed_condition k reason message)
  unfolding set_mod_failed_condition
  set_mod_failed_condition-Logs reason message = search (log_rules, quiet_rules)

  write_status-Quiet : Quiet WritesCluster (write_status k)
  unfolding write_status
  write_status-Quiet = search quiet_rules

  wait_after-Quiet : (n : ℕ) (o : Option ℕ) → Quiet WritesCluster (wait_after k n o)
  unfolding wait_after
  wait_after-Quiet n none = search quiet_rules
  wait_after-Quiet n (some last) = search quiet_rules

  stamp_if-Logs : (b : Bool) (ts : List TrackedMod) → Logs WritesCluster (stamp_if k b ts)
  unfolding stamp_if
  stamp_if-Logs false ts = search (log_rules, quiet_rules)
  stamp_if-Logs true ts = search (log_rules, quiet_rules)

  after_fetch-Logs :
      (n now : ℕ) (r : Result (List (ℤ × ModInfo))) → Logs WritesCluster (after_fetch k n now r)
  unfolding after_fetch
  after_fetch-Logs n now (err e) =
      search (log_rules, quiet_rules, set_mod_failed_condition-Logs, write_status-Quiet) depth 12
  after_fetch-Logs n now (ok infos) =
      search (log_rules, quiet_rules, stamp_if-Logs, write_status-Quiet) depth 12

  module _ (api : ModApi W) (base : Text) where
    get_files-Quiet : (c : ModClient) (ids : List ℤ) → Quiet WritesCluster (get_files k api c ids)
    unfolding get_files
    get_files-Quiet c ids = search quiet_rules

    fetch-Logs :
        (n : ℕ) (key : Text) (ids : List ℤ) → Logs WritesCluster (fetch k api base n key ids)
    unfolding fetch
    fetch-Logs n key [] = search (log_rules, quiet_rules)
    fetch-Logs n key (id ∷ ids) =
        search (log_rules, quiet_rules, get_files-Quiet, after_fetch-Logs) depth 12

    after_key-Logs : (n : ℕ) (r : Result Text) → Logs WritesCluster (after_key k api base n r)
    unfolding after_key
    after_key-Logs n (err e) =
        search (log_rules, quiet_rules, set_mod_failed_condition-Logs, write_status-Quiet) depth 12
    after_key-Logs n (ok key) = search (log_rules, quiet_rules, fetch-Logs)

    after_wait-Logs :
        (spec : ModAutoUpdateSpec) (n : ℕ) (o : Option ℕ)
        → Logs WritesCluster (after_wait k api base spec n o)
    unfolding after_wait
    after_wait-Logs spec n none =
        search (log_rules, quiet_rules, read_api_key-Quiet, after_key-Logs)
    after_wait-Logs spec n (some d) = search (log_rules, quiet_rules)

    check_mods-Logs : (spec : ModAutoUpdateSpec) → Logs WritesCluster (check_mods k api base spec)
    unfolding check_mods
    check_mods-Logs spec =
        search (log_rules, quiet_rules, wait_after-Quiet, after_wait-Logs) depth 12

    if_enabled-Logs : (o : Option ModAutoUpdateSpec) → Logs WritesCluster (if_enabled k api base o)
    unfolding if_enabled
    if_enabled-Logs none = search (log_rules, quiet_rules)
    if_enabled-Logs (some spec) = search (log_rules, quiet_rules, check_mods-Logs)

    -- A check of the mods makes no recorded call but writes of the status and patches of the cluster: it
    -- leaves pods, jobs, volumes and services to the cluster's own reconciler.
    pub reconcile_mods-Logs : Logs WritesCluster (reconcile_mods k api base)
    unfolding reconcile_mods
    reconcile_mods-Logs = search (log_rules, quiet_rules, if_enabled-Logs)
