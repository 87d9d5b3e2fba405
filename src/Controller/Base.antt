-- ===== src/Controller/Base.antt =====
-- internal/controller/arkcluster_controller.go: the helpers that the steps for one map share.
-- `mapStatus` is a pointer into the status of the cluster, here the position `p` of the entry. The
-- API server's answer to a status write, which the client decodes into the cluster object, is taken
-- to be what was sent; the events of the event recorder are left out.
pub mod Quiet
pub mod Persist
use mathlib.Core.Option
use ark_asa_operator.Prelude.{
  Option, ℕ, Bool, List_eq, ℕ_eq, if◌then◌else◌, [], map, String, get_elem?, modify, none, Text,
  codes,
}
use ark_asa_operator.Prelude.Assoc.{value_at}
use ark_asa_operator.Api.{
  ArkCluster, MapSpec, MapStatus, ModStatus, TrackedMod, Condition, ConditionStatus,
}
use ark_asa_operator.Kube.{
  Result, ok, err, Secret, Pod, Action, Client, Exec, pure, attempt, call, call_ok, tell, recorded,
  modify_cluster, ◌>>=◌, ◌>>◌, done, cluster_now, created_or_exists, ignore_conflict,
}
use ark_asa_operator.Rcon.Session
use ark_asa_operator.Reconcile.Pod.{build_server_pod}
use ark_asa_operator.Reconcile.Status.{set_map_condition, fresh_status}
use ark_asa_operator.Reconcile.Storage.{password_selector}
use ark_asa_operator.Controller.Pods.{friendly_name, is_live}

-- The entry behind the pointer.
abbrev pub status_at : ℕ → ArkCluster → MapStatus
status_at p c = Option.get_or (get_elem? c.status.maps p) (fresh_status [])

-- Assignments through the pointer.
abbrev pub write_at : ℕ → (MapStatus → MapStatus) → ArkCluster → ArkCluster
write_at p f c = record c { status = record c.status { maps = modify c.status.maps p f } }

abbrev pub condition : String → ConditionStatus → String → Text → Condition
condition type status reason message = record {
  type = codes type;
  status = status;
  reason = codes reason;
  message = message;
  last_transition_time = none;
}

-- The tracked mods after a roll: installed is the latest.
abbrev pub mark_installed : TrackedMod → TrackedMod
mark_installed t = record t {
  installed_file_id = t.latest_file_id;
  installed_version = t.latest_version;
}

abbrev pub mark_all_installed : ArkCluster → ArkCluster
mark_all_installed c = record c {
  status = record c.status {
    mods =
        Option.map (λ (m : ModStatus). record m { tracked = map mark_installed m.tracked })
          c.status.mods;
  };
}

abbrev pub secret_value : Text → Result Secret → Text
secret_value key (ok sec) = value_at key sec.entries
secret_value key (err e) = []

module _ {W : Type 0} where
  abbrev pub update_map : ℕ → (MapStatus → MapStatus) → Exec W (Unit {0})
  update_map p f = modify_cluster (write_at p f)

module _ {W : Type 0} (k : Client W) where
  -- `SetMapCondition`; the clock is read whether or not the time is stored.
  unfoldable pub set_condition_of : Text → Condition → Exec W (Unit {0})
  set_condition_of id cond = do
    now ← call_ok k.now
    modify_cluster (λ c. record c {
      status = record c.status { maps = set_map_condition now id cond c.status.maps };
    })

  unfoldable pub persist_status : Exec W (Unit {0})
  persist_status = do
    c ← cluster_now
    r ← attempt (recorded (Action.write_status c) (k.update_status c))
    ignore_conflict r

  -- Delete with a grace period in seconds; the error is dropped.
  unfoldable pub delete_if_live : Pod → Option ℕ → Exec W (Unit {0})
  delete_if_live pod grace =
      if is_live pod
      then tell (Action.delete_pod pod grace) >> call_ok (λ w. (tt, k.delete_pod pod grace w))
      else done

  -- `pw, _ := r.readAdminPassword(…)`: an error reads as the empty password.
  unfoldable pub read_admin_password : Exec W Text
  read_admin_password = do
    c ← cluster_now
    let sel = password_selector c
    r ← attempt (call (k.get_secret c.meta.namespace sel.name))
    pure (secret_value sel.key r)

  unfoldable pub ensure_pod_for_map : MapSpec → ℕ → Text → Text → Exec W Bool
  ensure_pod_for_map map_spec i active_volume hash = do
    c ← cluster_now
    let pod = build_server_pod c (record {
      map_id = map_spec.id;
      map_index = i;
      friendly_map = friendly_name map_spec.id;
      active_volume = active_volume;
      hash = hash;
    })
    r ← attempt (recorded (Action.create_pod pod) (k.create_pod pod))
    created_or_exists r
