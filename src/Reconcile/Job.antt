-- ===== src/Reconcile/Job.antt =====
-- internal/reconcile/job.go: the install jobs of the server volumes.
use ark_asa_operator.Prelude.{
  Bool, true, false, ◌&&◌, ◌==◌, if◌then◌else◌, List, [], ◌∷◌, ◌++◌, Text, codes,
}
use ark_asa_operator.Api.{ArkCluster, ConditionStatus, ConditionStatus_eq}
use ark_asa_operator.Kube.{
  Result, ok, err, Error, Job, VolumeSource, JobCondition, JobConditionType, Action, Client, Exec,
  pure, raise, attempt, call, recorded, ◌>>=◌, cluster_now, created_or_exists,
}
use ark_asa_operator.Ark.Slug.{map_slug}
use ark_asa_operator.Reconcile.Names.{
  init_job_name, image_or_default, pvc_name_server, ark_app_id, security_context_or_default,
}

-- The four texts that `InitJobStatus` returns.
pub data JobStatus : Type 0 where
  not_found running succeeded failed : JobStatus

abbrev is_complete : JobConditionType → Bool
is_complete JobConditionType.complete = true
is_complete _ = false

abbrev is_failed : JobConditionType → Bool
is_failed JobConditionType.failed_job = true
is_failed _ = false

-- The loop over the conditions: the first that is true and final decides.
unfoldable pub status_of_conditions : List JobCondition → JobStatus
status_of_conditions [] = JobStatus.running
status_of_conditions (c ∷ conds) =
    let rest = status_of_conditions conds in
    if is_complete c.type && c.status == ConditionStatus.is_true
    then JobStatus.succeeded
    else if is_failed c.type && c.status == ConditionStatus.is_true
    then JobStatus.failed
    else rest

unfoldable pub status_of_job : Result Job → JobStatus
unfolding status_of_conditions
status_of_job (err Error.not_found) = JobStatus.not_found
status_of_job (err e) = JobStatus.failed
status_of_job (ok job) = status_of_conditions job.conditions

-- The script of the container: steamcmd validates the game's files.
abbrev install_script : Text
install_script =
    codes "set -euo pipefail\nsteamcmd \\\n  +@sSteamCmdForcePlatformType windows \\\n"
    ++ (codes "  +force_install_dir /home/steam/ark \\\n  +login anonymous \\\n  +app_update "
        ++ (ark_app_id ++ codes " validate \\\n  +quit"))

unfoldable pub install_job : Text → ArkCluster → Text → Text → Job
install_job name cluster map_id side = record {
  name = name;
  namespace = cluster.meta.namespace;
  labels =
      (codes "ark.watteel.com/cluster", cluster.meta.name)
      ∷ (codes "ark.watteel.com/map", map_slug map_id)
      ∷ (codes "ark.watteel.com/role", codes "init")
      ∷ (codes "ark.watteel.com/side", side)
      ∷ [];
  backoff_limit = 3;
  ttl_seconds_after_finished = 3600;
  restart_policy = codes "OnFailure";
  security_context = security_context_or_default cluster.spec.pod_security_context;
  container = codes "install";
  image = image_or_default cluster.spec.image;
  command = codes "/bin/bash" ∷ codes "-c" ∷ [];
  args = install_script ∷ [];
  volume_mounts =
      record {
        name = codes "server";
        mount_path = codes "/home/steam/ark";
        sub_path = [];
        read_only = false;
      }
      ∷ [];
  volumes =
      (codes "server", VolumeSource.claim (pvc_name_server cluster.meta.name map_id side)) ∷ [];
  conditions = [];
}

module _ {W : Type 0} (k : Client W) where
  abbrev job_name_of : ArkCluster → Text → Text → Text
  job_name_of cluster map_id side =
      init_job_name k.sha256 cluster.meta.name cluster.spec.image map_id side

  unfoldable pub init_job_status : Text → Text → Exec W JobStatus
  init_job_status map_id side = do
    cluster ← cluster_now
    job ← attempt (call (k.get_job cluster.meta.namespace (job_name_of cluster map_id side)))
    pure (status_of_job job)

  -- After the lookup: create the job where there is none.
  unfoldable pub create_if_missing : Job → Result Job → Exec W Bool
  create_if_missing job (ok existing) = pure false
  create_if_missing job (err Error.not_found) = do
    r ← attempt (recorded (Action.create_job job) (k.create_job job))
    created_or_exists r
  create_if_missing job (err e) = raise e

  unfoldable pub ensure_init_job : Text → Text → Exec W Bool
  ensure_init_job map_id side = do
    cluster ← cluster_now
    let name = job_name_of cluster map_id side
    existing ← attempt (call (k.get_job cluster.meta.namespace name))
    create_if_missing (install_job name cluster map_id side) existing
