-- ===== src/Kube/Objects.antt =====
-- The objects of k8s.io/api that the operator handles, by the fields that it reads or writes, the
-- errors of the API server, and the record of the calls that leave the program.
use ark_asa_operator.Prelude.{ℕ, Bool, Text, List, [], ◌∷◌, Option}
use ark_asa_operator.Prelude.Int.{ℤ}
use ark_asa_operator.Api.{
  ConditionStatus, SecretKeySelector, ArkCluster, Opaque, PodSecurityContext,
}

-- The kinds that `apierrors.IsNotFound`, `IsAlreadyExists` and `IsConflict` tell apart; they look
-- through the wrapping of `fmt.Errorf("…: %w", err)`, so a wrapped error is the error.
pub data Error : Type 0 where
  not_found already_exists conflict : Error
  other : Text → Error

pub data Result {ℓ} (A : Type ℓ) : Type ℓ where
  ok : A → Result A
  err : Error → Result A

pub record Secret : Type 0 where
  pub type : Text
  pub entries : List (Text × Text)
  pub labels : List (Text × Text)
  pub resource_version : Text

pub record ConfigMap : Type 0 where
  pub name : Text
  pub entries : List (Text × Text)
  pub labels : List (Text × Text)
  pub resource_version : Text

pub record ServicePort : Type 0 where
  pub name : Text
  pub port : ℤ
  pub target_port : ℤ
  pub protocol : Text

pub record Service : Type 0 where
  pub name : Text
  pub labels : List (Text × Text)
  pub type : Text
  pub selector : List (Text × Text)
  pub ports : List ServicePort
  pub external_traffic_policy : Text
  pub load_balancer_ip : Text
  -- status.loadBalancer.ingress, by the addresses
  pub ingress : List Text

pub record PersistentVolumeClaim : Type 0 where
  pub name : Text
  pub labels : List (Text × Text)
  -- A zero creation timestamp is false.
  pub created : Bool
  pub access_modes : List Text
  pub storage_request : Text
  pub storage_class_name : Option Text

-- A volume, by the name of the claim or of the config map behind it.
pub data VolumeSource : Type 0 where
  claim config_map : Text → VolumeSource

pub record VolumeMount : Type 0 where
  pub name : Text
  pub mount_path : Text
  pub sub_path : Text
  pub read_only : Bool

-- A check of a container: a connection to a named port, or a command; zeros are the API's defaults.
pub data ProbeHandler : Type 0 where
  tcp_socket : Text → ProbeHandler
  run_command : List Text → ProbeHandler

pub record Probe : Type 0 where
  pub probe_handler : ProbeHandler
  pub initial_delay_seconds : ℕ
  pub period_seconds : ℕ
  pub timeout_seconds : ℕ
  pub failure_threshold : ℕ

-- One entry of job.status.conditions.
pub data JobConditionType : Type 0 where
  complete failed_job other_condition : JobConditionType

pub record JobCondition : Type 0 where
  pub type : JobConditionType
  pub status : ConditionStatus

pub record Job : Type 0 where
  pub name : Text
  pub namespace : Text
  pub labels : List (Text × Text)
  pub backoff_limit : ℕ
  pub ttl_seconds_after_finished : ℕ
  pub restart_policy : Text
  pub security_context : PodSecurityContext
  -- The one container.
  pub container : Text
  pub image : Text
  pub command : List Text
  pub args : List Text
  pub volume_mounts : List VolumeMount
  pub volumes : List (Text × VolumeSource)
  pub conditions : List JobCondition

-- An environment variable: its value, or the secret key that it is read from.
pub record EnvVar : Type 0 where
  pub name : Text
  pub value : Text
  pub value_from : Option SecretKeySelector

pub record ContainerPort : Type 0 where
  pub name : Text
  pub container_port : ℤ
  pub protocol : Text

-- state.terminated of the last termination of a container
pub record Terminated : Type 0 where
  pub exit_code : ℤ
  pub finished_at : ℕ

pub record ContainerStatus : Type 0 where
  pub restart_count : ℤ
  pub last_terminated : Option Terminated

-- One entry of pod.status.conditions: is its type Ready, and its status.
pub record PodCondition : Type 0 where
  pub is_ready_type : Bool
  pub status : ConditionStatus

pub record Pod : Type 0 where
  pub name : Text
  pub namespace : Text
  pub labels : List (Text × Text)
  pub deletion_timestamp : Option ℕ
  pub restart_policy : Text
  pub termination_grace_period_seconds : ℕ
  pub security_context : PodSecurityContext
  pub node_selector : List (Text × Text)
  pub tolerations : List Opaque
  -- The one container.
  pub container : Text
  pub image : Text
  pub image_pull_policy : Text
  pub env : List EnvVar
  pub ports : List ContainerPort
  pub resources : Opaque
  pub startup_probe : Option Probe
  pub readiness_probe : Option Probe
  pub liveness_probe : Option Probe
  -- The command of the lifecycle hook.
  pub pre_stop : List Text
  pub volume_mounts : List VolumeMount
  pub volumes : List (Text × VolumeSource)
  pub container_statuses : List ContainerStatus
  pub conditions : List PodCondition

-- The calls that change the world, as the code makes them; a status write carries its outcome.
pub data Action : Type 0 where
  write_status : ArkCluster → Result (Unit {0}) → Action
  write_cluster : ArkCluster → Result (Unit {0}) → Action
  patch_cluster : ArkCluster → Result (Unit {0}) → Action
  create_pod : Pod → Result (Unit {0}) → Action
  delete_pod : Pod → Option ℕ → Action
  create_job : Job → Result (Unit {0}) → Action
  delete_service : Service → Action
  delete_pvc : PersistentVolumeClaim → Action
  delete_config_map : ConfigMap → Action
  announce : Text → Action
  save_and_exit : Text → Action

-- Calls that are made in their order, on a log that has the newest first.
abbrev pub onto : List Action → List Action → List Action
onto [] log = log
onto (a ∷ calls) log = onto calls (a ∷ log)
