-- ===== src/Api/Spec.antt =====
-- api/v1alpha1/arkcluster_types.go: ArkClusterSpec and its parts. Durations are nanoseconds.
use ark_asa_operator.Prelude.{Text, List, Option, Bool}
use ark_asa_operator.Prelude.Int.{ℤ}

-- corev1.SecretKeySelector, by the two fields that the operator reads
pub record SecretKeySelector : Type 0 where
  pub name : Text
  pub key : Text

-- A value of a type of the Kubernetes API that the operator copies and never reads, as its JSON.
abbrev pub Opaque : Type 0
Opaque = Text

-- corev1.PodSecurityContext, by the fields that the operator's own default sets, and the rest.
pub record PodSecurityContext : Type 0 where
  pub run_as_user : Option ℤ
  pub run_as_group : Option ℤ
  pub fs_group : Option ℤ
  pub rest : Opaque

pub record ConfigMapRef : Type 0 where
  pub name : Text

pub record MapSpec : Type 0 where
  pub id : Text
  pub mods : List ℤ
  pub game_user_settings : Option ConfigMapRef
  pub game : Option ConfigMapRef

pub record GlobalSettings : Type 0 where
  pub session_name_format : Text
  pub server_password : Option SecretKeySelector
  pub admin_password : Option SecretKeySelector
  pub battl_eye : Bool
  pub allowed_platforms : List Text
  pub max_players : ℤ
  pub mods : List ℤ
  pub extra_options : List Text
  pub extra_params : List Text
  pub game_user_settings : Option ConfigMapRef
  pub game : Option ConfigMapRef

pub record StorageSpec : Type 0 where
  pub storage_class : Text
  pub cluster_storage_class : Text
  pub server_pvc_size : Text
  pub saves_pvc_size : Text
  pub cluster_pvc_size : Text
  pub persist_on_delete : Bool

pub record ServiceSpec : Type 0 where
  pub type : Text
  pub game_port_start : ℤ
  pub rcon_port_start : ℤ
  pub load_balancer_ips : List Text
  pub external_traffic_policy : Text

-- The two enumerations, with the empty string that an omitted field leaves.
pub data UpdateStrategyType : Type 0 where
  unset blue_green recreate : UpdateStrategyType

pub data RolloutPolicy : Type 0 where
  unset one_at_a_time parallel : RolloutPolicy

pub record UpdateStrategy : Type 0 where
  pub type : UpdateStrategyType
  pub graceful_shutdown : ℤ
  pub rollout : RolloutPolicy

pub record ModAutoUpdateSpec : Type 0 where
  pub enabled : Bool
  pub interval_minutes : ℤ
  pub curse_forge_api_key_ref : SecretKeySelector

pub record ArkClusterSpec : Type 0 where
  pub image : Text
  pub cluster_id : Text
  pub maps : List MapSpec
  pub global_settings : GlobalSettings
  pub storage : StorageSpec
  pub service : ServiceSpec
  -- corev1.ResourceRequirements
  pub resources : Opaque
  pub update_strategy : UpdateStrategy
  pub mod_auto_update : Option ModAutoUpdateSpec
  pub node_selector : List (Text × Text)
  -- []corev1.Toleration
  pub tolerations : List Opaque
  pub pod_security_context : Option PodSecurityContext
