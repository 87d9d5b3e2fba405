-- ===== src/Api/Status.antt =====
-- api/v1alpha1/arkcluster_types.go: ArkClusterStatus and its parts. A `*metav1.Time` is an
-- `Option` of the nanoseconds since a fixed epoch.
use ark_asa_operator.Prelude.{ℕ, ◌≡◌, ◌↔◌, Bool, Text, Eq, ◌==◌, ℕ_eq, List, Option, arith}
use ark_asa_operator.Prelude.Int.{ℤ}

-- metav1.ConditionStatus
pub data ConditionStatus : Type 0 where
  is_true is_false unknown : ConditionStatus

abbrev status_rank : ConditionStatus → ℕ
status_rank ConditionStatus.is_true = 0
status_rank ConditionStatus.is_false = 1
status_rank ConditionStatus.unknown = 2

abbrev pub status_beq : ConditionStatus → ConditionStatus → Bool
status_beq a b = status_rank a == status_rank b

pub status_beq_iff : (a b : ConditionStatus) → (status_beq a b ≡ Bool.true) ↔ (a ≡ b)
status_beq_iff a b = ground arith

instance abbrev pub ConditionStatus_eq : Eq ConditionStatus
ConditionStatus_eq = record { test = status_beq; test_iff = status_beq_iff }

-- metav1.Condition, by the fields that the operator sets
pub record Condition : Type 0 where
  pub type : Text
  pub status : ConditionStatus
  pub reason : Text
  pub message : Text
  pub last_transition_time : Option ℕ

-- The enumeration, with the empty string of a fresh status entry.
pub data MapPhase : Type 0 where
  unset pending provisioning installing_active installing_inactive running : MapPhase
  draining_active swapping failed : MapPhase

abbrev phase_rank : MapPhase → ℕ
phase_rank MapPhase.unset = 0
phase_rank MapPhase.pending = 1
phase_rank MapPhase.provisioning = 2
phase_rank MapPhase.installing_active = 3
phase_rank MapPhase.installing_inactive = 4
phase_rank MapPhase.running = 5
phase_rank MapPhase.draining_active = 6
phase_rank MapPhase.swapping = 7
phase_rank MapPhase.failed = 8

abbrev pub phase_beq : MapPhase → MapPhase → Bool
phase_beq a b = phase_rank a == phase_rank b

pub phase_beq_iff : (a b : MapPhase) → (phase_beq a b ≡ Bool.true) ↔ (a ≡ b)
phase_beq_iff a b = ground arith

instance abbrev pub MapPhase_eq : Eq MapPhase
MapPhase_eq = record { test = phase_beq; test_iff = phase_beq_iff }

pub data ClusterPhase : Type 0 where
  unset pending initializing running updating degraded failed : ClusterPhase

pub record MapStatus : Type 0 where
  pub id : Text
  pub phase : MapPhase
  pub active_volume : Text
  pub active_build_id : Text
  pub pending_build_id : Text
  pub address : Text
  pub rcon_address : Text
  pub session_name : Text
  pub last_save_time : Option ℕ
  pub pod : Text
  pub last_good_volume : Text
  pub drain_deadline : Option ℕ
  pub conditions : List Condition

pub record TrackedMod : Type 0 where
  pub id : ℤ
  pub slug : Text
  pub installed_version : Text
  pub installed_file_id : ℤ
  pub latest_version : Text
  pub latest_file_id : ℤ
  pub last_changed : Option ℕ
  pub affected_maps : List Text

pub record ModStatus : Type 0 where
  pub last_check_time : Option ℕ
  pub next_check_time : Option ℕ
  pub last_error : Text
  pub tracked : List TrackedMod

pub record ArkClusterStatus : Type 0 where
  pub phase : ClusterPhase
  pub conditions : List Condition
  pub maps : List MapStatus
  pub mods : Option ModStatus
  pub total_maps : ℤ
  pub ready_maps : ℤ
  pub observed_generation : ℕ
