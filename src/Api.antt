-- ===== src/Api.antt =====
-- api/v1alpha1/arkcluster_types.go: the ArkCluster resource. Its desired state is in `Api/Spec`, its
-- observed state in `Api/Status`; this file joins them.
mod Spec
mod Status
pub use Spec.*
pub use Status.*
use ark_asa_operator.Prelude.{ℕ, Text, List, Option}

-- The fields of metav1.ObjectMeta that the operator reads or writes. A zero DeletionTimestamp is
-- `none`; the annotations are an association list.
pub record ObjectMeta : Type 0 where
  pub name : Text
  pub namespace : Text
  pub annotations : List (Text × Text)
  pub finalizers : List Text
  pub deletion_timestamp : Option ℕ
  pub generation : ℕ

pub record ArkCluster : Type 0 where
  pub meta : ObjectMeta
  pub spec : ArkClusterSpec
  pub status : ArkClusterStatus

-- `ArkClusterList`, by its items.
pub record ArkClusterList : Type 0 where
  pub items : List ArkCluster
