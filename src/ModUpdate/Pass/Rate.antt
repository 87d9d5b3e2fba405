-- ===== src/ModUpdate/Pass/Rate.antt =====
-- `Reconcile` of the mods, one check after another: the API is asked once in an interval.
use ark_asa_operator.Prelude.{ℕ, ◌≡◌, some}
use ark_asa_operator.Api.{ArkCluster, ArkClusterSpec}
use ark_asa_operator.Kube.Quiet.{Quiet}
use ark_asa_operator.Kube.Preserves.{Preserves}
use ark_asa_operator.ModUpdate.Pass.{last_check}

-- The mods were checked at this time, and the desired state is `spec`.
abbrev pub CheckedAt : ℕ → ArkClusterSpec → ArkCluster → Type 0
CheckedAt now spec c = (last_check c.status.mods ≡ some now) × (c.spec ≡ spec)
