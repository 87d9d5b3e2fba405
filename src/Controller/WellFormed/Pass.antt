-- ===== src/Controller/WellFormed/Pass.antt =====
-- A whole pass over a cluster: what it writes.
use ark_asa_operator.Prelude.{◌≡◌, refl, if◌then◌else◌, Option, none, some, Text, ℕ, All}
use ark_asa_operator.Api.{ArkCluster, ArkClusterSpec}
use ark_asa_operator.Kube.{pure, modify_cluster, Result, ok, Action, Client, Exec, ◌>>=◌}
use ark_asa_operator.Kube.Quiet.{Quiet, Quiet-gets, quiet_rules}
use ark_asa_operator.Kube.Preserves.{
  SendsGood, preserves_rules, Preserves-bind, Preserves-modify, Preserves-write, Preserves-run,
}
use ark_asa_operator.Finalizer
use ark_asa_operator.Finalizer.Order.{drain_if_password-Quiet}
use ark_asa_operator.Controller.Reconcile.{
  reconcile, Requeue, requeue_busy, reconcile_live, reconcile_found,
}
use ark_asa_operator.Controller.Guarded.Resources.{ensure_cluster_pvc-Quiet, ensure_secret-Quiet}
use ark_asa_operator.Controller.WellFormed.{IsGoodStatus, IsWellFormed}
use ark_asa_operator.Controller.WellFormed.Flows.{Sound, Quiet-Sound, rcon-Sound}
use ark_asa_operator.Controller.WellFormed.Maps.{
  reconcile_maps-Sound, gc-Sound, summarize-Sound, write_final_status-Sound,
}

-- The functions on finalizers change neither the desired nor the observed state.
pub record KeepsState {W : Type 0} (k : Client W) : Type 0 where
  pub add_spec : (c : ArkCluster) (n : Text) → (k.add_finalizer c n).spec ≡ c.spec
  pub add_status : (c : ArkCluster) (n : Text) → (k.add_finalizer c n).status ≡ c.status
  pub remove_spec : (c : ArkCluster) (n : Text) → (k.remove_finalizer c n).spec ≡ c.spec
  pub remove_status : (c : ArkCluster) (n : Text) → (k.remove_finalizer c n).status ≡ c.status

module _ {W : Type 0} (k : Client W) (keeps : KeepsState k) (spec : ArkClusterSpec) where
  reconcile_live-Sound : Sound k spec (reconcile_live k)
  unfolding reconcile_live
  reconcile_live-Sound =
      Preserves-bind (IsWellFormed spec) _ _ (Quiet-Sound k spec (ensure_secret-Quiet k)) λ _.
        Preserves-bind (IsWellFormed spec) _ _ (Quiet-Sound k spec (ensure_cluster_pvc-Quiet k))
          λ _. Preserves-bind (IsWellFormed spec) _ _ (Quiet-Sound k spec (Quiet-gets _)) λ c.
            Preserves-bind (IsWellFormed spec) _ _ (reconcile_maps-Sound k spec _ _ _) λ _.
              Preserves-bind (IsWellFormed spec) _ _ (gc-Sound k spec _) λ _.
                Preserves-bind (IsWellFormed spec) _ _ (summarize-Sound k spec) λ _.
                  Preserves-bind (IsWellFormed spec) _ _ (write_final_status-Sound k spec)
                    λ _. Quiet-Sound k spec (search quiet_rules)

  update_cluster-Sound : Sound k spec (Finalizer.update_cluster k)
  update_cluster-Sound = Preserves-write (IsWellFormed spec) _ _ λ c r h. h

  add-Sound : Sound k spec (modify_cluster (λ c. k.add_finalizer c Finalizer.finalizer_name))
  add-Sound = Preserves-modify (IsWellFormed spec) _ λ c h.
      rw (keeps.add_spec c Finalizer.finalizer_name, keeps.add_status c Finalizer.finalizer_name) h

  remove-Sound : Sound k spec (modify_cluster (λ c. k.remove_finalizer c Finalizer.finalizer_name))
  remove-Sound = Preserves-modify (IsWellFormed spec) _ λ c h.
      rw
        (
          keeps.remove_spec c Finalizer.finalizer_name,
          keeps.remove_status c Finalizer.finalizer_name,
        )
        h

  ensure-Sound : Sound k spec (Finalizer.ensure k)
  unfolding Finalizer.ensure
  ensure-Sound =
      search (preserves_rules, add-Sound, update_cluster-Sound, Quiet-Sound k spec, quiet_rules)
        depth 12

  read_password-Quiet : {P : Action → Type 0} → Quiet P (Finalizer.read_admin_password k)
  unfolding Finalizer.read_admin_password
  read_password-Quiet = search quiet_rules

  drain-Sound : (r : Result Text) → Sound k spec (Finalizer.drain_if_password k r)
  drain-Sound r = rcon-Sound k spec (drain_if_password-Quiet k r)

  run_finalize-Sound : Sound k spec (Finalizer.run_finalize k)
  unfolding Finalizer.run_finalize
  run_finalize-Sound =
      search
        (
          preserves_rules,
          read_password-Quiet,
          drain-Sound,
          remove-Sound,
          update_cluster-Sound,
          Quiet-Sound k spec,
          quiet_rules,
        )
        depth 16

  delete_or_live-Sound :
      (o : Option ℕ)
      → Sound k spec (elim o as (λ _. Exec W Requeue) [
        | some t ↦
            (Finalizer.run_finalize k >>= λ finished.
            pure (if finished then Requeue.no_requeue else Requeue.requeue_after requeue_busy))
        | none ↦
            (Finalizer.ensure k >>= λ added.
            if added then pure Requeue.requeue_now else reconcile_live k)
      ])
  delete_or_live-Sound (some t) =
      search (preserves_rules, run_finalize-Sound, Quiet-Sound k spec, quiet_rules)
  delete_or_live-Sound none =
      search (preserves_rules, ensure-Sound, reconcile_live-Sound, Quiet-Sound k spec, quiet_rules)

  reconcile_found-Sound : Sound k spec (reconcile_found k)
  unfolding reconcile_found
  reconcile_found-Sound =
      Preserves-bind (IsWellFormed spec) _ _ (Quiet-Sound k spec (Quiet-gets _))
        λ c. delete_or_live-Sound c.meta.deletion_timestamp

module _ {W : Type 0} (k : Client W) where
  -- Where the functions on finalizers keep the desired and the observed state: a pass over a cluster
  -- whose status is well formed (for every map ID at most one entry, whose two volumes are each empty,
  -- server-a or server-b, and whose conditions are of different types, as the cluster's are) writes, by
  -- every status write and every update of the object, however it ends, a cluster object with a
  -- well-formed status and the spec that was read.
  pub reconcile-IsWellFormed :
      (namespace name : Text) (w : W) (c : ArkCluster)
      → KeepsState k
      → (k.get_cluster namespace name w).0 ≡ ok c
      → IsGoodStatus c.status
      → All (SendsGood (IsWellFormed c.spec)) (reconcile k namespace name w).2
  unfolding reconcile
  reconcile-IsWellFormed namespace name w c keeps e h =
      rw (reconcile, e)
        (Preserves-run (IsWellFormed c.spec) _ (reconcile_found-Sound k keeps c.spec) c
          (k.get_cluster namespace name w).1 (refl, h))
