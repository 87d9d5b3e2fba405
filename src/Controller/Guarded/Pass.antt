-- ===== src/Controller/Guarded/Pass.antt =====
-- A whole pass over a cluster.
use ark_asa_operator.Prelude.{
  ◌≡◌, Bool, true, false, if◌then◌else◌, List, [], Option, none, some, Text, ℕ, arith,
}
use ark_asa_operator.Api.{ArkCluster}
use ark_asa_operator.Kube.{
  cluster_now, pure, gets, modify_cluster, Result, ok, err, Action, Sys, Client, Exec, ◌>>=◌,
  continue,
}
use ark_asa_operator.Kube.Quiet.{Quiet, Quiet-pure, quiet_rules}
use ark_asa_operator.Kube.Logs.{Quiet-weaken}
use mathlib.Core.Path.{subst}
use ark_asa_operator.Finalizer
use ark_asa_operator.Finalizer.Order.{drain_if_password-Quiet}
use ark_asa_operator.Rcon.Session.Quiet.{IsRcon}
use ark_asa_operator.Controller.Gc.{gc_orphaned_maps}
use ark_asa_operator.Controller.Reconcile.{
  mid_flight_map, summarize, requeue_after, requeue_now, no_requeue, requeue_busy, requeue_steady,
  reconcile, Requeue, reconcile_maps, write_final_status, reconcile_live, reconcile_found,
  keep_slugs,
}
use ark_asa_operator.Controller.Guarded.{AnyTime, Guarded, Keeps, Keeps-bind, keeps_rules}
use ark_asa_operator.Controller.Guarded.Flows.{Quiet-Keeps, modify_cluster-Keeps}
use ark_asa_operator.Controller.Guarded.Resources.{ensure_cluster_pvc-Quiet, ensure_secret-Quiet}
use ark_asa_operator.Controller.Guarded.Maps.{
  write_final_status-Quiet, reconcile_maps-Keeps, gc-Keeps,
}

module _ {W : Type 0} (k : Client W) where
  -- What a pass does after the two resources of the cluster, on the cluster `c`.
  live_tail :
      (c : ArkCluster)
      → Keeps (keep_slugs c.spec.maps) (
          reconcile_maps k (mid_flight_map c) 0 c.spec.maps >>= λ _.
          gc_orphaned_maps k (keep_slugs c.spec.maps) >>= λ _. modify_cluster summarize >>= λ _.
          write_final_status k >>= λ _. gets (λ s. s.busy) >>= λ busy.
          pure (requeue_after (if busy then requeue_busy else requeue_steady)))
  live_tail c =
      search
        (
          keeps_rules,
          reconcile_maps-Keeps k,
          gc-Keeps k,
          modify_cluster-Keeps k,
          write_final_status-Quiet k,
          Quiet-Keeps k,
          quiet_rules,
        )
        depth 16

  -- A run that keeps the log guarded by the maps of the cluster that it starts with.
  abbrev KeepsOwn : {A : Type 0} → Exec W A → Type 0
  KeepsOwn m =
      (s : Sys W)
      → let keep = keep_slugs s.cluster.spec.maps in Guarded keep s.log → Guarded keep (m s).1.log

  own_cluster_now :
      {A : Type 0} (f : ArkCluster → Exec W A)
      → ((c : ArkCluster) → Keeps (keep_slugs c.spec.maps) (f c))
      → KeepsOwn (cluster_now >>= f)
  unfolding ◌>>=◌
  own_cluster_now f q s g = (q s.cluster).guarded s g

  own_continue :
      {A B : Type 0} (r : Result A) (f : A → Exec W B)
      → ((a : A) → KeepsOwn (f a))
      → (c : ArkCluster) (s : Sys W) → s.cluster ≡ c
      → Guarded (keep_slugs c.spec.maps) s.log
      → Guarded (keep_slugs c.spec.maps) (continue r f s).1.log
  own_continue (ok a) f q c s e g =
      subst
        (λ (x : ArkCluster).
          Guarded (keep_slugs x.spec.maps) s.log → Guarded (keep_slugs x.spec.maps) (f a s).1.log)
        e (q a s) g
  own_continue (err x) f q c s e g = g

  own_then :
      {A B : Type 0} (m : Exec W A) (f : A → Exec W B)
      → ((keep : List Text) → Quiet (AnyTime keep) m)
      → ((a : A) → KeepsOwn (f a))
      → KeepsOwn (m >>= f)
  unfolding ◌>>=◌
  own_then m f qm qf s g =
      let quiet = qm (keep_slugs s.cluster.spec.maps) in
      own_continue (m s).0 f qf s.cluster (m s).1 (quiet.cluster s)
        ((Quiet-Keeps k (keep_slugs s.cluster.spec.maps) quiet).guarded s g)

  reconcile_live-KeepsOwn : KeepsOwn (reconcile_live k)
  unfolding reconcile_live
  reconcile_live-KeepsOwn =
      own_then _ _ (λ keep. ensure_secret-Quiet k)
        λ _. own_then _ _ (λ keep. ensure_cluster_pvc-Quiet k) λ _. own_cluster_now _ live_tail

  drain_any_time :
      (keep : List Text) (r : Result Text) → Keeps keep (Finalizer.drain_if_password k r)
  drain_any_time keep r =
      Quiet-Keeps k keep (Quiet-weaken rcon-AnyTime (drain_if_password-Quiet k r))
    where
      rcon-AnyTime : (a : Action) → IsRcon a → AnyTime keep a
      rcon-AnyTime a h = ground arith

  read_password-Quiet : (keep : List Text) → Quiet (AnyTime keep) (Finalizer.read_admin_password k)
  unfolding Finalizer.read_admin_password
  read_password-Quiet keep = search quiet_rules

  run_finalize-Keeps : (keep : List Text) → Keeps keep (Finalizer.run_finalize k)
  unfolding Finalizer.run_finalize
  run_finalize-Keeps keep =
      search
        (
          keeps_rules,
          drain_any_time,
          read_password-Quiet,
          modify_cluster-Keeps k,
          Quiet-Keeps k,
          quiet_rules,
        )
        depth 16

  unfoldable live_unless : (added : Bool) → Exec W Requeue
  live_unless added = if added then pure requeue_now else reconcile_live k

  -- After the finalizer was added, with the outcome of the write.
  added_end :
      (keep : List Text) (r : Result (Unit {0})) (s : Sys W)
      → Guarded keep s.log
      → Guarded keep (
          (λ (t : Result Bool × Sys W). (continue t.0 live_unless t.1).1.log)
            (continue r (λ _. pure true) s))
  unfolding pure live_unless
  added_end keep (ok u) s g = g
  added_end keep (err e) s g = g

  add_or_live :
      (b : Bool)
      → KeepsOwn (
          (if b
            then pure false
            else modify_cluster (λ c. k.add_finalizer c Finalizer.finalizer_name) >>= λ _.
                Finalizer.update_cluster k >>= λ _. pure true)
          >>= live_unless)
  unfolding ◌>>=◌ live_unless
  add_or_live true s g = reconcile_live-KeepsOwn s g
  add_or_live false s g =
      let (r, s') =
        Finalizer.update_cluster k
          (record s { cluster = k.add_finalizer s.cluster Finalizer.finalizer_name }) in
      added_end (keep_slugs s.cluster.spec.maps) r s' (tt, g)

  after_ensure : KeepsOwn (Finalizer.ensure k >>= live_unless)
  unfolding Finalizer.ensure ◌>>=◌
  after_ensure s g = add_or_live (k.contains_finalizer s.cluster Finalizer.finalizer_name) s g

  delete_or_live :
      (o : Option ℕ)
      → KeepsOwn (elim o as (λ _. Exec W Requeue) [
        | some t ↦
            (Finalizer.run_finalize k >>= λ finished.
            pure (if finished then no_requeue else requeue_after requeue_busy))
        | none ↦ (Finalizer.ensure k >>= live_unless)
      ])
  delete_or_live none = after_ensure
  delete_or_live (some t) =
      λ s. (Keeps-bind _ _ _ (run_finalize-Keeps _) λ b. Quiet-Keeps k _ (Quiet-pure _)).guarded s

  -- A pass over a cluster that has been found.
  reconcile_found-KeepsOwn : KeepsOwn (reconcile_found k)
  unfolding reconcile_found live_unless ◌>>=◌
  reconcile_found-KeepsOwn s g = delete_or_live s.cluster.meta.deletion_timestamp s g

  -- In the calls of a whole pass over a cluster, every deletion of a pod is either of a pod that carries
  -- the label of a map which is not in the cluster's spec, or is made directly after a status write that
  -- succeeds or meets a conflict.
  pub reconcile-Guarded :
      (namespace name : Text) (w : W) (c : ArkCluster)
      → (k.get_cluster namespace name w).0 ≡ ok c
      → Guarded (keep_slugs c.spec.maps) (reconcile k namespace name w).2
  unfolding reconcile
  reconcile-Guarded namespace name w c e =
      let s : Sys W = record {
        cluster = c;
        busy = false;
        world = (k.get_cluster namespace name w).1;
        log = [];
      } in
      rw (reconcile, e) (reconcile_found-KeepsOwn s tt)
