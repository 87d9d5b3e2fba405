-- ===== src/Controller/Roll/Replace.antt =====
-- The replacement of a pod, to its end.
use ark_asa_operator.Prelude.{
  ◌≡◌, refl, sym, ap, ◌∙◌, ℕ, if-both, List, ◌∷◌, Option, none, some, Text,
}
use mathlib.Core.Path.{subst}
use ark_asa_operator.Api.{ArkCluster, MapSpec, SecretKeySelector}
use ark_asa_operator.Kube.{
  Error, Result, ok, err, modify_cluster, Pod, Action, Sys, Client, Exec, ◌>>=◌, ◌>>◌,
  ignore_conflict, created_or_exists,
}
use ark_asa_operator.Kube.Quiet.{Quiet}
use ark_asa_operator.Kube.Succeeds.{Succeeds, succeeds_rules}
use ark_asa_operator.Reconcile.Pod.{build_server_pod}
use ark_asa_operator.Controller.Pods.{friendly_name, is_live}
use ark_asa_operator.Controller.Template.{
  config_map_version, secret_version, add_password_rev, compute_pod_hash,
}
use ark_asa_operator.Controller.Base.{
  status_at, write_at, persist_status, delete_if_live, ensure_pod_for_map, mark_all_installed,
}
use ark_asa_operator.Controller.Base.Persist.{GoesOn}
use ark_asa_operator.Controller.Base.Quiet.{SparesPods, compute_pod_hash-Quiet}
use ark_asa_operator.Controller.Roll.{recreate_pod, save_world, swapped, finish_swap}
use ark_asa_operator.Controller.Roll.Safety.{save_world-Quiet, save_world-ok, bind-ok, update_then}

-- The pod of a map on a volume.
abbrev pub pod_for : ArkCluster → MapSpec → ℕ → Text → Text → Pod
pod_for c m i volume hash = build_server_pod c (record {
  map_id = m.id;
  map_index = i;
  friendly_map = friendly_name m.id;
  active_volume = volume;
  hash = hash;
})

-- The last call creates the pod of the map on the volume, on the cluster `c`.
abbrev pub CreatesLast : ArkCluster → MapSpec → ℕ → Text → List Action → Type 0
CreatesLast c m i volume log =
    (hash : Text) × (r : Result (Unit {0})) × (rest : List Action) × (log
      ≡ Action.create_pod (pod_for c m i volume hash) r ∷ rest)

-- What a pass leaves that has replaced the pod, on the cluster `c`.
abbrev pub Replaced : {W : Type 0} → ArkCluster → MapSpec → ℕ → Text → Sys W → Type 0
Replaced c m i volume s = CreatesLast c m i volume s.log × (s.cluster.status.maps ≡ c.status.maps)

module _ {W : Type 0} (k : Client W) where
  secret_version-Succeeds : (name : Text) → Succeeds (secret_version k name)
  unfolding secret_version
  secret_version-Succeeds name = search succeeds_rules

  config_map_version-Succeeds : (name : Text) → Succeeds (config_map_version k name)
  unfolding config_map_version
  config_map_version-Succeeds name = search succeeds_rules

  add_password_rev-Succeeds :
      (sel : Option SecretKeySelector) (own : Text) → Succeeds (add_password_rev k sel own)
  unfolding add_password_rev
  add_password_rev-Succeeds none own = search succeeds_rules
  add_password_rev-Succeeds (some sel) own = search (succeeds_rules, secret_version-Succeeds)

  compute_pod_hash-Succeeds : (m : MapSpec) (i : ℕ) (v : Text) → Succeeds (compute_pod_hash k m i v)
  unfolding compute_pod_hash
  compute_pod_hash-Succeeds m i v =
      search
        (
          succeeds_rules, secret_version-Succeeds, config_map_version-Succeeds,
          add_password_rev-Succeeds,
        )
        depth 12

  marked :
      (r : Result (Unit {0})) (s : Sys W)
      → let t = (created_or_exists r >>= λ created. modify_cluster mark_all_installed) s in
        (t.1.log ≡ s.log) × (t.1.cluster.status.maps ≡ s.cluster.status.maps)
  unfolding created_or_exists ◌>>=◌
  marked (ok u) s = (refl, refl)
  marked (err Error.already_exists) s = (refl, refl)
  marked (err e) s = (refl, refl)

  create_end :
      (m : MapSpec) (i : ℕ) (volume hash : Text) (s : Sys W)
      → Replaced s.cluster m i volume
          ((ensure_pod_for_map k m i volume hash >>= λ created. modify_cluster mark_all_installed)
            s).1
  unfolding ensure_pod_for_map ◌>>=◌
  create_end m i volume hash s =
      let pod = pod_for s.cluster m i volume hash in
      let (r, w) = k.create_pod pod s.world in
      let (same_log, same_maps) =
        marked r (record s { world = w; log = Action.create_pod pod r ∷ s.log }) in
      ((hash, r, s.log, same_log), same_maps)

  recreate_end :
      (m : MapSpec) (i p : ℕ) (s : Sys W)
      → Replaced s.cluster m i (status_at p s.cluster).active_volume (recreate_pod k m i p s).1
  unfolding recreate_pod ◌>>=◌
  recreate_end m i p s =
      let v = (status_at p s.cluster).active_volume in
      let (hash, e) = (compute_pod_hash-Succeeds m i v).result s in
      let s1 = (compute_pod_hash k m i v s).1 in
      let quiet : Quiet SparesPods (compute_pod_hash k m i v) = compute_pod_hash-Quiet k m i v in
      subst (λ (c : ArkCluster). Replaced c m i v (recreate_pod k m i p s).1) (quiet.cluster s)
        (subst (λ (t : Result (Unit {0}) × Sys W). Replaced s1.cluster m i v t.1)
          (sym (bind-ok k (compute_pod_hash k m i v) _ hash s e)) (create_end m i v hash s1))

  replace_end :
      (m : MapSpec) (i p : ℕ) (pod : Pod) (g : Option ℕ) (s : Sys W)
      → Replaced s.cluster m i
          (status_at p s.cluster).active_volume
          ((delete_if_live k pod g >> recreate_pod k m i p) s).1
  unfolding delete_if_live ◌>>=◌
  replace_end m i p pod g s =
      if-both
        (λ (d : Exec W (Unit {0})).
          Replaced s.cluster m i (status_at p s.cluster).active_volume
            ((d >> recreate_pod k m i p) s).1)
        (is_live pod) (recreate_end m i p _) (recreate_end m i p _)

  goes_on :
      (r : Result (Unit {0})) (rest : Exec W (Unit {0})) (s : Sys W)
      → GoesOn r
      → (ignore_conflict r >> rest) s ≡ rest s
  unfolding ignore_conflict ◌>>=◌
  goes_on (ok u) rest s h = refl
  goes_on (err Error.conflict) rest s h = refl
  goes_on (err Error.not_found) rest s h = absurd h
  goes_on (err Error.already_exists) rest s h = absurd h
  goes_on (err (Error.other t)) rest s h = absurd h

  persist_end :
      (rest : Exec W (Unit {0})) (s : Sys W)
      → ((w : W) → GoesOn (k.update_status s.cluster w).0)
      → (t : Sys W) × (t.cluster ≡ s.cluster) × ((persist_status k >> rest) s ≡ rest t)
  unfolding persist_status ◌>>=◌
  persist_end rest s accepts = (_, refl, goes_on _ rest _ (accepts s.world))

  swap_end :
      (m : MapSpec) (i p : ℕ) (pod : Pod) (c : ArkCluster) (s : Sys W)
      → s.cluster ≡ c
      → ((w : W) → GoesOn (k.update_status c w).0)
      → Replaced c m i
          (status_at p c).active_volume
          ((persist_status k >> (delete_if_live k pod (some 60) >> recreate_pod k m i p)) s).1
  swap_end m i p pod c s e accepts =
      let rest = delete_if_live k pod (some 60) >> recreate_pod k m i p in
      let (t, same, q) =
        persist_end rest s
          (subst (λ (x : ArkCluster). (w : W) → GoesOn (k.update_status x w).0) (sym e) accepts) in
      subst
        (λ (x : ArkCluster).
          Replaced x m i (status_at p x).active_volume ((persist_status k >> rest) s).1)
        (same ∙ e)
        (subst
          (λ (u : Result (Unit {0}) × Sys W).
            Replaced t.cluster m i (status_at p t.cluster).active_volume u.1)
          (sym q) (replace_end m i p pod (some 60) t))

  pub finish_swap_end :
      (m : MapSpec) (i p : ℕ) (inactive : Text) (pod : Pod) (s : Sys W)
      → let c = write_at p (swapped inactive) s.cluster in
        ((w : W) → GoesOn (k.update_status c w).0)
        → Replaced c m i (status_at p c).active_volume (finish_swap k m i p inactive pod s).1
  unfolding finish_swap
  finish_swap_end m i p inactive pod s accepts =
      let c = write_at p (swapped inactive) s.cluster in
      let s1 = (save_world k p s).1 in
      subst (λ (u : Result (Unit {0}) × Sys W). Replaced c m i (status_at p c).active_volume u.1)
        (sym (
          bind-ok k (save_world k p) _ tt s (save_world-ok k p s)
          ∙ update_then k p (swapped inactive) _ s1))
        (swap_end m i p pod c (record s1 { cluster = write_at p (swapped inactive) s1.cluster })
          (ap (write_at p (swapped inactive)) ((save_world-Quiet k p).cluster s)) accepts)
