-- ===== src/Controller/Roll/Safety.antt =====
-- The order of the calls of `rollUpdate`: no pod is touched before the grace period is over, and the
-- swap is written to the status before the old pod is deleted.
use ark_asa_operator.Prelude.{
  ◌≡◌, refl, sym, ap, ◌∙◌, ◌⊎◌, inl, inr, Bool, true, false, if◌then◌else◌, List, [], Option, none,
  some, arith, ℕ, ◌≤◌, Text, ltb, Bool-cases, ◌==◌, List_eq, ℕ_eq,
}
use mathlib.Core.Path.{subst}
use ark_asa_operator.Prelude.Int.{ℤ}
use ark_asa_operator.Api.{ArkCluster, MapSpec, MapStatus, MapPhase}
use ark_asa_operator.Kube.{
  Result, ok, err, Action, Sys, Client, Exec, Pod, continue, ◌>>=◌, ◌>>◌, modify_cluster,
}
use ark_asa_operator.Kube.Quiet.{Quiet, quiet_rules, Grown, Grown-refl, Grown-trans}
use ark_asa_operator.Kube.Logs.{Logs, log_rules, Quiet-weaken, Grown-weaken}
use ark_asa_operator.Rcon.Session
use ark_asa_operator.Rcon.Session.Quiet.{announce_shutdown-Quiet, save_and_exit-Quiet}
use ark_asa_operator.Reconcile.Job.{JobStatus, init_job_status, ensure_init_job}
use ark_asa_operator.Reconcile.Names.{volume_side, other_side}
use ark_asa_operator.Controller.Base.{
  status_at, write_at, update_map, set_condition_of, persist_status, delete_if_live,
  read_admin_password,
}
use ark_asa_operator.Controller.Base.Persist.{
  rcon_spares, job_spares, ReplacesPod, PersistedFirst, PersistedFirst-after, delete_if_live-Quiet,
  persist_status-PersistedFirst, persist_status-Quiet,
}
use ark_asa_operator.Controller.Base.Quiet.{
  SparesPods, CreatesPod, read_admin_password-Quiet, compute_pod_hash-Quiet, init_job_status-Quiet,
  ensure_pod_for_map-Quiet, ensure_init_job-Quiet,
}
use ark_asa_operator.Controller.Roll.{
  announce_drain, start_drain, recreate_pod, save_world, swapped, finish_swap, drain_and_swap,
  roll_update_on, roll_update,
}

module _ {W : Type 0} (k : Client W) where
  save_spares : (addr pw : Text) → Quiet SparesPods (Session.save_and_exit k addr pw)
  save_spares addr pw = Quiet-weaken rcon_spares (save_and_exit-Quiet k addr pw)

  announce_spares :
      (addr pw : Text) (g : ℤ) (why : Text)
      → Quiet SparesPods (Session.announce_shutdown k addr pw g why)
  announce_spares addr pw g why = Quiet-weaken rcon_spares (announce_shutdown-Quiet k addr pw g why)

  pub save_world-Quiet : (p : ℕ) → Quiet SparesPods (save_world k p)
  unfolding save_world
  save_world-Quiet p = search (quiet_rules, read_admin_password-Quiet, save_spares) depth 12

  pub recreate_pod-Logs : (m : MapSpec) (i p : ℕ) → Logs CreatesPod (recreate_pod k m i p)
  unfolding recreate_pod
  recreate_pod-Logs m i p =
      search (log_rules, quiet_rules, compute_pod_hash-Quiet, ensure_pod_for_map-Quiet)

  pub save_world-ok : (p : ℕ) (s : Sys W) → (save_world k p s).0 ≡ ok tt
  unfolding save_world read_admin_password ◌>>=◌
  save_world-ok p s = elim (Bool-cases ((status_at p s.cluster).rcon_address == [])) [
    | inl e ↦ ground (arith, e)
    | inr e ↦ ground (arith, e)
  ]

  weaken_creates : (a : Action) → CreatesPod a → ReplacesPod a
  weaken_creates a h = ground arith

  recreate_replaces : (m : MapSpec) (i p : ℕ) → Logs ReplacesPod (recreate_pod k m i p)
  recreate_replaces m i p = record {
    grown = λ s. Grown-weaken weaken_creates ((recreate_pod-Logs m i p).grown s);
  }

  replace_pod-Logs :
      (m : MapSpec) (i p : ℕ) (pod : Pod) (g : Option ℕ)
      → Logs ReplacesPod (delete_if_live k pod g >> recreate_pod k m i p)
  replace_pod-Logs m i p pod g = search (log_rules, delete_if_live-Quiet k, recreate_replaces)

  pub bind-ok :
      {A B : Type 0} (m : Exec W A) (f : A → Exec W B) (a : A) (s : Sys W)
      → (m s).0 ≡ ok a
      → (m >>= f) s ≡ f a (m s).1
  unfolding ◌>>=◌
  bind-ok m f a s e = ap (λ (r : Result _). continue r f (m s).1) e

  pub update_then :
      {B : Type 0} (p : ℕ) (f : MapStatus → MapStatus) (m : Exec W B) (s : Sys W)
      → (update_map p f >> m) s ≡ m (record s { cluster = write_at p f s.cluster })
  unfolding ◌>>=◌
  update_then p f m s = refl

  -- Before any pod is touched, the status write of the cluster as it was, but for the map's entry,
  -- which has the other volume, no drain deadline and the phase Swapping, is made.
  pub finish_swap-PersistedFirst :
      (m : MapSpec) (i p : ℕ) (inactive : Text) (pod : Pod) (s : Sys W)
      → PersistedFirst
          (write_at p (swapped inactive) s.cluster)
          s.log
          (finish_swap k m i p inactive pod s).1.log
  unfolding finish_swap
  finish_swap-PersistedFirst m i p inactive pod s =
      let s1 = (save_world k p s).1 in
      let rest = delete_if_live k pod (some 60) >> recreate_pod k m i p in
      let s2 = record s1 { cluster = write_at p (swapped inactive) s1.cluster } in
      let quiet = save_world-Quiet p in
      let end = ((persist_status k >> rest) s2).1.log in
      subst
        (λ (t : Result (Unit {0}) × Sys W).
          PersistedFirst (write_at p (swapped inactive) s.cluster) s.log t.1.log)
        (sym (
          bind-ok (save_world k p) _ tt s (save_world-ok p s)
          ∙ update_then p (swapped inactive) _ s1))
        (subst (λ (c : ArkCluster). PersistedFirst (write_at p (swapped inactive) c) s.log end)
          (quiet.cluster s)
          (PersistedFirst-after (quiet.grown s)
            (persist_status-PersistedFirst k rest (replace_pod-Logs m i p pod (some 60)) s2)))

  -- Step C is taken only once the deadline has passed on the clock.
  abbrev pub Due : MapStatus → Type 0
  Due m = (d : ℕ) × (m.drain_deadline ≡ some d) × (w : W) × (d ≤ (k.now w).0)

  announce_drain-Logs :
      (p grace : ℕ) (r : Result (Unit {0})) → Logs SparesPods (announce_drain k p grace r)
  unfolding announce_drain
  announce_drain-Logs p grace (err e) = search (log_rules, quiet_rules)
  announce_drain-Logs p grace (ok u) =
      search (log_rules, quiet_rules, read_admin_password-Quiet, announce_spares) depth 12

  persist_spares : Quiet SparesPods (persist_status k)
  persist_spares = persist_status-Quiet k

  pub start_drain-Logs : (p : ℕ) → Logs SparesPods (start_drain k p)
  unfolding start_drain
  start_drain-Logs p = search (log_rules, quiet_rules, persist_spares, announce_drain-Logs) depth 12

  -- What the steps B to D may do: touch no pod, or swap when the deadline has passed.
  abbrev pub Safe : Text → ℕ → ArkCluster → List Action → List Action → Type 0
  Safe inactive p c old now =
      Grown SparesPods old now
      ⊎ (Due (status_at p c) × PersistedFirst (write_at p (swapped inactive) c) old now)

  -- The read of the clock, then the test.
  due_step :
      (m : MapSpec) (i p : ℕ) (inactive : Text) (pod : Pod) (d : ℕ) (w : W) (s : Sys W)
      → (status_at p s.cluster).drain_deadline ≡ some d
      → (b : Bool) → ltb (k.now w).0 d ≡ b
      → Safe inactive p s.cluster s.log
          ((if b
              then update_map p (λ x. record x { phase = MapPhase.draining_active })
              else finish_swap k m i p inactive pod)
            s).1.log
  unfolding modify_cluster
  due_step m i p inactive pod d w s e true h = inl (Grown-refl s.log)
  due_step m i p inactive pod d w s e false h =
      inr ((d, e, w, ground (arith, h)), finish_swap-PersistedFirst m i p inactive pod s)

  pub drain_and_swap-Safe :
      (m : MapSpec) (i p : ℕ) (inactive : Text) (pod : Pod) (o : Option ℕ) (s : Sys W)
      → (status_at p s.cluster).drain_deadline ≡ o
      → Safe inactive p s.cluster s.log (drain_and_swap k m i p inactive pod o s).1.log
  unfolding drain_and_swap ◌>>=◌
  drain_and_swap-Safe m i p inactive pod none s e = inl ((start_drain-Logs p).grown s)
  drain_and_swap-Safe m i p inactive pod (some d) s e =
      due_step m i p inactive pod d s.world (record s { world = (k.now s.world).1 }) e _ refl

  install_spares : (id side : Text) → Quiet SparesPods (ensure_init_job k id side)
  install_spares id side = Quiet-weaken job_spares (ensure_init_job-Quiet k id side)

  pub start_install-Logs :
      (m : MapSpec) (i p : ℕ) (inactive : Text) (pod : Pod)
      → Logs SparesPods (roll_update_on k JobStatus.not_found m i p inactive pod)
  unfolding roll_update_on
  start_install-Logs m i p inactive pod = search (log_rules, quiet_rules, install_spares)

  pub roll_update_on-Safe :
      (job : JobStatus) (m : MapSpec) (i p : ℕ) (inactive : Text) (pod : Pod) (s : Sys W)
      → Safe inactive p s.cluster s.log (roll_update_on k job m i p inactive pod s).1.log
  unfolding roll_update_on ◌>>=◌ set_condition_of
  roll_update_on-Safe JobStatus.not_found m i p inactive pod s =
      inl ((start_install-Logs m i p inactive pod).grown s)
  roll_update_on-Safe JobStatus.running m i p inactive pod s = inl (Grown-refl s.log)
  roll_update_on-Safe JobStatus.failed m i p inactive pod s = inl (Grown-refl s.log)
  roll_update_on-Safe JobStatus.succeeded m i p inactive pod s =
      drain_and_swap-Safe m i p inactive pod _ s refl

  continue-Safe :
      {A : Type 0} (inactive : Text) (p : ℕ) (f : A → Exec W (Unit {0}))
      → ((a : A) (s : Sys W) → Safe inactive p s.cluster s.log (f a s).1.log)
      → (c : ArkCluster) (old : List Action) (r : Result A) (s : Sys W) → s.cluster ≡ c
      → Grown SparesPods old s.log
      → Safe inactive p c old (continue r f s).1.log
  continue-Safe inactive p f h c old (err e) s q g = inl g
  continue-Safe inactive p f h c old (ok a) s q g =
      subst (λ (x : ArkCluster). Safe inactive p x old (f a s).1.log) q
        (elim (h a s) [
          | inl g' ↦ inl (Grown-trans g g')
          | inr (due, first) ↦ inr (due, PersistedFirst-after g first)
        ])

  -- Either a pass of `rollUpdate` creates and deletes no pod, or the map's drain deadline is set and the
  -- clock has reached it, and the pass makes the status write of the swap first; it then goes on to
  -- replace the pod only if that write succeeds or meets a conflict.
  pub roll_update-Safe :
      (m : MapSpec) (i p : ℕ) (pod : Pod) (s : Sys W)
      → Safe
          (other_side (status_at p s.cluster).active_volume)
          p
          s.cluster
          s.log
          (roll_update k m i p pod s).1.log
  unfolding roll_update ◌>>=◌
  roll_update-Safe m i p pod s =
      let inactive = other_side (status_at p s.cluster).active_volume in
      let job = init_job_status k m.id (volume_side inactive) in
      let s1 = record s { busy = true } in
      continue-Safe inactive p (λ j. roll_update_on k j m i p inactive pod)
        (λ j s'. roll_update_on-Safe j m i p inactive pod s') s.cluster s.log (job s1).0 (job s1).1
        ((init_job_status-Quiet k {P = SparesPods} m.id (volume_side inactive)).cluster s1)
        ((init_job_status-Quiet k m.id (volume_side inactive)).grown s1)
