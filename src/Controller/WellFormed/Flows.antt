-- ===== src/Controller/WellFormed/Flows.antt =====
-- The three flows of a map, `firstStart`, `steady` and `rollUpdate`: what they write.
use ark_asa_operator.Prelude.{◌≡◌, refl, Bool, Text, ℕ, arith, Option, List_eq, ℕ_eq}
use ark_asa_operator.Api.{ArkCluster, ArkClusterSpec, MapSpec, MapStatus, Condition, MapPhase}
use ark_asa_operator.Kube.{Pod, Action, Client, Exec, ◌>>=◌, gets}
use ark_asa_operator.Kube.Quiet.{Quiet, quiet_rules, Quiet-ignore_conflict, Quiet-call_ok}
use ark_asa_operator.Kube.Logs.{Quiet-weaken}
use ark_asa_operator.Kube.Preserves.{
  SendsGood, Preserves, Preserves-Quiet, Preserves-modify, Preserves-gets, Preserves-write_then,
  preserves_rules, Preserves-bind, Preserves-set_busy,
}
use ark_asa_operator.Reconcile.Job.{JobStatus, ensure_init_job}
use ark_asa_operator.Rcon.Session.Quiet.{IsRcon}
use ark_asa_operator.Controller.Base.{
  status_at, update_map, set_condition_of, persist_status, delete_if_live, ensure_pod_for_map,
}
use ark_asa_operator.Controller.Base.Persist.{ReplacesPod, delete_if_live-Quiet}
use ark_asa_operator.Controller.Base.Quiet.{
  CreatesPod, CreatesJob, init_job_status-Quiet, ensure_pod_for_map-Quiet, ensure_init_job-Quiet,
}
use ark_asa_operator.Controller.FirstStart.{first_start_on, first_start}
use ark_asa_operator.Controller.Steady.{rollback, settle, warn_or_settle, steady_on, steady, named}
use ark_asa_operator.Controller.Steady.Safety.{should_rollback-Quiet}
use ark_asa_operator.Controller.WellFormed.{IsVolume, IsEntry, IsWellFormed}
use ark_asa_operator.Controller.WellFormed.Updates.{
  set_map_condition-AreEntries, modify-AreEntries, get_elem?-IsEntry,
}

module _ {W : Type 0} (k : Client W) (spec : ArkClusterSpec) where
  -- A run that keeps the status well formed, and the desired state as it is, and writes no other.
  abbrev pub Sound : {A : Type 0} → Exec W A → Type 0
  Sound m = Preserves (IsWellFormed spec) m

  abbrev pub Good : Action → Type 0
  Good = SendsGood (IsWellFormed spec)

  pub Quiet-Sound : {A : Type 0} {m : Exec W A} → Quiet Good m → Sound m
  Quiet-Sound q = Preserves-Quiet (IsWellFormed spec) q

  rcon-Good : (a : Action) → IsRcon a → Good a
  rcon-Good a h = ground arith

  pub rcon-Sound : {A : Type 0} {m : Exec W A} → Quiet IsRcon m → Sound m
  rcon-Sound q = Quiet-Sound (Quiet-weaken rcon-Good q)

  -- Assignments through the pointer.
  pub update_map-Sound :
      (p : ℕ) (f : MapStatus → MapStatus)
      → ((m : MapStatus) → (f m).id ≡ m.id)
      → ((m : MapStatus) → IsEntry m → IsEntry (f m))
      → Sound (update_map p f)
  update_map-Sound p f same good =
      Preserves-modify (IsWellFormed spec) _
        λ c h. (h.0, (modify-AreEntries f same good p c.status.maps h.1.0, h.1.1))

  -- Assignments that touch neither the volumes nor the conditions.
  pub aside-Sound :
      (p : ℕ) (f : MapStatus → MapStatus)
      → ((m : MapStatus) → (f m).id ≡ m.id)
      → ((m : MapStatus) → (f m).active_volume ≡ m.active_volume)
      → ((m : MapStatus) → (f m).last_good_volume ≡ m.last_good_volume)
      → ((m : MapStatus) → (f m).conditions ≡ m.conditions)
      → Sound (update_map p f)
  aside-Sound p f same active good conds =
      update_map-Sound p f same λ m h. rw (active m, good m, conds m) h

  pub set_condition_of-Sound : (id : Text) (c : Condition) → Sound (set_condition_of k id c)
  unfolding set_condition_of
  set_condition_of-Sound id c =
      Preserves-bind (IsWellFormed spec) _ _ (Quiet-Sound (Quiet-call_ok _)) λ now.
        Preserves-modify (IsWellFormed spec) _
          λ x h. (h.0, (set_map_condition-AreEntries now id c x.status.maps h.1.0, h.1.1))

  pub persist_status-Sound : Sound (persist_status k)
  unfolding persist_status
  persist_status-Sound =
      Preserves-write_then (IsWellFormed spec) _ _ (λ c r h. h) _
        λ r. Quiet-Sound (Quiet-ignore_conflict r)

  replaces-Good : (a : Action) → ReplacesPod a → Good a
  replaces-Good a h = ground arith

  pub delete_if_live-Sound : (pod : Pod) (g : Option ℕ) → Sound (delete_if_live k pod g)
  delete_if_live-Sound pod g =
      Quiet-Sound (Quiet-weaken replaces-Good (delete_if_live-Quiet k pod g))

  -- What is read through the pointer.
  pub status_at-Sound :
      {A : Type 0} (p : ℕ) (f : MapStatus → Exec W A)
      → ((m : MapStatus) → IsEntry m → Sound (f m))
      → Sound (gets (λ s. status_at p s.cluster) >>= f)
  status_at-Sound p f h =
      Preserves-gets (IsWellFormed spec) IsEntry _ f
        (λ s i. get_elem?-IsEntry p s.cluster.status.maps i.1.0.0) h

  rollback_volume :
      (p : ℕ) (v : Text) → IsVolume v → Sound (update_map p (λ m. record m { active_volume = v }))
  rollback_volume p v h = update_map-Sound p _ (λ m. refl) λ m e. (h, e.1, e.2)

  rollback-Sound : (m : MapSpec) (p : ℕ) (pod : Pod) → Sound (rollback k m p pod)
  unfolding rollback
  rollback-Sound m p pod =
      Preserves-bind (IsWellFormed spec) _ _ (Preserves-set_busy (IsWellFormed spec)) λ _.
        status_at-Sound p _ λ e h.
          Preserves-bind (IsWellFormed spec) _ _ (rollback_volume p e.last_good_volume h.1) λ _.
            search
              (preserves_rules, set_condition_of-Sound, persist_status-Sound, delete_if_live-Sound)

  -- The active volume becomes the last good one.
  settle_volume :
      (p : ℕ)
      → Sound (
          update_map {W = W} p
            (λ m. record m { phase = MapPhase.running; last_good_volume = m.active_volume }))
  settle_volume p = update_map-Sound p _ (λ m. refl) λ m e. (e.0, e.0, e.2)

  settle-Sound : (m : MapSpec) (p : ℕ) (pod : Pod) → Sound (settle k m p pod)
  unfolding settle
  settle-Sound m p pod = search (preserves_rules, settle_volume, set_condition_of-Sound) depth 12

  warn_or_settle-Sound :
      (m : MapSpec) (p : ℕ) (pod : Pod) (b : Bool) → Sound (warn_or_settle k m p pod b)
  unfolding warn_or_settle
  warn_or_settle-Sound m p pod b =
      search (preserves_rules, settle-Sound, set_condition_of-Sound) depth 12

  steady_on-Sound : (m : MapSpec) (p : ℕ) (pod : Pod) (b : Bool) → Sound (steady_on k m p pod b)
  unfolding steady_on
  steady_on-Sound m p pod b =
      search
        (
          preserves_rules,
          rollback-Sound,
          warn_or_settle-Sound,
          Quiet-Sound,
          quiet_rules,
          should_rollback-Quiet k,
        )
        depth 12

  named-Sound :
      (c : ArkCluster) (m : MapSpec) (p : ℕ) (pod : Pod)
      → Sound (update_map {W = W} p (named c m pod))
  named-Sound c m p pod = aside-Sound p _ (λ m. refl) (λ m. refl) (λ m. refl) (λ m. refl)

  pub steady-Sound : (m : MapSpec) (p : ℕ) (pod : Pod) → Sound (steady k m p pod)
  unfolding steady
  steady-Sound m p pod =
      search
        (
          preserves_rules,
          named-Sound,
          steady_on-Sound,
          Quiet-Sound,
          quiet_rules,
          should_rollback-Quiet k,
        )
        depth 12

  -- A new phase of a map.
  pub phase-Sound :
      (p : ℕ) (ph : MapPhase) → Sound (update_map {W = W} p (λ m. record m { phase = ph }))
  phase-Sound p ph = aside-Sound p _ (λ m. refl) (λ m. refl) (λ m. refl) (λ m. refl)

  creates-Good : (a : Action) → CreatesPod a → Good a
  creates-Good a h = ground arith

  job-Good : (a : Action) → CreatesJob a → Good a
  job-Good a h = ground arith

  pub ensure_pod-Sound : (m : MapSpec) (i : ℕ) (v h : Text) → Sound (ensure_pod_for_map k m i v h)
  ensure_pod-Sound m i v h =
      Quiet-Sound (Quiet-weaken creates-Good (ensure_pod_for_map-Quiet k m i v h))

  pub install-Sound : (id side : Text) → Sound (ensure_init_job k id side)
  install-Sound id side = Quiet-Sound (Quiet-weaken job-Good (ensure_init_job-Quiet k id side))

  first_start_on-Sound :
      (job : JobStatus) (m : MapSpec) (i p : ℕ) (hash : Text)
      → Sound (first_start_on k job m i p hash)
  unfolding first_start_on
  first_start_on-Sound JobStatus.not_found m i p hash =
      search (preserves_rules, phase-Sound, install-Sound, Quiet-Sound, quiet_rules) depth 12
  first_start_on-Sound JobStatus.running m i p hash = search (preserves_rules, phase-Sound)
  first_start_on-Sound JobStatus.failed m i p hash =
      search (preserves_rules, phase-Sound, set_condition_of-Sound)
  first_start_on-Sound JobStatus.succeeded m i p hash =
      search (preserves_rules, phase-Sound, ensure_pod-Sound, Quiet-Sound, quiet_rules) depth 12

  pub first_start-Sound : (m : MapSpec) (i p : ℕ) (hash : Text) → Sound (first_start k m i p hash)
  unfolding first_start
  first_start-Sound m i p hash =
      search
        (preserves_rules, first_start_on-Sound, Quiet-Sound, quiet_rules, init_job_status-Quiet k)
        depth 12
