-- ===== src/Controller/Roll/Drain.antt =====
-- The start of a drain, on every outcome of its status write.
use ark_asa_operator.Prelude.{
  ◌≡◌, refl, ap, ◌∙◌, ◌⊎◌, inl, inr, ℕ, ◌+◌, some, none, ◌&&◌, not, ltb, [], ◌==◌, List_eq, ℕ_eq,
  if-both,
}
use ark_asa_operator.Api.{ArkCluster, MapStatus, MapPhase}
use ark_asa_operator.Kube.{
  Error, Result, ok, err, Sys, Client, Exec, attempt, ◌>>=◌, ignore_conflict,
}
use ark_asa_operator.Kube.Quiet.{Quiet, quiet_rules}
use ark_asa_operator.Rcon.Session.Quiet.{IsRcon, announce_shutdown-Quiet}
use ark_asa_operator.Controller.Base.{status_at, write_at, persist_status, read_admin_password}
use ark_asa_operator.Controller.Base.Persist.{GoesOn}
use ark_asa_operator.Controller.Base.Quiet.{read_admin_password-Quiet}
use ark_asa_operator.Controller.Roll.{grace_of, announce_drain, start_drain}

-- The map drains until the given time.
abbrev pub draining : ℕ → MapStatus → MapStatus
draining t m = record m { drain_deadline = some t; phase = MapPhase.draining_active }

-- The drain is taken back.
abbrev pub not_draining : MapStatus → MapStatus
not_draining m = record m { drain_deadline = none; phase = MapPhase.running }

module _ {W : Type 0} (k : Client W) where
  -- The drain has begun, or it is taken back and the error of the write is returned.
  abbrev pub DrainStarted : ℕ → ArkCluster → Result (Unit {0}) → Result (Unit {0}) × Sys W → Type 0
  DrainStarted p c r t =
      (GoesOn r × (t.0 ≡ ok tt) × (t.1.cluster ≡ c))
      ⊎ ((e : Error) × (r ≡ err e)
          × (¬ GoesOn r)
          × (t.0 ≡ err e)
          × (t.1.cluster ≡ write_at p not_draining c))

  announce_drain-Quiet : (p grace : ℕ) → Quiet IsRcon (announce_drain k p grace (ok tt))
  unfolding announce_drain
  announce_drain-Quiet p grace =
      search (quiet_rules, read_admin_password-Quiet, announce_shutdown-Quiet) depth 12

  announce_drain-ok : (p grace : ℕ) (s : Sys W) → (announce_drain k p grace (ok tt) s).0 ≡ ok tt
  unfolding announce_drain read_admin_password ◌>>=◌
  announce_drain-ok p grace s =
      if-both (λ (x : Exec W (Unit {0})). (x s).0 ≡ ok tt)
        (ltb 0 grace && not ((status_at p s.cluster).rcon_address == [])) refl refl

  after_write :
      (p grace : ℕ) (c : ArkCluster) (r : Result (Unit {0})) (s : Sys W)
      → s.cluster ≡ c
      → DrainStarted p c r ((attempt (ignore_conflict r) >>= λ x. announce_drain k p grace x) s)
  unfolding ◌>>=◌ ignore_conflict announce_drain
  after_write p grace c (ok u) s e =
      inl (tt, announce_drain-ok p grace s, (announce_drain-Quiet p grace).cluster s ∙ e)
  after_write p grace c (err Error.conflict) s e =
      inl (tt, announce_drain-ok p grace s, (announce_drain-Quiet p grace).cluster s ∙ e)
  after_write p grace c (err Error.not_found) s e =
      inr (Error.not_found, refl, λ x. x, refl, ap (write_at p not_draining) e)
  after_write p grace c (err Error.already_exists) s e =
      inr (Error.already_exists, refl, λ x. x, refl, ap (write_at p not_draining) e)
  after_write p grace c (err (Error.other t)) s e =
      inr (Error.other t, refl, λ x. x, refl, ap (write_at p not_draining) e)

  -- The drain starts with a status write of the deadline, which is the grace period from now. If the
  -- write succeeds or meets a conflict, the step succeeds with that deadline set, however the
  -- announcement ends; if it fails otherwise, the deadline is taken back, the phase is Running again and
  -- the error is returned.
  pub start_drain_cases :
      (p : ℕ) (s : Sys W)
      → DrainStarted p
          (write_at p
            (draining
              ((k.now s.world).0 + grace_of s.cluster.spec.update_strategy.graceful_shutdown))
            s.cluster)
          (k.update_status
            (write_at p
              (draining
                ((k.now s.world).0 + grace_of s.cluster.spec.update_strategy.graceful_shutdown))
              s.cluster)
            (k.now s.world).1).0
          (start_drain k p s)
  unfolding start_drain persist_status ◌>>=◌
  start_drain_cases p s =
      after_write p (grace_of s.cluster.spec.update_strategy.graceful_shutdown) _ _ _ refl
