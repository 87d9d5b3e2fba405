-- ===== src/ModUpdate/Pass/Interval.antt =====
-- The interval between two checks, and the wait before the next one.
use ark_asa_operator.Prelude.{
  ℕ, ◌+◌, ◌-◌, ◌*◌, ◌≤◌, ◌<◌, ◌≡◌, refl, true, ltb, if◌then◌else◌, some, none, lt→ltb, arith, ◌||◌,
  Text, Option, Bool, ap, ◌∙◌,
}
use ark_asa_operator.Prelude.Int.{pos}
use ark_asa_operator.Api.{ModAutoUpdateSpec}
use ark_asa_operator.Kube.{ok, Sys, Client, Exec, ◌>>=◌}
use ark_asa_operator.CurseForge.{ModApi}
use ark_asa_operator.Controller.Reconcile.{Requeue, requeue_after}
use ark_asa_operator.ModUpdate.Pass.{
  minute, shortest_interval, interval_of, last_check, wait_after, after_wait, check_mods,
  if_enabled, reconcile_mods,
}

-- Up to 307445734 minutes: the interval is the setting, but five minutes for a setting below that and
-- for one above 153722867 minutes, where the product overflows an int64. It is never below five minutes.
pub interval_of_lem :
    (n : ℕ)
    → n ≤ 307445734
    → (interval_of (pos n) ≡ (if ltb n 5 || ltb 153722867 n then shortest_interval else n * minute))
      × (shortest_interval ≤ interval_of (pos n))
unfolding interval_of
interval_of_lem n h = ground arith

if_true {ℓ} : {A : Type ℓ} (b : Bool) (x y : A) → b ≡ true → (if b then x else y) ≡ x
if_true b x y h = rw h refl

module _ {W : Type 0} (k : Client W) (api : ModApi W) (base : Text) where
  check_waits :
      (spec : ModAutoUpdateSpec) (n last : ℕ) (s : Sys W)
      → (k.now s.world).0 < last + n
      → (wait_after k n (some last) >>= λ wait. after_wait k api base spec n wait) s ≡ (
        ok (requeue_after (last + n - (k.now s.world).0)),
        record s { world = (k.now s.world).1 },
      )
  unfolding wait_after after_wait ◌>>=◌
  check_waits spec n last s h =
      ap (λ (o : Option ℕ). after_wait k api base spec n o (record s { world = (k.now s.world).1 }))
        (if_true _ (some (last + n - (k.now s.world).0)) none (lt→ltb _ _ h))

  enabled_check :
      (spec : ModAutoUpdateSpec) (s : Sys W)
      → spec.enabled ≡ true
      → if_enabled k api base (some spec) s ≡ check_mods k api base spec s
  unfolding if_enabled
  enabled_check spec s on = ap (λ (m : Exec W Requeue). m s) (if_true _ _ _ on)

  -- While the interval since the last check is not over, a check of a cluster that has it enabled reads
  -- the clock and does nothing else, and the next check is due when the interval is over.
  pub reconcile_mods_waits :
      (spec : ModAutoUpdateSpec) (last : ℕ) (s : Sys W)
      → s.cluster.spec.mod_auto_update ≡ some spec
      → spec.enabled ≡ true
      → last_check s.cluster.status.mods ≡ some last
      → (k.now s.world).0 < last + interval_of spec.interval_minutes
      → reconcile_mods k api base s ≡ (
        ok (requeue_after (last + interval_of spec.interval_minutes - (k.now s.world).0)),
        record s { world = (k.now s.world).1 },
      )
  unfolding reconcile_mods check_mods ◌>>=◌
  reconcile_mods_waits spec last s e on l soon =
      let n = interval_of spec.interval_minutes in
      ap (λ (o : Option ModAutoUpdateSpec). if_enabled k api base o s) e
      ∙ (enabled_check spec s on
          ∙ (ap
                (λ (o : Option ℕ).
                  (wait_after k n o >>= λ wait. after_wait k api base spec n wait) s)
                l
              ∙ check_waits spec n last s soon))
