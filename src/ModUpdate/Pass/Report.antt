-- ===== src/ModUpdate/Pass/Report.antt =====
-- What a check does with the versions that it has fetched.
use ark_asa_operator.Prelude.{
  ◌≡◌, refl, ap, ◌∙◌, ℕ, Bool, true, false, List, ◌∷◌, Option, none, some, if◌then◌else◌,
}
use ark_asa_operator.Prelude.Int.{ℤ, ℤ_eq}
use ark_asa_operator.Prelude.Sorting.{ℤ_order}
use ark_asa_operator.Prelude.Sorting.Ascending.{Distinct}
use ark_asa_operator.Api.{ArkCluster, TrackedMod}
use ark_asa_operator.Kube.{
  Error, Result, ok, err, Action, Sys, Client, ◌>>=◌, ignore_conflict, pure, continue,
}
use ark_asa_operator.Controller.Reconcile.{Requeue, requeue_after}
use ark_asa_operator.CurseForge.{ModInfo}
use ark_asa_operator.ModUpdate.Merge.{merge_mod_status, hash_tracked}
use ark_asa_operator.ModUpdate.Merge.Order.{key_of}
use ark_asa_operator.ModUpdate.Merge.Stable.{merge_mod_status_again}
use ark_asa_operator.ModUpdate.Pass.{with_mods, checked, stamp, write_status, stamp_if, after_fetch}

-- The cluster with the outcome of a check in its status.
abbrev pub checked_cluster : ℕ → ℕ → List (ℤ × ModInfo) → ArkCluster → ArkCluster
checked_cluster interval now infos c =
    with_mods (checked now interval (merge_mod_status c infos now).0) c

-- The error that ends a pass after a status write: a conflict does not.
abbrev pub fatal : Result (Unit {0}) → Option Error
fatal (ok u) = none
fatal (err Error.conflict) = none
fatal (err e) = some e

abbrev pub patched : ℕ → Result (Unit {0}) → Result Requeue
patched interval (ok u) = ok (requeue_after interval)
patched interval (err e) = err e

-- The end of a pass that writes `c` with the outcome `r`, and patches it to `stamped` with the outcome
-- `r'` if there is a change and the write was not fatal.
abbrev pub reported :
    ℕ
    → Bool
    → ArkCluster
    → ArkCluster
    → Result (Unit {0})
    → Result (Unit {0})
    → List Action
    → Result Requeue × List Action
reported interval changed c stamped r r' log = elim (fatal r) [
  | some e ↦ (err e, Action.write_status c r ∷ log)
  | none ↦
      if changed
      then (patched interval r', Action.patch_cluster stamped r' ∷ Action.write_status c r ∷ log)
      else (ok (requeue_after interval), Action.write_status c r ∷ log)
]

reported_quiet :
    (interval : ℕ) (b : Bool) (c stamped : ArkCluster) (r r' : Result (Unit {0}))
    (log : List Action)
    → b ≡ false
    → (reported interval b c stamped r r' log).1 ≡ Action.write_status c r ∷ log
reported_quiet interval b c stamped (ok u) r' log h = rw h refl
reported_quiet interval b c stamped (err Error.conflict) r' log h = rw h refl
reported_quiet interval b c stamped (err e) r' log h = refl

module _ {W : Type 0} (k : Client W) where
  -- The cluster with the hash of its tracked mods in the annotation.
  abbrev pub stamped_by : List TrackedMod → ArkCluster → ArkCluster
  stamped_by tracked c = stamp (hash_tracked k.sha256 tracked) c

  abbrev pub ending : {A : Type 0} → Result A × Sys W → Result A × List Action
  ending p = (p.0, p.1.log)

  patch_end :
      (interval : ℕ) (r' : Result (Unit {0})) (s : Sys W)
      → continue r' (λ _. pure (requeue_after interval)) s ≡ (patched interval r', s)
  unfolding pure
  patch_end interval (ok u) s = refl
  patch_end interval (err e) s = refl

  stamp_end :
      (interval : ℕ) (b : Bool) (tracked : List TrackedMod) (c : ArkCluster) (r : Result (Unit {0}))
      (w : W) (busy : Bool) (log : List Action)
      → ending (
          (stamp_if k b tracked >>= λ _. pure (requeue_after interval))
            (record { cluster = c; busy = busy; world = w; log = Action.write_status c r ∷ log }))
        ≡ (if b
            then (
              patched interval (k.patch c (stamped_by tracked c) w).0,
              Action.patch_cluster (stamped_by tracked c) (k.patch c (stamped_by tracked c) w).0
                  ∷ Action.write_status c r
                  ∷ log,
            )
            else (ok (requeue_after interval), Action.write_status c r ∷ log))
  unfolding stamp_if ◌>>=◌
  stamp_end interval false tracked c r w busy log = refl
  stamp_end interval true tracked c r w busy log = ap ending (patch_end interval _ _)

  write_end :
      (interval : ℕ) (b : Bool) (tracked : List TrackedMod) (c : ArkCluster) (r : Result (Unit {0}))
      (w : W) (busy : Bool) (log : List Action)
      → ending (
          (ignore_conflict r >>= λ _. stamp_if k b tracked >>= λ _. pure (requeue_after interval))
            (record { cluster = c; busy = busy; world = w; log = Action.write_status c r ∷ log }))
        ≡ reported interval b c (stamped_by tracked c) r (k.patch c (stamped_by tracked c) w).0 log
  unfolding ignore_conflict ◌>>=◌
  write_end interval b tracked c (ok u) w busy log =
      stamp_end interval b tracked c (ok u) w busy log
  write_end interval b tracked c (err Error.conflict) w busy log =
      stamp_end interval b tracked c (err Error.conflict) w busy log
  write_end interval b tracked c (err e) w busy log = refl

  -- After a fetch that succeeds, a check writes the status with the merged mods. If the write fails,
  -- other than by a conflict, the check ends with that error and patches nothing. Else it patches the
  -- cluster, with the hash of the tracked mods in the annotation, exactly if the merge reports a
  -- change; it ends with the error of the patch if that fails, and else asks for the next check after
  -- the interval.
  pub after_fetch-reported :
      (interval now : ℕ) (infos : List (ℤ × ModInfo)) (s : Sys W)
      → let merged = merge_mod_status s.cluster infos now in
        let c = checked_cluster interval now infos s.cluster in
        let (r, w) = k.update_status c s.world in
        ending (after_fetch k interval now (ok infos) s)
        ≡ reported interval merged.1 c
            (stamped_by merged.0 c)
            r
            (k.patch c (stamped_by merged.0 c) w).0
            s.log
  unfolding after_fetch write_status ◌>>=◌
  after_fetch-reported interval now infos s =
      let c = checked_cluster interval now infos s.cluster in
      let (r, w) = k.update_status c s.world in write_end interval _ _ c r w s.busy s.log

  -- A change of the mods is reported by one patch at most: a check that gets the same versions,
  -- with no mod twice, and starts from the status that an earlier one has written makes no call but
  -- its status write, whether or not the earlier one's patch succeeded.
  pub after_fetch-reports_once :
      (interval now now' : ℕ) (infos : List (ℤ × ModInfo)) (c : ArkCluster) (s : Sys W)
      → Distinct key_of infos
      → s.cluster ≡ checked_cluster interval now infos c
      → (r : Result (Unit {0})) × ((after_fetch k interval now' (ok infos) s).1.log
          ≡ Action.write_status (checked_cluster interval now' infos s.cluster) r ∷ s.log)
  after_fetch-reports_once interval now now' infos c s d e =
      let quiet : (merge_mod_status s.cluster infos now').1 ≡ false =
        ap (λ (x : ArkCluster). (merge_mod_status x infos now').1) e
        ∙ ap (λ p. p.1) (merge_mod_status_again c infos now now' _ d refl) in
      let (r, w) = k.update_status (checked_cluster interval now' infos s.cluster) s.world in
      (
        r,
        ap (λ p. p.1) (after_fetch-reported interval now' infos s)
            ∙ reported_quiet interval _ _ _ r _ s.log quiet,
      )
