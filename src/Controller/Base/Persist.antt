-- ===== src/Controller/Base/Persist.antt =====
-- The write of the status that goes before the replacement of a pod, and the kinds of calls.
use ark_asa_operator.Prelude.{
  ◌≡◌, refl, sym, ap, ◌∙◌, ◌⊎◌, inl, inr, List, [], ◌∷◌, ◌++◌, All, All-append, arith, Option, ℕ,
}
use mathlib.Core.List.{append_assoc}
use ark_asa_operator.Api.{ArkCluster, Condition}
use ark_asa_operator.Kube.{
  Error, Result, ok, err, Action, Sys, Client, Exec, ◌>>=◌, ◌>>◌, ignore_conflict, Pod,
}
use ark_asa_operator.Prelude.{Text}
use ark_asa_operator.Kube.Quiet.{Quiet, quiet_rules, Grown}
use ark_asa_operator.Kube.Logs.{Logs, log_rules}
use ark_asa_operator.Rcon.Session.Quiet.{IsRcon}
use ark_asa_operator.Controller.Base.{persist_status, delete_if_live, set_condition_of}
use ark_asa_operator.Controller.Base.Quiet.{SparesPods, CreatesJob}

pub rcon_spares : (a : Action) → IsRcon a → SparesPods a
rcon_spares a h = ground arith

pub job_spares : (a : Action) → CreatesJob a → SparesPods a
job_spares a h = ground arith

-- A write that the code goes on after.
abbrev pub GoesOn : Result (Unit {0}) → Type 0
GoesOn (ok _) = Unit
GoesOn (err Error.conflict) = Unit
GoesOn (err _) = ⊥

-- The deletion of a pod or the creation of one.
abbrev pub ReplacesPod : Action → Type 0
ReplacesPod (Action.create_pod pod r) = Unit
ReplacesPod (Action.delete_pod pod grace) = Unit
ReplacesPod _ = ⊥

-- The log has grown by calls that touch no pod, then by the status write of `c`, then by calls that
-- replace a pod, and by those only if the code goes on after the write.
abbrev pub PersistedFirst : ArkCluster → List Action → List Action → Type 0
PersistedFirst c old now =
    (r : Result (Unit {0})) × (before : List Action) × (after : List Action) × (now
      ≡ after ++ (Action.write_status c r ∷ (before ++ old)))
    × All SparesPods before
    × All ReplacesPod after
    × ((after ≡ []) ⊎ GoesOn r)

pub PersistedFirst-after :
    {c : ArkCluster} {a b d : List Action}
    → Grown SparesPods a b
    → PersistedFirst c b d
    → PersistedFirst c a d
PersistedFirst-after {c} {a} (new, p, hn) (r, before, after, q, hb, ha, go) = (
  r,
  before ++ new,
  after,
  q
      ∙ ap (λ (l : List Action). after ++ (Action.write_status c r ∷ l))
          (ap (λ (l : List Action). before ++ l) p ∙ sym (append_assoc before new a)),
  All-append SparesPods before new hb hn,
  ha,
  go,
)

module _ {W : Type 0} (k : Client W) where
  pub delete_if_live-Quiet : (pod : Pod) (g : Option ℕ) → Quiet ReplacesPod (delete_if_live k pod g)
  unfolding delete_if_live
  delete_if_live-Quiet pod g = search quiet_rules depth 10

  persist_step :
      (rest : Exec W (Unit {0}))
      → Logs ReplacesPod rest
      → (c : ArkCluster) (l : List Action) (r : Result (Unit {0})) (s : Sys W)
      → s.log ≡ Action.write_status c r ∷ l
      → PersistedFirst c l ((ignore_conflict r >> rest) s).1.log
  unfolding ◌>>=◌ ignore_conflict
  persist_step rest h c l (ok u) s e =
      let (new, q, hn) = h.grown s in
      (ok u, [], new, q ∙ ap (λ (x : List Action). new ++ x) e, tt, hn, inr tt)
  persist_step rest h c l (err Error.conflict) s e =
      let (new, q, hn) = h.grown s in
      (err Error.conflict, [], new, q ∙ ap (λ (x : List Action). new ++ x) e, tt, hn, inr tt)
  persist_step rest h c l (err x) s e = (err _, [], [], e, tt, tt, inl refl)

  -- Anything that replaces pods, after a status write.
  pub persist_status-PersistedFirst :
      (rest : Exec W (Unit {0}))
      → Logs ReplacesPod rest
      → (s : Sys W) → PersistedFirst s.cluster s.log ((persist_status k >> rest) s).1.log
  unfolding persist_status ◌>>=◌
  persist_status-PersistedFirst rest h s =
      persist_step rest h s.cluster s.log (k.update_status s.cluster s.world).0 _ refl

  pub persist_status-Quiet : Quiet SparesPods (persist_status k)
  unfolding persist_status
  persist_status-Quiet = search quiet_rules

  pub set_condition_of-Logs :
      {P : Action → Type 0} (id : Text) (c : Condition) → Logs P (set_condition_of k id c)
  unfolding set_condition_of
  set_condition_of-Logs id c = search (log_rules, quiet_rules)
