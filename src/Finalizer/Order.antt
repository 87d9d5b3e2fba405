-- ===== src/Finalizer/Order.antt =====
-- The finalizer is removed after the worlds are saved.
use ark_asa_operator.Prelude.{
  false, arith, ap, map, keep_if, not, inl, inr, Bool-cases, [], ◌≡◌, refl, ◌∙◌, ◌∷◌, List, [],
  Bool, true, Text, if◌then◌else◌, ◌==◌, List_eq, ℕ_eq,
}
use ark_asa_operator.Api.{ArkCluster, MapStatus}
use ark_asa_operator.Kube.{
  continue, onto, Result, ok, err, Action, Sys, Client, Exec, modify_cluster, ◌>>=◌, ◌>>◌, pure,
}
use ark_asa_operator.Kube.Quiet.{Quiet, Quiet-bind, Quiet-if, Quiet-attempt, quiet_rules}
use ark_asa_operator.Rcon.Session.Quiet.{none_new, IsRcon, save_and_exit-Quiet, save_and_exit-log}
use ark_asa_operator.Rcon.Session
use ark_asa_operator.Finalizer.{
  finalizer_name, update_cluster, read_admin_password, drain_maps, drain_if_password, run_finalize,
}

-- The RCON addresses of the maps that have one.
abbrev pub addresses : List MapStatus → List Text
addresses maps = keep_if (λ a. not (a == [])) (map (λ (m : MapStatus). m.rcon_address) maps)

-- The saves that are due: none if the password cannot be read.
abbrev pub saves : Result Text → ArkCluster → List Action
saves (err e) c = []
saves (ok password) c = map Action.save_and_exit (addresses c.status.maps)

module _ {W : Type 0} (k : Client W) where
  read_admin_password-Quiet : {P : Action → Type 0} → Quiet P (read_admin_password k)
  unfolding read_admin_password
  read_admin_password-Quiet = search quiet_rules

  drain_maps-Quiet :
      (password : Text) (maps : List MapStatus) → Quiet IsRcon (drain_maps k password maps)
  unfolding drain_maps
  drain_maps-Quiet password [] = search quiet_rules
  drain_maps-Quiet password (m ∷ maps) =
      let rest = drain_maps-Quiet password maps in
      Quiet-if _ _ _ rest
        (Quiet-bind _ _ (Quiet-attempt _ (save_and_exit-Quiet k m.rcon_address password)) λ _. rest)

  -- The loop makes one save for each address, in their order, and succeeds.
  drain_maps-Saves :
      (password : Text) (maps : List MapStatus) (s : Sys W)
      → ((drain_maps k password maps s).0 ≡ ok tt)
        × ((drain_maps k password maps s).1.log
            ≡ onto (map Action.save_and_exit (addresses maps)) s.log)
  unfolding drain_maps ◌>>=◌
  drain_maps-Saves password [] s = (refl, refl)
  drain_maps-Saves password (m ∷ maps) s = elim (Bool-cases (m.rcon_address == [])) [
    | inl e ↦ rw e (drain_maps-Saves password maps s)
    | inr e ↦
        let t = (Session.save_and_exit k m.rcon_address password s).1 in
        let rest = drain_maps-Saves password maps t in
        rw e (
          rest.0,
          rest.1
              ∙ ap (λ (l : List Action). onto (map Action.save_and_exit (addresses maps)) l)
                  (save_and_exit-log k m.rcon_address password s),
        )
  ]

  pub drain_if_password-Quiet : (r : Result Text) → Quiet IsRcon (drain_if_password k r)
  drain_if_password-Quiet (err e) = search quiet_rules
  drain_if_password-Quiet (ok password) = search (quiet_rules, drain_maps-Quiet)

  drain_if_password-Saves :
      (r : Result Text) (s : Sys W)
      → ((drain_if_password k r s).0 ≡ ok tt)
        × ((drain_if_password k r s).1.log ≡ onto (saves r s.cluster) s.log)
  unfolding ◌>>=◌
  drain_if_password-Saves (err e) s = (refl, refl)
  drain_if_password-Saves (ok password) s = drain_maps-Saves password s.cluster.status.maps s

  -- What the rest of `run_finalize` returns after the write.
  abbrev pub outcome : Result (Unit {0}) → Result Bool
  outcome (ok u) = ok true
  outcome (err e) = err e

  -- The saves that are due, in the order of the status, and then the write of the cluster without the
  -- finalizer, with its outcome.
  abbrev pub FinalizerLast : Sys W → Result Bool × Sys W → Type 0
  FinalizerLast s t =
      let removed = k.remove_finalizer s.cluster finalizer_name in
      (r : Result (Unit {0})) × (t.1.log
        ≡ Action.write_cluster removed r ∷ onto (saves (read_admin_password k s).0 s.cluster) s.log)
      × (t.1.cluster ≡ removed)
      × (t.0 ≡ outcome r)

  abbrev remove_step : Exec W Bool
  remove_step =
      modify_cluster (λ c. k.remove_finalizer c finalizer_name) >> (update_cluster k >> pure true)

  -- The rest after the write, which it does not touch.
  after_update :
      (r : Result (Unit {0})) (s : Sys W)
      → ((continue r (λ _. pure true) s).0 ≡ outcome r)
        × ((continue r (λ _. pure {W = W} true) s).1 ≡ s)
  unfolding pure
  after_update (ok u) s = (refl, refl)
  after_update (err e) s = (refl, refl)

  remove_step-last :
      (s s' : Sys W) (calls : List Action)
      → s'.cluster ≡ s.cluster
      → s'.log ≡ onto calls s.log
      → let removed = k.remove_finalizer s.cluster finalizer_name in
        (r : Result (Unit {0})) × ((remove_step s').1.log
          ≡ Action.write_cluster removed r ∷ onto calls s.log)
        × ((remove_step s').1.cluster ≡ removed)
        × ((remove_step s').0 ≡ outcome r)
  unfolding ◌>>=◌
  remove_step-last s s' calls q g =
      let removed = λ (c : ArkCluster). k.remove_finalizer c finalizer_name in
      let (r, w) = k.update (removed s'.cluster) s'.world in
      let (e, t) = after_update r _ in
      (r, ap (λ (x : Sys W). x.log) t ∙ cc (q, g), ap (λ (x : Sys W). x.cluster) t ∙ cc q, e)

  after_drain :
      (s : Sys W) (calls : List Action) (r : Result (Unit {0})) (s' : Sys W)
      → r ≡ ok tt
      → s'.cluster ≡ s.cluster
      → s'.log ≡ onto calls s.log
      → let removed = k.remove_finalizer s.cluster finalizer_name in
        let t = continue r (λ _. remove_step) s' in
        (r : Result (Unit {0})) × (t.1.log ≡ Action.write_cluster removed r ∷ onto calls s.log)
        × (t.1.cluster ≡ removed)
        × (t.0 ≡ outcome r)
  after_drain s calls (ok u) s' e q g = remove_step-last s s' calls q g
  after_drain s calls (err x) s' e q g = ground (arith, e)

  pick :
      (s : Sys W) (b : Bool) (m n : Exec W Bool)
      → b ≡ true
      → FinalizerLast s (m s)
      → FinalizerLast s ((if b then m else n) s)
  pick s true m n e h = h
  pick s false m n e h = ground (arith, e)

  -- On a cluster that has the finalizer: if the admin password can be read, one save-and-exit is made for
  -- each map of the status that has an RCON address, in their order, else none; the one recorded call
  -- after that, and the last, is the write of the cluster without the finalizer. The pass fails exactly as
  -- that write does, whether or not the password could be read and the worlds could be saved.
  pub run_finalize_last :
      (s : Sys W)
      → k.contains_finalizer s.cluster finalizer_name ≡ true
      → FinalizerLast s (run_finalize k s)
  unfolding run_finalize ◌>>=◌
  run_finalize_last s h =
      let (r, s1) = read_admin_password k s in
      let password = read_admin_password-Quiet {P = λ a. ⊥} in
      let d = drain_if_password-Saves r s1 in
      let same : saves r s1.cluster ≡ saves r s.cluster = ap (saves r) (password.cluster s) in
      pick s _ _ _ h (
        after_drain s (saves r s.cluster) (drain_if_password k r s1).0 (drain_if_password k r s1).1
          d.0 ((drain_if_password-Quiet r).cluster s1 ∙ password.cluster s)
          (d.1
            ∙ ap (λ (c : List Action). onto c s1.log) same
            ∙ ap (λ (l : List Action). onto (saves r s.cluster) l) (none_new (password.grown s))))
