-- ===== src/Finalizer.antt =====
-- internal/finalizer/arkcluster.go: the graceful shutdown of a deleted cluster.
pub mod Order
use ark_asa_operator.Prelude.{
  Bool, true, false, ◌==◌, List_eq, ℕ_eq, if◌then◌else◌, List, [], ◌∷◌, Text, codes,
}
use ark_asa_operator.Prelude.Assoc.{value_at}
use ark_asa_operator.Api.{MapStatus}
use ark_asa_operator.Kube.{
  Result, ok, err, Secret, Action, Client, Exec, pure, attempt, call, recorded, modify_cluster,
  ◌>>=◌, ◌>>◌, done, cluster_now,
}
use ark_asa_operator.Reconcile.Storage.{password_selector}
use ark_asa_operator.Rcon.Session

-- `Name`
abbrev pub finalizer_name : Text
finalizer_name = codes "ark.watteel.com/graceful-shutdown"

module _ {W : Type 0} (k : Client W) where
  abbrev pub update_cluster : Exec W (Unit {0})
  update_cluster = do c ← cluster_now; recorded (Action.write_cluster c) (k.update c)

  -- `Ensure`: was the finalizer added?
  unfoldable pub ensure : Exec W Bool
  ensure = do
    c ← cluster_now
    if k.contains_finalizer c finalizer_name
        then pure false
        else (do modify_cluster (λ c. k.add_finalizer c finalizer_name); update_cluster; pure true)

  abbrev secret_entry : Text → Secret → Text
  secret_entry key sec = value_at key sec.entries

  unfoldable pub read_admin_password : Exec W Text
  read_admin_password = do
    c ← cluster_now
    let sel = password_selector c
    sec ← call (k.get_secret c.meta.namespace sel.name)
    pure (secret_entry sel.key sec)

  -- The loop over the maps; each drain may fail without consequence. Its 30 seconds are the network's.
  unfoldable pub drain_maps : Text → List MapStatus → Exec W (Unit {0})
  drain_maps password [] = done
  drain_maps password (m ∷ maps) = do
    let rest = drain_maps password maps
    if m.rcon_address == []
        then rest
        else attempt (Session.save_and_exit k m.rcon_address password) >> rest

  abbrev pub drain_if_password : Result Text → Exec W (Unit {0})
  drain_if_password (err e) = done
  drain_if_password (ok password) = do c ← cluster_now; drain_maps password c.status.maps

  -- `RunFinalize`: is the cluster finalized?
  unfoldable pub run_finalize : Exec W Bool
  run_finalize = do
    c ← cluster_now
    if k.contains_finalizer c finalizer_name
        then (do
          password ← attempt read_admin_password
          drain_if_password password
          modify_cluster (λ c. k.remove_finalizer c finalizer_name)
          update_cluster
          pure true)
        else pure true
