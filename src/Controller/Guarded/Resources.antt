-- ===== src/Controller/Guarded/Resources.antt =====
-- The creation of a map's resources leaves the cluster object as it is, and is not recorded.
use ark_asa_operator.Prelude.{Option, none, some, Text, ℕ}
use ark_asa_operator.Api.{MapSpec}
use ark_asa_operator.Kube.{Action, Client, Exec}
use ark_asa_operator.Kube.Quiet.{Quiet, Quiet-bind, Quiet-gets, Quiet-pure, quiet_rules}
use ark_asa_operator.Reconcile.Storage.{
  ensure_pvc, ensure_saves_pvc, ensure_server_pvc, ensure_cluster_pvc, ensure_admin_password_secret,
}
use ark_asa_operator.Reconcile.Service.{ensure_service}
use ark_asa_operator.Reconcile.Ini.{
  IniFile, ini_ref, resolve_ini, write_ini_config_map, ensure_map_ini_config_maps,
}
use ark_asa_operator.Controller.MapStep.{ensure_map_resources, list_map_pods}

-- A run that tests for an optional value.
Quiet-elim :
    {W A B : Type 0} {P : Action → Type 0} (o : Option A) (m : Exec W B) (f : A → Exec W B)
    → Quiet P m
    → ((a : A) → Quiet P (f a))
    → Quiet P (elim o as (λ _. Exec W B) [ none ↦ m | some a ↦ f a ])
Quiet-elim none m f qm qf = qm
Quiet-elim (some a) m f qm qf = qf a

module _ {W : Type 0} (k : Client W) where
  ensure_pvc-Quiet : {P : Action → Type 0} (n s c m : Text) → Quiet P (ensure_pvc k n s c m)
  unfolding ensure_pvc
  ensure_pvc-Quiet n s c m = search quiet_rules depth 12

  ensure_saves_pvc-Quiet : {P : Action → Type 0} (id : Text) → Quiet P (ensure_saves_pvc k id)
  unfolding ensure_saves_pvc
  ensure_saves_pvc-Quiet id = search (quiet_rules, ensure_pvc-Quiet)

  ensure_server_pvc-Quiet :
      {P : Action → Type 0} (id side : Text) → Quiet P (ensure_server_pvc k id side)
  unfolding ensure_server_pvc
  ensure_server_pvc-Quiet id side = search (quiet_rules, ensure_pvc-Quiet)

  pub ensure_cluster_pvc-Quiet : {P : Action → Type 0} → Quiet P (ensure_cluster_pvc k)
  unfolding ensure_cluster_pvc
  ensure_cluster_pvc-Quiet = search (quiet_rules, ensure_pvc-Quiet)

  pub ensure_secret-Quiet : {P : Action → Type 0} → Quiet P (ensure_admin_password_secret k)
  unfolding ensure_admin_password_secret
  ensure_secret-Quiet = search quiet_rules

  ensure_service-Quiet : {P : Action → Type 0} (id : Text) (i : ℕ) → Quiet P (ensure_service k id i)
  unfolding ensure_service
  ensure_service-Quiet id i = search quiet_rules

  resolve_ini-Quiet :
      {P : Action → Type 0} (m : Option MapSpec) (f : IniFile) → Quiet P (resolve_ini k m f)
  unfolding resolve_ini
  resolve_ini-Quiet m f = Quiet-bind _ _ (Quiet-gets _) λ c.
      Quiet-elim (ini_ref f m c.spec.global_settings) _ _ (Quiet-pure _) λ r. search quiet_rules

  write_ini-Quiet : {P : Action → Type 0} (n x c : Text) → Quiet P (write_ini_config_map k n x c)
  unfolding write_ini_config_map
  write_ini-Quiet n x c = search quiet_rules

  ensure_ini-Quiet : {P : Action → Type 0} (id : Text) → Quiet P (ensure_map_ini_config_maps k id)
  unfolding ensure_map_ini_config_maps
  ensure_ini-Quiet id = search (quiet_rules, resolve_ini-Quiet, write_ini-Quiet) depth 12

  pub ensure_map_resources-Quiet :
      {P : Action → Type 0} (m : MapSpec) (i : ℕ) → Quiet P (ensure_map_resources k m i)
  unfolding ensure_map_resources
  ensure_map_resources-Quiet m i =
      search
        (
          quiet_rules, ensure_saves_pvc-Quiet, ensure_server_pvc-Quiet, ensure_ini-Quiet,
          ensure_service-Quiet,
        )
        depth 12

  pub list_map_pods-Quiet : {P : Action → Type 0} (id : Text) → Quiet P (list_map_pods k id)
  unfolding list_map_pods
  list_map_pods-Quiet id = search quiet_rules
