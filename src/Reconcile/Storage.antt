-- ===== src/Reconcile/Storage.antt =====
-- internal/reconcile/pvc.go and secret.go: the claims and the admin password of a cluster.
use ark_asa_operator.Prelude.{
  Option, if◌then◌else◌, [], ◌∷◌, none, some, Text, codes, ◌==◌, List_eq, ℕ_eq,
}
use ark_asa_operator.Prelude.Assoc.{lookup, insert}
use ark_asa_operator.Api.{ArkCluster, SecretKeySelector}
use ark_asa_operator.Kube.{
  Result, ok, err, Error, Secret, PersistentVolumeClaim, Client, Exec, raise, attempt, call, ◌>>=◌,
  cluster_now, ignore_exists,
}
use ark_asa_operator.Reconcile.Names.{
  pvc_name_saves, pvc_name_server, pvc_name_cluster, secrets_name,
}

abbrev pub cluster_label : Text
cluster_label = codes "ark.watteel.com/cluster"

-- The mutation that `ensurePVC` passes on: the spec is set on creation only.
unfoldable pub set_pvc : Text → Text → Text → Text → PersistentVolumeClaim → PersistentVolumeClaim
set_pvc owner size storage_class mode pvc =
    let labelled = record pvc { labels = insert cluster_label owner pvc.labels } in
    if pvc.created then labelled else record labelled {
      access_modes = mode ∷ [];
      storage_request = size;
      storage_class_name =
          if storage_class == [] then pvc.storage_class_name else some storage_class;
    }

-- A secret with the label of its cluster and its type, `corev1.SecretTypeOpaque`.
abbrev labelled_secret : Text → Secret → Secret
labelled_secret owner sec = record sec {
  labels = insert cluster_label owner sec.labels;
  type = codes "Opaque";
}

-- `readAdminPassword` of the controller and of the finalizer: the secret and the key to read.
abbrev selector_or : Text → Option SecretKeySelector → SecretKeySelector
selector_or name (some sel) = sel
selector_or name none = record { name = name; key = codes "adminPassword" }

unfoldable pub password_selector : ArkCluster → SecretKeySelector
password_selector c = selector_or (secrets_name c.meta.name) c.spec.global_settings.admin_password

module _ {W : Type 0} (k : Client W) where
  unfoldable pub ensure_pvc : Text → Text → Text → Text → Exec W (Unit {0})
  ensure_pvc name size storage_class mode =
      if k.is_quantity size
      then (do
        cluster ← cluster_now
        r ← attempt (
            call (
              k.apply_pvc cluster.meta.namespace name
                (set_pvc cluster.meta.name size storage_class mode)))
        ignore_exists r)
      else raise (Error.other (codes "ensurePVC: invalid size"))

  unfoldable pub ensure_saves_pvc : Text → Exec W (Unit {0})
  ensure_saves_pvc map_id = do
    c ← cluster_now
    ensure_pvc (pvc_name_saves c.meta.name map_id) c.spec.storage.saves_pvc_size
        c.spec.storage.storage_class (codes "ReadWriteOnce")

  unfoldable pub ensure_cluster_pvc : Exec W (Unit {0})
  ensure_cluster_pvc = do
    c ← cluster_now
    let sc = c.spec.storage.cluster_storage_class
    ensure_pvc (pvc_name_cluster c.meta.name) c.spec.storage.cluster_pvc_size
        (if sc == [] then codes "nfs-csi" else sc) (codes "ReadWriteMany")

  unfoldable pub ensure_server_pvc : Text → Text → Exec W (Unit {0})
  ensure_server_pvc map_id side = do
    c ← cluster_now
    ensure_pvc (pvc_name_server c.meta.name map_id side) c.spec.storage.server_pvc_size
        c.spec.storage.storage_class (codes "ReadWriteOnce")

  -- The mutation of the secret: a password is drawn only where the key is absent.
  unfoldable pub set_secret : Text → Secret → W → Result Secret × W
  set_secret owner sec w = elim (lookup (codes "adminPassword") sec.entries) [
    | some old ↦ (ok (labelled_secret owner sec), w)
    | none ↦
        let (drawn, w') = k.rand_password w in
        elim drawn [
          | err e ↦ (err e, w')
          | ok new ↦ (
            ok (
                labelled_secret owner
                  (record sec { entries = insert (codes "adminPassword") new sec.entries })),
            w',
          )
        ]
  ]

  unfoldable pub ensure_admin_password_secret : Exec W (Unit {0})
  ensure_admin_password_secret = do
    c ← cluster_now
    r ←
        attempt (
          call
            (k.apply_secret c.meta.namespace (secrets_name c.meta.name) (set_secret c.meta.name)))
    ignore_exists r
