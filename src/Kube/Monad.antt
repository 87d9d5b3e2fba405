-- ===== src/Kube/Monad.antt =====
-- A run of the reconciler: the cluster object that it mutates in place, its `busy` flag, the world
-- behind the client, and the calls made so far, the newest first. An error keeps what was done.
use ark_asa_operator.Prelude.{Option, ℕ, Bool, Text, List, ◌∷◌}
use ark_asa_operator.Api.{ArkCluster}
use ark_asa_operator.Kube.Objects.{
  Error, Result, ok, err, Secret, ConfigMap, Service, PersistentVolumeClaim, Job, Pod, Action,
}

pub record Sys (W : Type 0) : Type 0 where
  pub cluster : ArkCluster
  pub busy : Bool
  pub world : W
  pub log : List Action

-- The external calls. Every call may change the world, and so may everybody else between two calls.
-- A create-or-update call gets the mutation that the code passes to controllerutil.CreateOrUpdate:
-- from the object that was found, or from an empty one that carries the namespace and the name. The
-- owner reference that each mutation ends with is the client's part.
pub record Client (W : Type 0) : Type 0 where
  pub now : W → ℕ × W
  pub update_status : ArkCluster → W → Result (Unit {0}) × W
  pub update : ArkCluster → W → Result (Unit {0}) × W
  pub get_secret : Text → Text → W → Result Secret × W
  pub get_config_map : Text → Text → W → Result ConfigMap × W
  pub get_service : Text → Text → W → Result Service × W
  pub get_job : Text → Text → W → Result Job × W
  pub list_pods : Text → List (Text × Text) → W → Result (List Pod) × W
  pub list_services : Text → List (Text × Text) → W → Result (List Service) × W
  pub list_pvcs : Text → List (Text × Text) → W → Result (List PersistentVolumeClaim) × W
  pub list_config_maps : Text → List (Text × Text) → W → Result (List ConfigMap) × W
  pub delete_service : Service → W → W
  pub delete_pvc : PersistentVolumeClaim → W → W
  pub delete_config_map : ConfigMap → W → W
  pub get_cluster : Text → Text → W → Result ArkCluster × W
  -- controllerutil's functions on the finalizers of an object
  pub contains_finalizer : ArkCluster → Text → Bool
  pub add_finalizer : ArkCluster → Text → ArkCluster
  pub remove_finalizer : ArkCluster → Text → ArkCluster
  pub create_pod : Pod → W → Result (Unit {0}) × W
  -- with a grace period in seconds, or the pod's own
  pub delete_pod : Pod → Option ℕ → W → W
  pub create_job : Job → W → Result (Unit {0}) × W
  pub apply_secret : Text → Text → (Secret → W → Result Secret × W) → W → Result (Unit {0}) × W
  pub apply_config_map : Text → Text → (ConfigMap → ConfigMap) → W → Result (Unit {0}) × W
  pub apply_service : Text → Text → (Service → Service) → W → Result (Unit {0}) × W
  pub apply_pvc :
      Text → Text → (PersistentVolumeClaim → PersistentVolumeClaim) → W → Result (Unit {0}) × W
  -- a merge patch from the first object to the second
  pub patch : ArkCluster → ArkCluster → W → Result (Unit {0}) × W
  -- the text of an error that is not one of the program's own
  pub error_text : Error → Text
  -- 18 bytes of crypto/rand, in base64
  pub rand_password : W → Result Text × W
  -- resource.ParseQuantity accepts the text
  pub is_quantity : Text → Bool
  -- crypto/sha256
  pub sha256 : Text → List ℕ
  -- the network: connect, write, read so many bytes or fail, close
  pub dial : Text → W → Result ℕ × W
  pub send : ℕ → List ℕ → W → Result (Unit {0}) × W
  pub receive : ℕ → ℕ → W → Result (List ℕ) × W
  pub close : ℕ → W → W

abbrev pub Exec : Type 0 → Type 0 → Type 0
Exec W A = Sys W → Result A × Sys W

module _ {W : Type 0} where
  unfoldable pub pure : {A : Type 0} → A → Exec W A
  pure a s = (ok a, s)

  unfoldable pub raise : {A : Type 0} → Error → Exec W A
  raise e s = (err e, s)

  unfoldable pub lift : {A : Type 0} → Result A → Exec W A
  lift r s = (r, s)

  unfoldable pub gets : {A : Type 0} → (Sys W → A) → Exec W A
  gets f s = (ok (f s), s)

  -- The error as a value: for `if err := …; err != nil` and for errors that the code drops.
  unfoldable pub attempt : {A : Type 0} → Exec W A → Exec W (Result A)
  attempt m s = let (r, s') = m s in (ok r, s')

  -- A call of the client.
  unfoldable pub call : {A : Type 0} → (W → Result A × W) → Exec W A
  call f s = let (r, w) = f s.world in (r, record s { world = w })

  -- A call with no error.
  unfoldable pub call_ok : {A : Type 0} → (W → A × W) → Exec W A
  call_ok f s = let (a, w) = f s.world in (ok a, record s { world = w })

  unfoldable pub tell : Action → Exec W (Unit {0})
  tell a s = (ok tt, record s { log = a ∷ s.log })

  -- A call that is recorded with its outcome.
  unfoldable pub recorded :
      (Result (Unit {0}) → Action) → (W → Result (Unit {0}) × W) → Exec W (Unit {0})
  recorded act f s = let (r, w) = f s.world in (r, record s { world = w; log = act r ∷ s.log })

  unfoldable pub modify_cluster : (ArkCluster → ArkCluster) → Exec W (Unit {0})
  modify_cluster f s = (ok tt, record s { cluster = f s.cluster })

  unfoldable pub set_busy : Exec W (Unit {0})
  set_busy s = (ok tt, record s { busy = Bool.true })

  -- The rest of a run, after a result.
  abbrev pub continue : {A B : Type 0} → Result A → (A → Exec W B) → Exec W B
  continue (ok a) f s = f a s
  continue (err e) f s = (err e, s)

  infixl 5 ◌>>=◌ ◌>>◌
  -- Opening this opens all of the above.
  unfoldable pub ◌>>=◌ : {A B : Type 0} → Exec W A → (A → Exec W B) → Exec W B
  unfolding pure raise lift gets attempt call call_ok tell recorded modify_cluster set_busy
  ◌>>=◌ m f s = let (r, s') = m s in continue r f s'

  abbrev pub ◌>>◌ : {A B : Type 0} → Exec W A → Exec W B → Exec W B
  m >> n = m >>= λ _. n

  abbrev pub done : Exec W (Unit {0})
  done = pure tt

  abbrev pub cluster_now : Exec W ArkCluster
  cluster_now = gets (λ s. s.cluster)

  -- Create, where an existing object counts as created by somebody else.
  unfoldable pub created_or_exists : Result (Unit {0}) → Exec W Bool
  unfolding pure raise
  created_or_exists (ok _) = pure Bool.true
  created_or_exists (err Error.already_exists) = pure Bool.false
  created_or_exists (err e) = raise e

  -- An object that somebody else created in the meantime is no error.
  unfoldable pub ignore_exists : Result (Unit {0}) → Exec W (Unit {0})
  unfolding pure raise
  ignore_exists (ok _) = done
  ignore_exists (err Error.already_exists) = done
  ignore_exists (err e) = raise e

  -- A write that meets a conflict is no error.
  unfoldable pub ignore_conflict : Result (Unit {0}) → Exec W (Unit {0})
  unfolding pure raise
  ignore_conflict (ok _) = done
  ignore_conflict (err Error.conflict) = done
  ignore_conflict (err e) = raise e
