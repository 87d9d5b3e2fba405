-- ===== src/Operator/Startup.antt =====
-- cmd/operator/main.go, `main` after the options are made: each step that fails ends the process.
pub mod Order
use ark_asa_operator.Prelude.{
  ℕ, Bool, true, false, ◌==◌, List_eq, ℕ_eq, if◌then◌else◌, List, [], ◌∷◌, ◌++◌, Option, none, some,
  Text, codes,
}
use ark_asa_operator.Kube.{Result, ok, err}
use ark_asa_operator.Operator.Options.{Flags, Kind, ManagerOptions, manager_options, ark_kind}

-- The two reconcilers, by what `main` gives them besides the manager's client and scheme.
pub data Reconciler : Type 0 where
  ark_cluster_reconciler : (recorder : Text) → Reconciler
  mod_update_reconciler : (curse_forge_base_url : Text) → Reconciler

-- What ctrl.NewControllerManagedBy builds: the kind that is reconciled, the kinds of its objects that
-- wake it, and the name if one is given.
pub record Controller : Type 0 where
  pub reconciler : Reconciler
  pub for_kind : Kind
  pub owns : List Text
  pub name : Option Text

-- `SetupWithManager` of ArkClusterReconciler
unfoldable pub cluster_controller : Text → Controller
cluster_controller recorder = record {
  reconciler = Reconciler.ark_cluster_reconciler recorder;
  for_kind = ark_kind (codes "ArkCluster");
  owns =
      codes "Pod"
      ∷ codes "Service"
      ∷ codes "PersistentVolumeClaim"
      ∷ codes "ConfigMap"
      ∷ codes "Secret"
      ∷ [];
  name = none;
}

-- `SetupWithManager` of ModUpdateReconciler
unfoldable pub mod_update_controller : Text → Controller
mod_update_controller base = record {
  reconciler = Reconciler.mod_update_reconciler base;
  for_kind = ark_kind (codes "ArkCluster");
  owns = [];
  name = some (codes "modupdate");
}

-- The calls of controller-runtime; `C` and `M` are its configuration and its manager.
pub record Runtime (W C M : Type 0) : Type 0 where
  -- the kinds that client-go's AddToScheme adds
  pub client_go_kinds : List Kind
  -- GetConfigOrDie, where an error ends the process with code 1
  pub get_config : W → Result C × W
  pub new_manager : C → ManagerOptions → W → Result M × W
  -- Complete of the builders of a controller and of a webhook with its validator
  pub complete : M → Controller → W → Result (Unit {0}) × W
  pub complete_webhook : M → Kind → W → Result (Unit {0}) × W
  pub add_healthz_check : M → Text → W → Result (Unit {0}) × W
  pub add_readyz_check : M → Text → W → Result (Unit {0}) × W
  -- returns when the process is told to stop, or cannot run
  pub start : M → W → Result (Unit {0}) × W

pub data Step : Type 0 where
  get_config : Step
  new_manager : ManagerOptions → Step
  build_controller : Controller → Step
  build_webhook : Kind → Step
  add_healthz_check add_readyz_check : Text → Step
  start : Step

-- The process: the world, and the steps so far, the first one first, with their success.
pub record Process (W : Type 0) : Type 0 where
  pub world : W
  pub steps : List (Step × Bool)

-- Goes on with a value, or has ended with an exit code.
pub data Outcome (A : Type 0) : Type 0 where
  running : A → Outcome A
  exited : ℕ → Outcome A

abbrev pub Main : Type 0 → Type 0 → Type 0
Main W A = Process W → Outcome A × Process W

abbrev pub took : {W : Type 0} → Step → Bool → W → Process W → Process W
took s b w p = record { world = w; steps = p.steps ++ ((s, b) ∷ []) }

module _ {W : Type 0} where
  abbrev pub end_step : {A : Type 0} → Step → Result A × W → Process W → Outcome A × Process W
  end_step s (ok a, w) p = (Outcome.running a, took s true w p)
  end_step s (err e, w) p = (Outcome.exited 1, took s false w p)

  -- `if err := …; err != nil { os.Exit(1) }`
  unfoldable pub must : {A : Type 0} → Step → (W → Result A × W) → Main W A
  must s f p = end_step s (f p.world) p

  unfoldable pub done : Main W (Unit {0})
  done p = (Outcome.running tt, p)

  abbrev pub go_on : {A B : Type 0} → Outcome A → (A → Main W B) → Main W B
  go_on (Outcome.running a) f p = f a p
  go_on (Outcome.exited n) f p = (Outcome.exited n, p)

  infixl 5 ◌>>=◌ ◌>>◌
  -- Opening this opens all of the above.
  unfoldable pub ◌>>=◌ : {A B : Type 0} → Main W A → (A → Main W B) → Main W B
  unfolding must done
  ◌>>=◌ m f p = let (o, p') = m p in go_on o f p'

  abbrev pub ◌>>◌ : {A B : Type 0} → Main W A → Main W B → Main W B
  m >> n = m >>= λ _. n

abbrev pub recorder_name : Text
recorder_name = codes "arkcluster-controller"

abbrev pub curse_forge_base_url : Text
curse_forge_base_url = codes "CURSEFORGE_BASE_URL"

-- The test on the variable ENABLE_WEBHOOKS.
unfoldable pub webhooks_disabled : (Text → Text) → Bool
webhooks_disabled env = env (codes "ENABLE_WEBHOOKS") == codes "false"

module _ {W C M : Type 0} (rt : Runtime W C M) (env : Text → Text) where
  -- `SetupArkClusterWebhookWithManager`
  unfoldable pub setup_webhook : M → Main W (Unit {0})
  setup_webhook mgr =
      must (Step.build_webhook (ark_kind (codes "ArkCluster")))
        (rt.complete_webhook mgr (ark_kind (codes "ArkCluster")))

  unfoldable pub setup_controller : M → Controller → Main W (Unit {0})
  setup_controller mgr c = must (Step.build_controller c) (rt.complete mgr c)

  -- `main`; `env` is os.Getenv.
  unfoldable pub main : Flags → Main W (Unit {0})
  main flags = do
    let options = manager_options rt.client_go_kinds flags
    config ← must Step.get_config rt.get_config
    mgr ← must (Step.new_manager options) (rt.new_manager config options)
    setup_controller mgr (cluster_controller recorder_name)
    setup_controller mgr (mod_update_controller (env curse_forge_base_url))
    if webhooks_disabled env then done else setup_webhook mgr
    must (Step.add_healthz_check (codes "healthz")) (rt.add_healthz_check mgr (codes "healthz"))
    must (Step.add_readyz_check (codes "readyz")) (rt.add_readyz_check mgr (codes "readyz"))
    must Step.start (rt.start mgr)
