-- ===== src/Operator/Startup/Order.antt =====
-- The order of the steps of `main`, and its end at the first failure.
use ark_asa_operator.Prelude.{
  ◌≡◌, refl, sym, ap, ◌∙◌, ◌==◌, List_eq, ℕ_eq, Bool, true, false, if◌then◌else◌, List, [], ◌∷◌,
  ◌++◌, Text, codes,
}
use mathlib.Core.List.{append_assoc, append-nil}
use ark_asa_operator.Kube.{Result, ok, err}
use ark_asa_operator.Operator.Options.{Flags, Kind, manager_options, ark_kind}
use ark_asa_operator.Operator.Startup.{
  Controller, cluster_controller, mod_update_controller, Runtime, Step, Process, Outcome, Main,
  must, done, go_on, end_step, ◌>>=◌, recorder_name, curse_forge_base_url, webhooks_disabled,
  setup_webhook, setup_controller, main,
}

-- The steps that were taken, against a plan: all of it with success, or a first part of it of which the
-- last step failed and no other.
pub data Follows : List Step → List (Step × Bool) → Bool → Type 0 where
  finished : Follows [] [] true
  passed :
      {s : Step} {plan : List Step} {steps : List (Step × Bool)} {b : Bool}
      → Follows plan steps b
      → Follows (s ∷ plan) ((s, true) ∷ steps) b
  failed : {s : Step} {plan : List Step} → Follows (s ∷ plan) ((s, false) ∷ []) false

Follows-append :
    {p q : List Step} {l l' : List (Step × Bool)} {b : Bool}
    → Follows p l true
    → Follows q l' b
    → Follows (p ++ q) (l ++ l') b
Follows-append finished g = g
Follows-append (passed f) g = passed (Follows-append f g)

Follows-stop :
    {p : List Step} (q : List Step) {l : List (Step × Bool)}
    → Follows p l false
    → Follows (p ++ q) l false
Follows-stop q (passed f) = passed (Follows-stop q f)
Follows-stop q failed = failed

abbrev pub is_running : {A : Type 0} → Outcome A → Bool
is_running (Outcome.running a) = true
is_running (Outcome.exited n) = false

-- The process goes on, or has exited with code 1.
abbrev pub RunsOr1 : {A : Type 0} → Outcome A → Type 0
RunsOr1 (Outcome.running a) = Unit
RunsOr1 (Outcome.exited n) = n ≡ 1

-- The end of a run that starts with the steps `old` and takes those of a plan.
abbrev pub Taken : {W A : Type 0} → List Step → List (Step × Bool) → Outcome A × Process W → Type 0
Taken plan old (o, p) =
    (new : List (Step × Bool)) × (p.steps ≡ old ++ new)
    × Follows plan new (is_running o)
    × RunsOr1 o

-- A run takes the steps of a plan.
pub record Takes {W A : Type 0} (plan : List Step) (m : Main W A) : Type 0 where
  pub taken : (p : Process W) → Taken plan p.steps (m p)

module _ {W : Type 0} where
  Taken-end_step :
      {A : Type 0} (s : Step) (r : Result A × W) (p : Process W)
      → Taken (s ∷ []) p.steps (end_step s r p)
  Taken-end_step s (ok a, w) p = ((s, true) ∷ [], refl, passed finished, tt)
  Taken-end_step s (err e, w) p = ((s, false) ∷ [], refl, failed, refl)

  Takes-must : {A : Type 0} (s : Step) (f : W → Result A × W) → Takes (s ∷ []) (must s f)
  unfolding must
  Takes-must s f = record { taken = λ p. Taken-end_step s (f p.world) p }

  Takes-done : Takes {W = W} [] done
  unfolding done
  Takes-done = record { taken = λ p. ([], sym (append-nil p.steps), finished, tt) }

module _ {W A B : Type 0} where
  Taken-go_on :
      (plan rest : List Step) (o : Outcome A) (f : A → Main W B) (old : List (Step × Bool))
      (p : Process W)
      → Taken plan old (o, p)
      → ((a : A) → Takes rest (f a))
      → Taken (plan ++ rest) old (go_on o f p)
  Taken-go_on plan rest (Outcome.running a) f old p (new, e, g, u) q =
      let (new', e', g', u') = (q a).taken p in
      (
        new ++ new',
        e' ∙ ap (λ (l : List (Step × Bool)). l ++ new') e ∙ append_assoc old new new',
        Follows-append g g',
        u',
      )
  Taken-go_on plan rest (Outcome.exited n) f old p (new, e, g, u) q =
      (new, e, Follows-stop rest g, u)

  Takes-bind :
      (plan rest : List Step) (m : Main W A) (f : A → Main W B)
      → Takes plan m
      → ((a : A) → Takes rest (f a))
      → Takes (plan ++ rest) (m >>= f)
  unfolding ◌>>=◌
  Takes-bind plan rest m f qm qf = record {
    taken = λ p. Taken-go_on plan rest (m p).0 f p.steps (m p).1 (qm.taken p) qf;
  }

module _ {W A : Type 0} where
  Takes-if :
      (b : Bool) (plan plan' : List Step) (m n : Main W A)
      → Takes plan m
      → Takes plan' n
      → Takes (if b then plan else plan') (if b then m else n)
  Takes-if true plan plan' m n qm qn = qm
  Takes-if false plan plan' m n qm qn = qn

-- What `main` means to do, in its order.
abbrev pub startup_plan : List Kind → (Text → Text) → Flags → List Step
startup_plan client_go_kinds env flags =
    Step.get_config
    ∷ Step.new_manager (manager_options client_go_kinds flags)
    ∷ Step.build_controller (cluster_controller recorder_name)
    ∷ Step.build_controller (mod_update_controller (env curse_forge_base_url))
    ∷ ((if env (codes "ENABLE_WEBHOOKS") == codes "false"
          then []
          else Step.build_webhook (ark_kind (codes "ArkCluster")) ∷ [])
        ++ (Step.add_healthz_check (codes "healthz")
            ∷ Step.add_readyz_check (codes "readyz")
            ∷ Step.start
            ∷ []))

module _ {W C M : Type 0} (rt : Runtime W C M) (env : Text → Text) where
  Takes-controller :
      (mgr : M) (c : Controller)
      → Takes (Step.build_controller c ∷ []) (setup_controller rt env mgr c)
  unfolding setup_controller
  Takes-controller mgr c = Takes-must _ _

  Takes-webhook :
      (mgr : M)
      → Takes
          (if webhooks_disabled env
            then []
            else Step.build_webhook (ark_kind (codes "ArkCluster")) ∷ [])
          (if webhooks_disabled env then done else setup_webhook rt env mgr)
  unfolding setup_webhook
  Takes-webhook mgr = Takes-if (webhooks_disabled env) _ _ _ _ Takes-done (Takes-must _ _)

  Takes-main :
      (flags : Flags) → Takes (startup_plan rt.client_go_kinds env flags) (main rt env flags)
  unfolding main webhooks_disabled
  Takes-main flags = Takes-bind (_ ∷ []) _ _ _ (Takes-must _ _) λ config.
      Takes-bind (_ ∷ []) _ _ _ (Takes-must _ _) λ mgr.
        Takes-bind (_ ∷ []) _ _ _ (Takes-controller mgr _) λ _.
          Takes-bind (_ ∷ []) _ _ _ (Takes-controller mgr _) λ _.
            Takes-bind _ _ _ _ (Takes-webhook mgr) λ _.
              Takes-bind (_ ∷ []) _ _ _ (Takes-must _ _)
                λ _. Takes-bind (_ ∷ []) _ _ _ (Takes-must _ _) λ _. Takes-must _ _

  -- The process takes the steps of its plan in order: the configuration, the manager with the options of
  -- the flags, the two controllers, the webhook unless ENABLE_WEBHOOKS is "false", the two checks, the
  -- start. The first step that fails is the last one taken, and the process exits with code 1; if none
  -- fails, all are taken and `main` returns.
  pub main-Follows :
      (flags : Flags) (w : W)
      → let (o, p) = main rt env flags (record { world = w; steps = [] }) in
        Follows (startup_plan rt.client_go_kinds env flags) p.steps (is_running o) × RunsOr1 o
  main-Follows flags w =
      let (new, e, follows, code) = (Takes-main flags).taken (record { world = w; steps = [] }) in
      (rw e follows, code)
