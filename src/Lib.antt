-- ===== src/Lib.antt =====
-- A model of ark-asa-operator, a Kubernetes operator that runs ARK game servers: a cluster of maps,
-- each with a pod, two server volumes for blue/green updates, a service and config maps.
--
-- Parts and files:
--   Prelude           lists, texts (lists of bytes), int32 arithmetic, sorting, Go's string functions
--   Api               api/v1alpha1/arkcluster_types.go: spec and status of a cluster
--   StateMachine      internal/statemachine: the table of phases and Transition; no other part calls it
--   Ark               internal/ark: slugs, ports, hashes and the launch command
--   Kube              the Kubernetes API as a parameter: `Client`, a record of the external calls (the
--                     API server, the clock, the network, SHA-256, random bytes, ParseQuantity and
--                     controllerutil), and `Exec`, runs that carry the cluster object, the busy flag,
--                     the world behind the client and the log of the calls, the newest first
--   Rcon              internal/rcon: client.go in Wire and Session, drain.go in Session
--   Rcon/FakeServer   test/fake-ark-server/main.go: the game server of the end-to-end tests
--   Reconcile         internal/reconcile: the resources of a cluster and the status helpers
--   Finalizer         internal/finalizer
--   Controller        internal/controller/arkcluster_controller.go: Reconcile has the pass over a
--                     cluster, MapStep that over a map, which ends in FirstStart (no pod), Steady (the
--                     pod is up to date) or Roll (it is not); Gc has the garbage collection. Guarded,
--                     WellFormed and Settled follow whole passes: what they delete, what they write and
--                     when they ask for the slow requeue
--   CurseForge        internal/curseforge: the client, and the fake's handler with what the client gets from
--                     it. HTTP and JSON are a parameter, `ModApi`
--   ModUpdate         internal/controller/modupdate_controller.go: Pass has Reconcile, Merge mergeModStatus,
--                     Ids collectModIDs and affectedMaps. It meets the cluster reconciler in the
--                     annotation that Controller/Template reads
--   Webhook           internal/webhook/v1alpha1/arkcluster_webhook.go: validation of clusters
--   History           the versions of one cluster object that the two reconcilers, its users and repairs
--                     of its status by hand leave on the API server; other edits of the status by hand
--                     are left out
--   Operator          cmd/operator/main.go: Options has the flags and what is made of them, Startup the
--                     steps of main; with the two SetupWithManager, the webhook's set-up and the scheme
--                     of api/v1alpha1. controller-runtime is a parameter, `Runtime`
--   Tests             the theorems at concrete inputs
--
-- Conventions. A Go function `doThis` is `do_this`. A function that changes the cluster object in place
-- is a run in `Exec`; an error ends a run and keeps what was done. `mapStatus`, a pointer into the
-- status, is the position of the entry. A wrapped error is the error. Times and durations are numbers
-- of nanoseconds; int32 arithmetic wraps around. Texts are bytes, and the texts that the code lowers or
-- trims are taken to be ASCII, as map IDs are. A status write's answer is taken to be what was sent. A
-- Go map is a list with the loops' order, and no key twice where a theorem says so.
--
-- Bounds and fuel. A number is printed in at most its value plus one rounds, which is enough as every
-- round divides by ten. The fake server's loop runs for one round more than it has bytes to read, which
-- is enough as every round takes four at least. All other recursion is structural.
--
-- Not modelled: the events, the logs, the contexts and their deadlines; owner references, which are the
-- client's part; the parsing of the flags, and the panic of a scheme that cannot be built; the listener
-- of the fake game server; generated code (the deep copies: values of the model are never aliased); the
-- utilities of the end-to-end tests, which run kubectl and kind. Values of types of the Kubernetes API
-- that the operator copies unread (resources, tolerations) are kept as texts.
pub mod Prelude
pub mod Api
pub mod StateMachine
pub mod Ark
pub mod Kube
pub mod Rcon
pub mod Reconcile
pub mod Finalizer
pub mod History
pub mod Operator
pub mod Controller
pub mod Webhook
pub mod Tests
pub mod CurseForge
pub mod ModUpdate
