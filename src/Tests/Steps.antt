-- ===== src/Tests/Steps.antt =====
-- Runs of the reconciler for the one map at time 100.
use ark_asa_operator.Prelude.{list_beq, ◌≡◌, refl, [], ◌∷◌, some, none, codes, arith, false}
use ark_asa_operator.Kube.{onto, ok, ◌>>=◌}
use ark_asa_operator.Kube.Quiet.{Grown}
use ark_asa_operator.Reconcile.Names.{other_side}
use ark_asa_operator.Reconcile.Job.{init_job_status, status_of_job}
use ark_asa_operator.Controller.Base.{write_at}
use ark_asa_operator.Controller.Base.Persist.{PersistedFirst}
use ark_asa_operator.Controller.Base.Quiet.{SparesPods}
use ark_asa_operator.Controller.FirstStart.{first_start}
use ark_asa_operator.Controller.FirstStart.Safety.{first_start-spares}
use ark_asa_operator.Controller.Gc.{gc_orphaned_maps}
use ark_asa_operator.Controller.Gc.Safety.{DeletesOrphan, gc_orphaned_maps-DeletesOrphan}
use ark_asa_operator.Controller.Gc.Exact.{collection, gc_orphaned_maps-collection}
use ark_asa_operator.Controller.Roll.{finish_swap, roll_update, swapped}
use ark_asa_operator.Controller.Roll.{start_drain}
use ark_asa_operator.Controller.Roll.Drain.{DrainStarted, draining, start_drain_cases}
use ark_asa_operator.Finalizer
use ark_asa_operator.Finalizer.Order.{FinalizerLast, run_finalize_last}
use ark_asa_operator.Controller.Roll.Safety.{Safe, finish_swap-PersistedFirst, roll_update-Safe}
use ark_asa_operator.Controller.Steady.{named, rollback, steady}
use ark_asa_operator.Controller.Steady.Safety.{
  rolled_back, SafeSteady, rollback-PersistedFirst, steady-SafeSteady,
}
use ark_asa_operator.Tests.Toy.{island, cluster_of, crashed_pod, client, fresh_client, at_100}

roll_update-Safe_example :
    Safe client
      (codes "server-b")
      0
      (cluster_of (some 99))
      []
      (roll_update client island 0 0 crashed_pod (at_100 (some 99))).1.log
unfolding other_side list_beq
roll_update-Safe_example = roll_update-Safe client island 0 0 crashed_pod (at_100 (some 99))

finish_swap-PersistedFirst_example :
    PersistedFirst
      (write_at 0 (swapped (codes "server-b")) (cluster_of (some 99)))
      []
      (finish_swap client island 0 0 (codes "server-b") crashed_pod (at_100 (some 99))).1.log
finish_swap-PersistedFirst_example =
    finish_swap-PersistedFirst client island 0 0 (codes "server-b") crashed_pod (at_100 (some 99))

steady-SafeSteady_example :
    SafeSteady client 100 island 0 crashed_pod
      (write_at 0 (named (cluster_of none) island crashed_pod) (cluster_of none))
      []
      (steady client island 0 crashed_pod (at_100 none)).1.log
steady-SafeSteady_example = steady-SafeSteady client island 0 crashed_pod (at_100 none)

rollback-PersistedFirst_example :
    PersistedFirst
      (rolled_back 100 island 0 (cluster_of none))
      []
      (rollback client island 0 crashed_pod (at_100 none)).1.log
rollback-PersistedFirst_example = rollback-PersistedFirst client island 0 crashed_pod (at_100 none)

first_start-spares_example :
    Grown SparesPods [] (first_start fresh_client island 0 0 (codes "ab") (at_100 none)).1.log
unfolding init_job_status status_of_job ◌>>=◌
first_start-spares_example =
    first_start-spares fresh_client island 0 0 (codes "ab") (at_100 none) λ e. ground (arith, e)

gc_orphaned_maps-DeletesOrphan_example :
    (Grown
      (DeletesOrphan false (codes "ark") (codes "island" ∷ []))
      []
      (gc_orphaned_maps client (codes "island" ∷ []) (at_100 none)).1.log)
    × ((gc_orphaned_maps client (codes "island" ∷ []) (at_100 none)).1.cluster ≡ cluster_of none)
gc_orphaned_maps-DeletesOrphan_example =
    gc_orphaned_maps-DeletesOrphan client (codes "island" ∷ []) (at_100 none)

gc_orphaned_maps-collection_example :
    ((gc_orphaned_maps client [] (at_100 none)).0 ≡ ok tt)
    × ((gc_orphaned_maps client [] (at_100 none)).1.log
        ≡ onto ((collection client (cluster_of none) []).calls (at_100 none).world) [])
    × ((gc_orphaned_maps client [] (at_100 none)).1.world
        ≡ (collection client (cluster_of none) []).after (at_100 none).world)
gc_orphaned_maps-collection_example = gc_orphaned_maps-collection client [] (at_100 none)

start_drain_cases_example :
    DrainStarted client 0
      (write_at 0 (draining 160) (cluster_of none))
      (ok tt)
      (start_drain client 0 (at_100 none))
start_drain_cases_example = start_drain_cases client 0 (at_100 none)

run_finalize_last_example :
    FinalizerLast client (at_100 none) (Finalizer.run_finalize client (at_100 none))
run_finalize_last_example = run_finalize_last client (at_100 none) refl
