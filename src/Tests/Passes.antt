-- ===== src/Tests/Passes.antt =====
-- Whole passes over the cluster with one map.
use ark_asa_operator.Prelude.{◌≡◌, refl, [], ◌∷◌, get_elem?, some, none, codes, arith, list_beq}
use ark_asa_operator.Prelude.{All, inl, inr}
use ark_asa_operator.Controller.WellFormed.{IsWellFormed}
use ark_asa_operator.Kube.Preserves.{SendsGood}
use ark_asa_operator.Controller.WellFormed.Pass.{KeepsState, reconcile-IsWellFormed}
use ark_asa_operator.Kube.{◌>>=◌}
use ark_asa_operator.Reconcile.Names.{other_side}
use ark_asa_operator.Reconcile.Job.{init_job_status, status_of_job}
use ark_asa_operator.Controller.Base.{write_at}
use ark_asa_operator.Controller.Reconcile.{reconcile, keep_slugs}
use ark_asa_operator.Controller.Guarded.{Guarded}
use ark_asa_operator.Controller.Guarded.Pass.{reconcile-Guarded}
use ark_asa_operator.Controller.Roll.{roll_update, swapped}
use ark_asa_operator.Controller.Roll.Replace.{CreatesLast}
use ark_asa_operator.Controller.Roll.Completes.{roll_update_completes}
use ark_asa_operator.Tests.Toy.{island, island_status, cluster_of, crashed_pod, client, at_100}

reconcile-Guarded_example :
    Guarded (keep_slugs (island ∷ [])) (reconcile client (codes "games") (codes "ark") 100).2
reconcile-Guarded_example =
    reconcile-Guarded client (codes "games") (codes "ark") 100 (cluster_of none) refl

roll_update_completes_example :
    let t = (roll_update client island 0 0 crashed_pod (at_100 (some 0))).1 in
    CreatesLast
      (write_at 0 (swapped (codes "server-b")) (cluster_of (some 0)))
      island
      0
      (codes "server-b")
      t.log
    × (get_elem? t.cluster.status.maps 0
        ≡ some (swapped (codes "server-b") (island_status (some 0))))
unfolding other_side list_beq init_job_status status_of_job ◌>>=◌
roll_update_completes_example =
    roll_update_completes client island 0 0 crashed_pod (island_status (some 0)) 0 (at_100 (some 0))
      refl refl refl (λ w. omega arith) λ w. tt

toy-KeepsState : KeepsState client
toy-KeepsState = record {
  add_spec = λ c n. refl;
  add_status = λ c n. refl;
  remove_spec = λ c n. refl;
  remove_status = λ c n. refl;
}

reconcile-IsWellFormed_example :
    All
      (SendsGood (IsWellFormed (cluster_of none).spec))
      (reconcile client (codes "games") (codes "ark") 100).2
reconcile-IsWellFormed_example =
    reconcile-IsWellFormed client (codes "games") (codes "ark") 100 (cluster_of none) toy-KeepsState
      refl ((((inr (inl refl), inr (inr refl), tt), tt), (tt, tt)), tt)
