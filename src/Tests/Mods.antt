-- ===== src/Tests/Mods.antt =====
-- Checks of the mods of a cluster with two mods, of which one has a new file.
use ark_asa_operator.Prelude.{
  ◌↔◌, ◌≡◌, refl, ℕ, true, false, [], ◌∷◌, List, some, none, codes, arith, ==_iff,
}
use ark_asa_operator.Prelude.Int.{ℤ, pos, ℤ_eq}
use ark_asa_operator.Prelude.{
  any, list_beq, ◌==◌, ◌||◌, ◌≤◌, ◌*◌, if◌then◌else◌, ltb, List_eq, ℕ_eq,
}
use ark_asa_operator.Prelude.Sorting.{Text_order}
use ark_asa_operator.ModUpdate.Ids.{affected_maps, contains}
use ark_asa_operator.Reconcile.Pod.{find_map}
use ark_asa_operator.ModUpdate.Pass.{interval_of, shortest_interval, minute, after_fetch}
use ark_asa_operator.CurseForge.{get_files}
use ark_asa_operator.CurseForge.Fake.{expected}
use ark_asa_operator.Kube.{Action}
use mathlib.Core.Option
use ark_asa_operator.Prelude.Assoc.{lookup}
use ark_asa_operator.Prelude.Sorting.{ℤ_order}
use ark_asa_operator.Prelude.Sorting.Ascending.{find_key}
use ark_asa_operator.Reconcile.Pod.{pod_mods}
use ark_asa_operator.Api.{ArkCluster, ModStatus, ModAutoUpdateSpec, TrackedMod}
use ark_asa_operator.Kube.{Result, ok, Sys}
use ark_asa_operator.CurseForge.{ModInfo, ModApi}
use ark_asa_operator.CurseForge.Fake.{FakeMod, handler, get_files-handler}
use ark_asa_operator.ModUpdate.Ids.Laws.{affected_maps_iff}
use ark_asa_operator.ModUpdate.Merge.{merge_mod_status}
use ark_asa_operator.ModUpdate.Merge.View.{id_of}
use ark_asa_operator.ModUpdate.Merge.Entry.{Recorded, NewFile, merge_mod_status-Recorded}
use ark_asa_operator.ModUpdate.Merge.Order.{merge_mod_status_order}
use ark_asa_operator.ModUpdate.Merge.Stable.{with_tracked, merge_mod_status_again}
use ark_asa_operator.ModUpdate.Pass.Interval.{interval_of_lem}
use ark_asa_operator.ModUpdate.Pass.Report.{checked_cluster, after_fetch-reports_once}
use ark_asa_operator.Tests.Toy.{island, cluster_of, client, at_100}
use ark_asa_operator.Prelude.{◌≢◌, Text}
use ark_asa_operator.Prelude.Assoc.{value_at}
use ark_asa_operator.Ark.Hash.{hex_encode}
use ark_asa_operator.Controller.Template.{annotation_mods_changed, compute_pod_hash}
use ark_asa_operator.ModUpdate.Merge.{hash_tracked}
use ark_asa_operator.ModUpdate.Pass.{stamp}
use ark_asa_operator.ModUpdate.Annotation.{digest, compute_pod_hash-stamp}
use ark_asa_operator.Kube.{Client}

abbrev info_of : ℤ → ℤ → ModInfo
info_of id file = record { id = id; slug = []; latest_file_id = file; latest_version = [] }

abbrev fetched : List (ℤ × ModInfo)
fetched = (pos 7, info_of (pos 7) (pos 71)) ∷ (pos 5, info_of (pos 5) (pos 52)) ∷ []

abbrev fetched_other : List (ℤ × ModInfo)
fetched_other = (pos 5, info_of (pos 5) (pos 52)) ∷ (pos 7, info_of (pos 7) (pos 71)) ∷ []

abbrev tracked_seven : TrackedMod
tracked_seven = record {
  id = pos 7;
  slug = [];
  installed_version = [];
  installed_file_id = pos 70;
  latest_version = [];
  latest_file_id = pos 70;
  last_changed = none;
  affected_maps = [];
}

abbrev mods_status_at : ℕ → List TrackedMod → ModStatus
mods_status_at last tracked = record {
  last_check_time = some last;
  next_check_time = none;
  last_error = [];
  tracked = tracked;
}

abbrev mods_spec : ModAutoUpdateSpec
mods_spec = record {
  enabled = true;
  interval_minutes = pos 30;
  curse_forge_api_key_ref = record { name = codes "cf"; key = codes "key" };
}

-- Mod 7 is tracked with an older file, and was checked at time 90.
abbrev modded : ArkCluster
modded =
    let c = cluster_of none in
    record c {
      spec = record c.spec {
        global_settings = record c.spec.global_settings { mods = pos 7 ∷ pos 5 ∷ [] };
        mod_auto_update = some mods_spec;
      };
      status = record c.status { mods = some (mods_status_at 90 (tracked_seven ∷ [])) };
    }

abbrev modded_at_100 : Sys ℕ
modded_at_100 = record { cluster = modded; busy = false; world = 100; log = [] }

merge_mod_status-Recorded_example :
    ((id : ℤ)
      → Recorded modded 100 id
          (lookup id fetched)
          (find_key id_of id (merge_mod_status modded fetched 100).0))
    × (((merge_mod_status modded fetched 100).1 ≡ true) ↔ NewFile modded fetched)
merge_mod_status-Recorded_example = merge_mod_status-Recorded modded fetched 100

same_entries : (id : ℤ) → lookup id fetched ≡ lookup id fetched_other
unfolding lookup
same_entries id = ground (arith, ==_iff (pos 7) id, ==_iff (pos 5) id)

merge_mod_status_order_example :
    merge_mod_status modded fetched 100 ≡ merge_mod_status modded fetched_other 100
merge_mod_status_order_example =
    merge_mod_status_order modded fetched fetched_other 100 (refl, (refl, tt)) (refl, (refl, tt))
      same_entries

merge_mod_status_again_example :
    merge_mod_status
      (with_tracked (mods_status_at 100 (merge_mod_status modded fetched 100).0) modded)
      fetched
      200
    ≡ ((merge_mod_status modded fetched 100).0, false)
merge_mod_status_again_example =
    merge_mod_status_again modded fetched 100 200
      (mods_status_at 100 (merge_mod_status modded fetched 100).0) (refl, (refl, tt)) refl

found_island : find_map (codes "TheIsland_WP") (island ∷ []) ≡ some island
unfolding find_map list_beq
found_island = refl

affected_maps_iff_example :
    any (λ x. x == codes "TheIsland_WP") (affected_maps modded (pos 7))
    ≡ contains (pos 7) (pod_mods modded (codes "TheIsland_WP"))
affected_maps_iff_example =
    affected_maps_iff modded (pos 7) island (codes "TheIsland_WP") (refl, tt) found_island

interval_of_lem_example :
    (interval_of (pos 30)
      ≡ (if ltb 30 5 || ltb 153722867 30 then shortest_interval else 30 * minute))
    × (shortest_interval ≤ interval_of (pos 30))
interval_of_lem_example = interval_of_lem 30 (omega arith)

abbrev fake_mods : List (ℤ × FakeMod)
fake_mods = (pos 7, record { slug = []; latest_file_id = pos 71; latest_version = [] }) ∷ []

-- A codec for requests of mod 7 only.
abbrev api : ModApi ℕ
api = record {
  new_request = λ r. ok tt;
  send_request = λ r. λ w. (ok (record { status_code = pos 200; body = codes "{}" }), w);
  marshal_mod_ids = λ ids. codes "[7]";
  decode_mods = λ t. ok (handler fake_mods (pos 7 ∷ []));
}

get_files-handler_example :
    (info : List (ℤ × ModInfo)) × ((get_files client api
        (record { base_url = []; api_key = codes "k" })
        (pos 7 ∷ [])
        (at_100 none)).0
      ≡ ok info)
    × ((key : ℤ)
        → lookup key info ≡ (
            if any (λ x. x == key) (pos 7 ∷ [])
            then Option.map (expected key) (lookup key fake_mods)
            else none))
get_files-handler_example =
    get_files-handler ℕ client api (λ t. pos 7 ∷ []) (λ l. codes "{}") fake_mods
      (record { base_url = []; api_key = codes "k" }) (pos 7) [] (at_100 none)
      ((λ r. refl), (λ r. λ w. refl), refl, refl)

-- What a check at time 100 leaves, at time 200.
abbrev left_at_200 : Sys ℕ
left_at_200 = record modded_at_100 {
  cluster = (after_fetch client (interval_of (pos 30)) 100 (ok fetched) modded_at_100).1.cluster;
  world = 200;
}

abbrev checked_at_200 : Sys ℕ
checked_at_200 = record modded_at_100 {
  cluster = checked_cluster 300 100 fetched modded;
  world = 200;
}

after_fetch-reports_once_example :
    (r : Result Unit) × ((after_fetch client 300 200 (ok fetched) checked_at_200).1.log
      ≡ Action.write_status (checked_cluster 300 200 fetched checked_at_200.cluster) r ∷ [])
after_fetch-reports_once_example =
    after_fetch-reports_once client 300 100 200 fetched modded checked_at_200 (refl, (refl, tt))
      refl

-- A digest of 32 bytes.
abbrev digest_client : Client ℕ
digest_client = record client {
  sha256 = λ t.
      1 ∷ 2 ∷ 3 ∷ 4 ∷ 5 ∷ 6 ∷ 7 ∷ 8 ∷ 1 ∷ 2 ∷ 3 ∷ 4 ∷ 5 ∷ 6 ∷ 7 ∷ 8 ∷ 1 ∷ 2 ∷ 3 ∷ 4 ∷ 5 ∷ 6 ∷ 7 ∷ 8
      ∷ 1 ∷ 2 ∷ 3 ∷ 4 ∷ 5 ∷ 6 ∷ 7 ∷ 8 ∷ [];
}

not_stamped :
    value_at annotation_mods_changed modded.meta.annotations
    ≢ hash_tracked digest_client.sha256 (tracked_seven ∷ [])
unfolding value_at lookup hash_tracked hex_encode
not_stamped e = ground (arith, e)

compute_pod_hash-stamp_example :
    let stamped = stamp (hash_tracked digest_client.sha256 (tracked_seven ∷ [])) modded in
    (t : Text) × (t' : Text) × ((compute_pod_hash digest_client island 0
        (codes "server-a")
        modded_at_100).0
      ≡ ok (digest digest_client t))
    × ((compute_pod_hash digest_client island 0
          (codes "server-a")
          (record modded_at_100 { cluster = stamped })).0
        ≡ ok (digest digest_client t'))
    × (t ≢ t')
compute_pod_hash-stamp_example =
    compute_pod_hash-stamp digest_client island 0 (codes "server-a") (tracked_seven ∷ [])
      modded_at_100 (λ t. refl) not_stamped
