-- ===== src/Controller/Reconcile/Summary.antt =====
-- The summary at the end of a pass, and the map that holds the others back.
use ark_asa_operator.Prelude.{
  ◌≡◌, refl, ◌⊎◌, inl, inr, ℕ, suc, ◌+◌, ◌^◌, ◌<◌, ◌≢◌, ◌↔◌, Bool, false, if◌then◌else◌, List, [],
  ◌∷◌, first, any, all, map, arith, ◌==◌, List_eq, ℕ_eq, All, length, keep_if, Bool-cases,
}
use ark_asa_operator.Prelude.Int.{pos, ◌+ℤ◌, int32}
use ark_asa_operator.Api.{
  ArkClusterStatus, MapSpec, ClusterPhase, ArkCluster, MapStatus, MapPhase, MapPhase_eq,
  RolloutPolicy,
}
use ark_asa_operator.Ark.Slug.{map_slug}
use ark_asa_operator.Reconcile.Status.{aggregate_phase}
use ark_asa_operator.Reconcile.Status.Aggregate
use ark_asa_operator.Reconcile.Status.Aggregate.{
  has_failed, is_updating, is_starting, aggregate_phase_priority,
}
use ark_asa_operator.Controller.Gc.{kept}
use ark_asa_operator.Controller.Reconcile.{
  is_parallel, id_of, is_mid_update, mid_flight_map, count_ready_from, keep_slugs, summarize,
}

abbrev is_running : MapStatus → Bool
is_running m = m.phase == MapPhase.running

one_more : (n : ℕ) → suc n < 2147483648 → int32 (pos n +ℤ pos 1) ≡ pos (suc n)
unfolding int32 ◌+ℤ◌
one_more n h = ground arith

count_ready_from_lem :
    (n : ℕ) (maps : List MapStatus)
    → n + length maps < 2147483648
    → count_ready_from (pos n) maps ≡ pos (n + length (keep_if is_running maps))
unfolding count_ready_from
count_ready_from_lem n [] h = ground arith
count_ready_from_lem n (m ∷ maps) h = elim (Bool-cases (is_running m)) [
  | inl e ↦ ground (arith, e, h, one_more n, count_ready_from_lem (suc n) maps)
  | inr e ↦ ground (arith, e, h, count_ready_from_lem n maps)
]

count_ready_maps_lem :
    (maps : List MapStatus)
    → length maps < 2 ^ 31
    → count_ready_from (pos 0) maps ≡ pos (length (keep_if is_running maps))
count_ready_maps_lem maps h = ground (arith, h, count_ready_from_lem 0 maps)

fits_int32 : (n : ℕ) → n < 2 ^ 31 → int32 (pos n) ≡ pos n
unfolding int32
fits_int32 n h = ground arith

any-map :
    {A B : Type 0} (f : A → B) (p : B → Bool) (xs : List A)
    → any p (map f xs) ≡ any (λ x. p (f x)) xs
any-map f p [] = refl
any-map f p (x ∷ xs) = ground (arith, any-map f p xs)

keep_if-same :
    {A : Type 0} (p q : A → Bool) (xs : List A)
    → ((x : A) → p x ≡ q x)
    → keep_if p xs ≡ keep_if q xs
keep_if-same p q [] h = refl
keep_if-same p q (x ∷ xs) h = rw (h x, keep_if-same p q xs h) refl

-- Is there a map of the spec with the slug of the entry's map?
abbrev pub in_spec : ArkCluster → MapStatus → Bool
in_spec c m = any (λ (s : MapSpec). map_slug s.id == map_slug m.id) c.spec.maps

-- The phase of a cluster with these entries, by what the worst of them is.
abbrev pub worst_phase : List MapStatus → ClusterPhase
worst_phase [] = ClusterPhase.pending
worst_phase (m ∷ maps) =
    if any has_failed (m ∷ maps)
    then ClusterPhase.degraded
    else if any is_updating (m ∷ maps)
    then ClusterPhase.updating
    else if any is_starting (m ∷ maps)
    then ClusterPhase.initializing
    else if all Aggregate.is_running (m ∷ maps)
    then ClusterPhase.running
    else ClusterPhase.pending

aggregate_phase-worst_phase : (maps : List MapStatus) → aggregate_phase maps ≡ worst_phase maps
aggregate_phase-worst_phase [] = unfold aggregate_phase in refl
aggregate_phase-worst_phase (m ∷ maps) = aggregate_phase_priority (m ∷ maps) (cc)

-- The status `new` after a pass that left the object `c`: the entries, their numbers and the phase.
abbrev pub Summarized : ArkCluster → ArkClusterStatus → Type 0
Summarized c new =
    (new.maps ≡ keep_if (in_spec c) c.status.maps)
    × (new.total_maps ≡ pos (length c.spec.maps))
    × (new.ready_maps ≡ pos (length (keep_if is_running new.maps)))
    × (new.phase ≡ worst_phase new.maps)
    × (new.observed_generation ≡ c.meta.generation)
    × (new.conditions ≡ c.status.conditions)
    × (new.mods ≡ c.status.mods)

keep_slugs-kept :
    (c : ArkCluster) (m : MapStatus) → kept (keep_slugs c.spec.maps) (map_slug m.id) ≡ in_spec c m
unfolding keep_slugs
keep_slugs-kept c m = any-map (λ (s : MapSpec). map_slug s.id) (λ x. x == map_slug m.id) c.spec.maps

-- While the numbers of maps are int32, the summary leaves those status entries, in their order, whose
-- slug is that of a map of the spec; it counts the maps of the spec and the entries left that
-- run; the phase is that of the worst entry left; the generation is the object's; and the
-- conditions and the mods stay.
pub summarize_lem :
    (c : ArkCluster)
    → length c.spec.maps < 2 ^ 31
    → length (summarize c).status.maps < 2 ^ 31
    → Summarized c (summarize c).status
unfolding summarize
summarize_lem c h h' = (
  keep_if-same _ (in_spec c) c.status.maps (keep_slugs-kept c),
  fits_int32 (length c.spec.maps) h,
  count_ready_maps_lem (summarize c).status.maps h',
  aggregate_phase-worst_phase (summarize c).status.maps,
  refl,
  refl,
  refl,
)

first_id :
    (maps : List MapStatus)
    → All (λ (m : MapStatus). m.id ≢ []) maps
    → (id_of (first is_mid_update maps) ≡ []) ↔ (any is_mid_update maps ≡ false)
first_id [] h = (λ _. refl, λ _. refl)
first_id (m ∷ maps) (h, hs) = elim (Bool-cases (is_mid_update m)) [
  | inl e ↦ ground (arith, e, h)
  | inr e ↦ ground (arith, e, first_id maps hs)
]

by_rollout :
    (r : RolloutPolicy) (maps : List MapStatus)
    → All (λ (m : MapStatus). m.id ≢ []) maps
    → ((if is_parallel r then [] else id_of (first is_mid_update maps)) ≡ [])
      ↔ ((r ≡ RolloutPolicy.parallel) ⊎ (any is_mid_update maps ≡ false))
by_rollout RolloutPolicy.parallel maps h = (λ _. inl refl, λ _. refl)
by_rollout RolloutPolicy.unset maps h = (
  λ e. inr ((first_id maps h).0 e),
  λ o. elim o [ inl e ↦ ground (arith, e) | inr e ↦ (first_id maps h).1 e ],
)
by_rollout RolloutPolicy.one_at_a_time maps h = (
  λ e. inr ((first_id maps h).0 e),
  λ o. elim o [ inl e ↦ ground (arith, e) | inr e ↦ (first_id maps h).1 e ],
)

-- Where all status entries have an ID, no map holds the others back if and only if the rollout is
-- parallel or no entry is draining, swapping or installing its inactive volume.
pub mid_flight_map_lem :
    (c : ArkCluster)
    → All (λ (m : MapStatus). m.id ≢ []) c.status.maps
    → (mid_flight_map c ≡ []) ↔ (
        (c.spec.update_strategy.rollout ≡ RolloutPolicy.parallel)
        ⊎ (any is_mid_update c.status.maps ≡ false))
unfolding mid_flight_map
mid_flight_map_lem c ids = by_rollout c.spec.update_strategy.rollout c.status.maps ids
