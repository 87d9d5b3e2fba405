-- ===== src/Controller/WellFormed.antt =====
-- What is always true of the status that the reconciler keeps: the volumes of a map, its conditions
-- and the entries of the maps.
pub mod Updates
pub mod Flows
pub mod Rolls
pub mod Maps
pub mod Pass
use ark_asa_operator.Prelude.{
  if-both, ◌≡◌, ◌≢◌, Bool, if◌then◌else◌, ◌⊎◌, List, [], ◌∷◌, All, keep_if, Text,
}
use ark_asa_operator.Api.{Condition, MapStatus, ArkCluster, ArkClusterSpec, ArkClusterStatus}
use ark_asa_operator.Reconcile.Names.{server_a, server_b}

-- One of the two server volumes, or none yet.
abbrev pub IsVolume : Text → Type 0
IsVolume v = (v ≡ []) ⊎ ((v ≡ server_a) ⊎ (v ≡ server_b))

pub All-keep_if :
    {A : Type 0} (P : A → Type 0) (p : A → Bool) (xs : List A) → All P xs → All P (keep_if p xs)
All-keep_if P p [] h = tt
All-keep_if P p (x ∷ xs) (h, hs) =
    let rest = All-keep_if P p xs hs in if-both (All P) (p x) (h, rest) rest

-- No two elements have the same key.
module _ {A : Type 0} (key : A → Text) where
  abbrev pub Distinct : List A → Type 0
  Distinct [] = Unit
  Distinct (x ∷ xs) = All (λ y. key y ≢ key x) xs × Distinct xs

  pub keep_if-Distinct : (p : A → Bool) (xs : List A) → Distinct xs → Distinct (keep_if p xs)
  keep_if-Distinct p [] h = tt
  keep_if-Distinct p (x ∷ xs) (h, hs) =
      let rest = keep_if-Distinct p xs hs in
      if-both Distinct (p x) (All-keep_if (λ y. key y ≢ key x) p xs h, rest) rest

-- The conditions of a map are of different types, and its volumes are server volumes.
abbrev pub IsEntry : MapStatus → Type 0
IsEntry m =
    IsVolume m.active_volume
    × IsVolume m.last_good_volume
    × Distinct (λ (c : Condition). c.type) m.conditions

abbrev pub AreEntries : List MapStatus → Type 0
AreEntries maps = All IsEntry maps × Distinct (λ (m : MapStatus). m.id) maps

-- For every map ID there is at most one entry, and every entry is well formed; the conditions of the
-- cluster are of different types.
abbrev pub IsGoodStatus : ArkClusterStatus → Type 0
IsGoodStatus status =
    AreEntries status.maps × Distinct (λ (c : Condition). c.type) status.conditions

-- The desired state is `spec`, and the observed state is good.
abbrev pub IsWellFormed : ArkClusterSpec → ArkCluster → Type 0
IsWellFormed spec c = (c.spec ≡ spec) × IsGoodStatus c.status
