-- ===== src/Controller/Pods.antt =====
-- internal/controller/arkcluster_controller.go: what the reconciler reads off the pods of a map, and
-- the friendly names of maps (with `camelCaseSplit` of util.go).
pub mod Active
pub mod Built
use ark_asa_operator.Prelude.{
  ℕ, ◌-◌, Bool, true, false, ◌&&◌, ◌||◌, ◌==◌, List_eq, ℕ_eq, ltb, leb, if◌then◌else◌, List, [],
  ◌∷◌, any, first, length, take, drop, Option, none, some, Text, codes,
}
use ark_asa_operator.Prelude.Int.{ℤ, pos, ℤ_eq, ltb_ℤ}
use ark_asa_operator.Prelude.Assoc.{value_at}
use ark_asa_operator.Api.{ConditionStatus, ConditionStatus_eq}
use ark_asa_operator.Kube.{ContainerStatus, Pod}
use ark_asa_operator.Reconcile.Pod.{hash_label}

abbrev pub is_live : Pod → Bool
is_live pod = elim pod.deletion_timestamp [ none ↦ true | some t ↦ false ]

abbrev pub hash_of : Pod → Text
hash_of pod = value_at hash_label pod.labels

-- A pod that is not terminating: one with the desired hash if there is one, else the first.
unfoldable pub find_active_pod : List Pod → Text → Option Pod
find_active_pod pods desired = elim (first (λ p. is_live p && hash_of p == desired) pods) [
  | some p ↦ some p
  | none ↦ first is_live pods
]

unfoldable pub pod_ready : Pod → Bool
pod_ready pod = any (λ c. c.is_ready_type && c.status == ConditionStatus.is_true) pod.conditions

-- 5 * time.Minute
abbrev pub crash_window : ℕ
crash_window = 300000000000

-- The tests of `shouldRollback` before the clock is read: when the last restart of a pod with three
-- restarts or more ended, if it ended with an error.
abbrev pub crash_of : List ContainerStatus → Option ℕ
crash_of [] = none
crash_of (c ∷ cs) = if ltb_ℤ c.restart_count (pos 3) then none else elim c.last_terminated [
  | none ↦ none
  | some t ↦ if t.exit_code == pos 0 then none else some t.finished_at
]

unfoldable pub crash_time : Pod → Option ℕ
crash_time pod = crash_of pod.container_statuses

-- `restarts` of the message, from the first container
abbrev restarts_of : List ContainerStatus → ℤ
restarts_of [] = pos 0
restarts_of (c ∷ cs) = c.restart_count

unfoldable pub restarts : Pod → ℤ
restarts pod = restarts_of pod.container_statuses

abbrev is_lower_or_digit : ℕ → Bool
is_lower_or_digit c = (leb b'a' c && leb c b'z') || (leb b'0' c && leb c b'9')

abbrev is_upper : ℕ → Bool
is_upper c = leb b'A' c && leb c b'Z'

-- `camelCaseSplit.ReplaceAllString(s, "$1 $2")`: a space before a capital that follows a small letter
-- or a digit. Matches do not overlap, since the second byte of one is no first byte of another.
unfoldable pub camel_case_split : Text → Text
camel_case_split [] = []
camel_case_split (c ∷ []) = c ∷ []
camel_case_split (c ∷ (d ∷ s)) =
    let rest = camel_case_split (d ∷ s) in
    if is_lower_or_digit c && is_upper d then c ∷ (b' ' ∷ rest) else c ∷ rest

abbrev without_wp : Text → Text
without_wp s =
    if ltb 3 (length s) && drop (length s - 3) s == codes "_WP" then take (length s - 3) s else s

unfoldable pub friendly_name : Text → Text
unfolding camel_case_split
friendly_name id =
    if id == codes "TheIsland_WP"
    then codes "The Island"
    else if id == codes "ScorchedEarth_WP"
    then codes "Scorched Earth"
    else if id == codes "Aberration_WP"
    then codes "Aberration"
    else if id == codes "Extinction_WP"
    then codes "Extinction"
    else if id == codes "TheCenter_WP"
    then codes "The Center"
    else if id == codes "Astraeos_WP"
    then codes "Astraeos"
    else if id == codes "BobsMissions_WP"
    then codes "Club Ark"
    else camel_case_split (without_wp id)
