-- ===== src/Prelude/Assoc.antt =====
-- Go maps, as association lists with one entry for a key, in the order in which a loop over the map
-- happens to visit them. A lookup of a missing key gives the zero value, or `none` in the form
-- `v, ok := m[k]`.
use mathlib.Core.Option
use ark_asa_operator.Prelude.{
  ◌≡◌, refl, ◌==◌, ==_iff, Eq, ℕ_eq, List_eq, if◌then◌else◌, List, [], ◌∷◌, Option, none, some,
  Text, arith,
}

module _ {ℓ κ} {K : Type κ} ⦃e : Eq K⦄ {V : Type ℓ} where
  unfoldable pub lookup : K → List (K × V) → Option V
  lookup k [] = none
  lookup k ((j, v) ∷ m) = let rest = lookup k m in if j == k then some v else rest

  unfoldable pub insert : K → V → List (K × V) → List (K × V)
  insert k v [] = (k, v) ∷ []
  insert k v ((j, w) ∷ m) = let rest = insert k v m in if j == k then (k, v) ∷ m else (j, w) ∷ rest

  pub lookup-insert :
      (at : K) (value : V) (key : K) (entries : List (K × V))
      → lookup key (insert at value entries)
        ≡ (if at == key then some value else lookup key entries)
  unfolding lookup insert
  lookup-insert at value key [] = refl
  lookup-insert at value key ((x, old) ∷ entries) =
      ground (arith, ==_iff x at, ==_iff x key, ==_iff at key, lookup-insert at value key entries)

-- `m[k]` in a map from strings to strings.
unfoldable pub value_at : Text → List (Text × Text) → Text
unfolding lookup
value_at k m = Option.get_or (lookup k m) []
