-- ===== src/Controller/Pods/Active.antt =====
-- Which pod `findActivePod` takes for the running one.
use ark_asa_operator.Prelude.{
  ◌≡◌, refl, ap, ◌⊎◌, inl, inr, Bool, true, false, List, [], ◌∷◌, first, any, arith, Text, ◌==◌,
  List_eq, ℕ_eq, ◌&&◌, none, some, Bool-cases,
}
use mathlib.Core.List.{Memᴰ}
use ark_asa_operator.Kube.{Pod}
use ark_asa_operator.Controller.Pods.{is_live, hash_of, find_active_pod}

module _ {A : Type 0} where
  -- A member of the list that passes the test, or none does.
  first-cases :
      (p : A → Bool) (xs : List A)
      → ((x : A) × (first p xs ≡ some x) × Memᴰ x xs × (p x ≡ true))
        ⊎ ((first p xs ≡ none) × (any p xs ≡ false))
  first-cases p [] = inr (refl, refl)
  first-cases p (x ∷ xs) = elim (Bool-cases (p x)) [
    | inl e ↦ inl (x, ground (arith, e), Memᴰ.head refl, e)
    | inr e ↦ elim (first-cases p xs) [
      | inl (y, q, i, h) ↦ inl (y, ground (arith, e, q), Memᴰ.tail i, h)
      | inr (q, h) ↦ inr (ground (arith, e, q), ground (arith, e, h))
    ]
  ]

  -- What a member passes, some member passes.
  any-Mem : (p : A → Bool) (x : A) (xs : List A) → Memᴰ x xs → p x ≡ true → any p xs ≡ true
  any-Mem p x [] i h = elim i [ ]
  any-Mem p x (y ∷ xs) (Memᴰ.head e) h = ground (arith, h, ap p e)
  any-Mem p x (y ∷ xs) (Memᴰ.tail i) h = ground (arith, any-Mem p x xs i h)

-- The pod that is found is listed and not terminating. It has the desired hash if any pod that is not
-- terminating has, and there is none only if all are terminating.
pub find_active_pod-cases :
    (pods : List Pod) (desired : Text)
    → ((pod : Pod) × (find_active_pod pods desired ≡ some pod)
        × Memᴰ pod pods
        × (is_live pod ≡ true)
        × ((hash_of pod == desired) ≡ any (λ p. is_live p && hash_of p == desired) pods))
      ⊎ ((find_active_pod pods desired ≡ none) × (any is_live pods ≡ false))
unfolding find_active_pod
find_active_pod-cases pods desired =
    let fits : Pod → Bool = λ p. is_live p && hash_of p == desired in
    elim (first-cases fits pods) [
      | inl (pod, q, i, h) ↦ inl (
        pod,
        ground (arith, q),
        i,
        ground (arith, h),
        ground (arith, h, any-Mem fits pod pods i h),
      )
      | inr (q, h) ↦ elim (first-cases is_live pods) [
        | inl (pod, q', i, h') ↦
            inl (pod, ground (arith, q, q'), i, h', ground (arith, h, h', any-Mem fits pod pods i))
        | inr (q', h') ↦ inr (ground (arith, q, q'), h')
      ]
    ]
