-- ===== src/Prelude/Sorting.antt =====
-- `sort.Slice` and `sort.Strings` over a total order: the sorted list is unique, so insertion sort
-- stands for the package's algorithm.
pub mod Ascending
use mathlib.Core.Logic.{∥∥₁_elim}
use mathlib.Core.List.{Perm, Permᴰ}
use ark_asa_operator.Prelude.{
  ◌≡◌, refl, ◌∙◌, Bool, true, false, ◌||◌, ◌&&◌, List, [], ◌∷◌, arith, Text, ℕ_eq, ◌==◌, ltb,
  if◌then◌else◌,
}
use ark_asa_operator.Prelude.Int.{ℤ, leb_ℤ}

pub record Order {ℓ} (A : Type ℓ) : Type ℓ where
  pub le : A → A → Bool
  pub total : (a b : A) → le a b ≡ false → le b a ≡ true
  pub trans : (a b c : A) → le a b ≡ true → le b c ≡ true → le a c ≡ true
  pub antisym : (a b : A) → le a b ≡ true → le b a ≡ true → a ≡ b

pub total_ℤ : (a b : ℤ) → leb_ℤ a b ≡ false → leb_ℤ b a ≡ true
total_ℤ a b h = ground arith

pub trans_ℤ : (a b c : ℤ) → leb_ℤ a b ≡ true → leb_ℤ b c ≡ true → leb_ℤ a c ≡ true
trans_ℤ a b c h k = ground arith

pub antisym_ℤ : (a b : ℤ) → leb_ℤ a b ≡ true → leb_ℤ b a ≡ true → a ≡ b
antisym_ℤ a b h k = ground arith

instance abbrev pub ℤ_order : Order ℤ
ℤ_order = record { le = leb_ℤ; total = total_ℤ; trans = trans_ℤ; antisym = antisym_ℤ }

-- Go's `<=` on strings: the order of the bytes.
unfoldable pub text_le : Text → Text → Bool
text_le [] t = true
text_le (a ∷ s) [] = false
text_le (a ∷ s) (b ∷ t) = ltb a b || (a == b && text_le s t)

pub total_text : (s t : Text) → text_le s t ≡ false → text_le t s ≡ true
unfolding text_le
total_text [] t h = ground arith
total_text (a ∷ s) [] h = refl
total_text (a ∷ s) (b ∷ t) h = ground (arith, total_text s t)

pub trans_text : (s t u : Text) → text_le s t ≡ true → text_le t u ≡ true → text_le s u ≡ true
unfolding text_le
trans_text [] t u h k = refl
trans_text (a ∷ s) [] u h k = ground arith
trans_text (a ∷ s) (b ∷ t) [] h k = ground arith
trans_text (a ∷ s) (b ∷ t) (c ∷ u) h k = ground (arith, trans_text s t u)

pub antisym_text : (s t : Text) → text_le s t ≡ true → text_le t s ≡ true → s ≡ t
unfolding text_le
antisym_text [] [] h k = refl
antisym_text [] (b ∷ t) h k = ground arith
antisym_text (a ∷ s) [] h k = ground arith
antisym_text (a ∷ s) (b ∷ t) h k = ground (arith, antisym_text s t)

instance abbrev pub Text_order : Order Text
Text_order = record { le = text_le; total = total_text; trans = trans_text; antisym = antisym_text }

-- Sorting by a key, as `sort.Slice(x, func(i, j) bool { return x[i].k < x[j].k })`.
module _ {ℓ κ} {A : Type ℓ} {K : Type κ} ⦃o : Order K⦄ (key : A → K) where
  unfoldable pub insert_by : A → List A → List A
  insert_by a [] = a ∷ []
  insert_by a (b ∷ l) =
      let rest = insert_by a l in if o.le (key a) (key b) then a ∷ (b ∷ l) else b ∷ rest

  unfoldable pub sort_by : List A → List A
  unfolding insert_by
  sort_by [] = []
  sort_by (a ∷ l) = insert_by a (sort_by l)

module _ {ℓ} {A : Type ℓ} ⦃o : Order A⦄ where
  unfoldable pub sort : List A → List A
  unfolding sort_by
  sort l = sort_by (λ a. a) l

  insert_comm :
      (a b : A) (l : List A)
      → insert_by (λ x. x) a (insert_by (λ x. x) b l)
        ≡ insert_by (λ x. x) b (insert_by (λ x. x) a l)
  unfolding insert_by
  insert_comm a b [] = ground (arith, o.total a b, o.antisym a b)
  insert_comm a b (c ∷ l) = ground (
    arith,
    o.total a b,
    o.antisym a b,
    o.trans a b c,
    o.trans b a c,
    o.total a c,
    o.total b c,
    insert_comm a b l,
  )

  sort-permᴰ : {xs ys : List A} → Permᴰ xs ys → sort xs ≡ sort ys
  unfolding sort
  sort-permᴰ Permᴰ.nil = refl
  sort-permᴰ (Permᴰ.cons {a} {b} {l₁} {l₂} e p) = rw (e, sort-permᴰ p)
  sort-permᴰ (Permᴰ.swap {a} {b} {a'} {b'} {l} e e') = rw (← e, ← e') (insert_comm a b (sort l))
  sort-permᴰ (Permᴰ.trans p q) = sort-permᴰ p ∙ sort-permᴰ q

  -- The sorted list does not depend on the order of its input.
  pub sort-perm : IsSet (List A) → {xs ys : List A} → Perm xs ys → sort xs ≡ sort ys
  sort-perm s p = ∥∥₁_elim p (s _ _) sort-permᴰ
