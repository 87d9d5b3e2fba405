-- ===== src/Prelude/Sorting/Ascending.antt =====
-- Sorting by keys that are all different: the result ascends strictly, and is determined by what a
-- search for each key finds in it.
use ark_asa_operator.Prelude.{
  ◌≡◌, refl, sym, ap, ◌∙◌, ◌≢◌, Bool, true, false, ◌==◌, ==_iff, ==_refl, Eq, ◌||◌, ◌&&◌,
  if◌then◌else◌, List, [], ◌∷◌, any, all, first, arith, Bool-cases, inl, inr, Option, none, some,
}
use ark_asa_operator.Prelude.Sorting.{Order, insert_by, sort_by}

module _ {ℓ κ} {A : Type ℓ} {K : Type κ} ⦃o : Order K⦄ ⦃e : Eq K⦄ (key : A → K) where
  -- The element with the key.
  abbrev pub find_key : K → List A → Option A
  find_key k l = first (λ a. key a == k) l

  abbrev pub has_key : K → List A → Bool
  has_key k l = any (λ a. key a == k) l

  abbrev pub Distinct : List A → Type 0
  Distinct [] = Unit
  Distinct (a ∷ l) = (has_key (key a) l ≡ false) × Distinct l

  -- Is the key below all keys of the list?
  abbrev pub below_all : K → List A → Bool
  below_all k l = all (λ b. o.le k (key b) && (if key b == k then false else true)) l

  abbrev pub Ascending : List A → Type 0
  Ascending [] = Unit
  Ascending (a ∷ l) = (below_all (key a) l ≡ true) × Ascending l

  pub find_key-insert_by :
      (k : K) (a : A) (l : List A)
      → find_key k (insert_by key a l) ≡ (if key a == k then some a else find_key k l)
  unfolding insert_by
  find_key-insert_by k a [] = refl
  find_key-insert_by k a (b ∷ l) = ground (
    arith,
    find_key-insert_by k a l,
    ==_iff (key a) k,
    ==_iff (key b) k,
    o.total (key a) (key b),
    o.antisym (key a) (key b),
  )

  pub find_key-sort_by : (k : K) (l : List A) → find_key k (sort_by key l) ≡ find_key k l
  unfolding sort_by
  find_key-sort_by k [] = refl
  find_key-sort_by k (a ∷ l) =
      find_key-insert_by k a (sort_by key l) ∙ ground (arith, find_key-sort_by k l)

  pub any-insert_by :
      (p : A → Bool) (a : A) (l : List A) → any p (insert_by key a l) ≡ (p a || any p l)
  unfolding insert_by
  any-insert_by p a [] = refl
  any-insert_by p a (b ∷ l) = ground (arith, any-insert_by p a l)

  pub any-sort_by : (p : A → Bool) (l : List A) → any p (sort_by key l) ≡ any p l
  unfolding sort_by
  any-sort_by p [] = refl
  any-sort_by p (a ∷ l) = any-insert_by p a (sort_by key l) ∙ ground (arith, any-sort_by p l)

  below_all-insert_by :
      (k : K) (a : A) (l : List A) → below_all k (insert_by key a l) ≡ below_all k (a ∷ l)
  unfolding insert_by
  below_all-insert_by k a [] = refl
  below_all-insert_by k a (b ∷ l) = ground (arith, below_all-insert_by k a l)

  below_all_trans :
      (j k : K) (l : List A) → o.le j k ≡ true → j ≢ k → below_all k l ≡ true → below_all j l ≡ true
  below_all_trans j k [] h n b = refl
  below_all_trans j k (a ∷ l) h n b = ground (
    arith,
    below_all_trans j k l,
    o.trans j k (key a),
    o.antisym j k,
    o.antisym k (key a),
    ==_iff (key a) k,
    ==_iff (key a) j,
  )

  insert_by-Ascending :
      (a : A) (l : List A) → has_key (key a) l ≡ false → Ascending l → Ascending (insert_by key a l)
  unfolding insert_by
  insert_by-Ascending a [] h s = (refl, tt)
  insert_by-Ascending a (b ∷ l) h (s, t) = elim (Bool-cases (o.le (key a) (key b))) [
    | inl e ↦
        rw e (ground (arith, below_all_trans (key a) (key b) l, ==_iff (key b) (key a)), (s, t))
    | inr e ↦ rw e (
      below_all-insert_by (key b) a l
          ∙ ground (arith, o.total (key a) (key b), ==_iff (key a) (key b), ==_iff (key b) (key a)),
      insert_by-Ascending a l (ground (arith, h)) t,
    )
  ]

  pub sort_by-Ascending : (l : List A) → Distinct l → Ascending (sort_by key l)
  unfolding sort_by
  sort_by-Ascending [] d = tt
  sort_by-Ascending (a ∷ l) (h, d) =
      insert_by-Ascending a (sort_by key l) (any-sort_by _ l ∙ h) (sort_by-Ascending l d)

  pub not_below : (k : K) (l : List A) → below_all k l ≡ true → find_key k l ≡ none
  not_below k [] h = refl
  not_below k (a ∷ l) h = ground (arith, not_below k l, ==_iff (key a) k)

  head_le :
      (x y : A) (xs ys : List A)
      → below_all (key y) ys ≡ true
      → ((k : K) → find_key k (x ∷ xs) ≡ find_key k (y ∷ ys))
      → o.le (key y) (key x) ≡ true
  head_le x y xs ys by h = elim (Bool-cases (o.le (key y) (key x))) [
    | inl e ↦ e
    | inr e ↦ ground (
      arith,
      e,
      h (key x),
      ==_refl (key x),
      ==_iff (key y) (key x),
      o.total (key y) (key x),
      o.antisym (key x) (key y),
      below_all_trans (key x) (key y) ys,
      not_below (key x) ys,
    )
  ]

  head_eq :
      (x y : A) (xs ys : List A)
      → below_all (key x) xs ≡ true
      → below_all (key y) ys ≡ true
      → ((k : K) → find_key k (x ∷ xs) ≡ find_key k (y ∷ ys))
      → x ≡ y
  head_eq x y xs ys bx by h = ground (
    arith,
    head_le x y xs ys by h,
    head_le y x ys xs bx (λ k. sym (h k)),
    o.antisym (key x) (key y),
    h (key x),
    ==_iff (key x) (key x),
    ==_iff (key y) (key x),
  )

  tail_eq :
      (x y : A) (xs ys : List A)
      → below_all (key y) xs ≡ true
      → below_all (key y) ys ≡ true
      → x ≡ y
      → (k : K) → find_key k (x ∷ xs) ≡ find_key k (y ∷ ys)
      → find_key k xs ≡ find_key k ys
  tail_eq x y xs ys bx by e k h =
      ground (arith, ==_iff (key y) k, ap key e, not_below (key y) xs, not_below (key y) ys)

  -- A list that ascends is determined by what is found in it.
  pub Ascending-ext :
      (xs ys : List A)
      → Ascending xs
      → Ascending ys
      → ((k : K) → find_key k xs ≡ find_key k ys)
      → xs ≡ ys
  Ascending-ext [] [] hx hy h = refl
  Ascending-ext [] (y ∷ ys) hx hy h = ground (arith, h (key y), ==_refl (key y))
  Ascending-ext (x ∷ xs) [] hx hy h = ground (arith, h (key x), ==_refl (key x))
  Ascending-ext (x ∷ xs) (y ∷ ys) (bx, hx) (by, hy) h =
      let e : x ≡ y = head_eq x y xs ys bx by h in
      let same = rw e at bx in
      cc (e, Ascending-ext xs ys hx hy λ k. tail_eq x y xs ys same by e k (h k))
