-- ===== src/Reconcile/Ini/Lines.antt =====
-- The lines of an INI file: cutting a text at the line ends is undone by joining, and the lines
-- that `ensureGUSDefaults` writes are lines.
use ark_asa_operator.Prelude.{
  ℕ, zero, suc, ◌+◌, ◌/◌, ◌%◌, ◌≡◌, refl, ap, ◌∙◌, Bool, true, false, if◌then◌else◌, List, [], ◌∷◌,
  ◌++◌, take, drop, Text, arith, join, split, cons_head, ◌==◌, ℕ_eq, any, ltb, ==_refl,
}
use ark_asa_operator.Prelude.Int.{ℤ, pos, negsuc}
use ark_asa_operator.Prelude.Decimal.{format_int, format_ℕ, digits_loop}

-- A text without the byte `sep`, and a list of such texts.
abbrev pub Lacks : ℕ → Text → Type 0
Lacks sep [] = Unit {0}
Lacks sep (c ∷ s) = ((c == sep) ≡ false) × Lacks sep s

abbrev pub Pieces : ℕ → List Text → Type 0
Pieces sep [] = Unit {0}
Pieces sep (x ∷ xs) = Lacks sep x × Pieces sep xs

pub any-Lacks : (sep : ℕ) (x : Text) → any (λ c. c == sep) x ≡ false → Lacks sep x
any-Lacks sep [] h = tt
any-Lacks sep (c ∷ s) h = (ground (arith, h), any-Lacks sep s (ground (arith, h)))

split_one : (sep : ℕ) (x : Text) → Lacks sep x → split sep x ≡ x ∷ []
unfolding split cons_head
split_one sep [] h = refl
split_one sep (c ∷ s) (a, h) = rw (a, split_one sep s h) refl

split_first : (sep : ℕ) (x y : Text) → Lacks sep x → split sep (x ++ (sep ∷ y)) ≡ x ∷ split sep y
unfolding split cons_head
split_first sep [] y h = rw (==_refl sep) refl
split_first sep (c ∷ s) y (a, h) = rw (a, split_first sep s y h) refl

pub split-join :
    (sep : ℕ) (x : Text) (xs : List Text)
    → Pieces sep (x ∷ xs)
    → split sep (join (x ∷ xs) (sep ∷ [])) ≡ x ∷ xs
unfolding join
split-join sep x [] (a, h) = split_one sep x a
split-join sep x (y ∷ ys) (a, h) =
    split_first sep x (join (y ∷ ys) (sep ∷ [])) a
    ∙ ap (λ (l : List Text). x ∷ l) (split-join sep y ys h)

cons_head-Pieces :
    (sep c : ℕ) (xs : List Text) → (c == sep) ≡ false → Pieces sep xs → Pieces sep (cons_head c xs)
unfolding cons_head
cons_head-Pieces sep c [] a h = ((a, tt), tt)
cons_head-Pieces sep c (x ∷ xs) a (b, h) = ((a, b), h)

split_step :
    (sep c : ℕ) (b : Bool) (xs : List Text)
    → (c == sep) ≡ b
    → Pieces sep xs
    → Pieces sep (if b then [] ∷ xs else cons_head c xs)
split_step sep c true xs a h = (tt, h)
split_step sep c false xs a h = cons_head-Pieces sep c xs a h

pub split-Pieces : (sep : ℕ) (s : Text) → Pieces sep (split sep s)
unfolding split
split-Pieces sep [] = (tt, tt)
split-Pieces sep (c ∷ s) = split_step sep c (c == sep) (split sep s) refl (split-Pieces sep s)

pub Pieces-append :
    (sep : ℕ) (xs ys : List Text) → Pieces sep xs → Pieces sep ys → Pieces sep (xs ++ ys)
Pieces-append sep [] ys a b = b
Pieces-append sep (x ∷ xs) ys (a, h) b = (a, Pieces-append sep xs ys h b)

pub Pieces-take : (sep n : ℕ) (xs : List Text) → Pieces sep xs → Pieces sep (take n xs)
Pieces-take sep zero xs h = tt
Pieces-take sep (suc n) [] h = tt
Pieces-take sep (suc n) (x ∷ xs) (a, h) = (a, Pieces-take sep n xs h)

pub Pieces-drop : (sep n : ℕ) (xs : List Text) → Pieces sep xs → Pieces sep (drop n xs)
Pieces-drop sep zero xs h = h
Pieces-drop sep (suc n) [] h = tt
Pieces-drop sep (suc n) (x ∷ xs) (a, h) = Pieces-drop sep n xs h

pub Lacks-append : (sep : ℕ) (x y : Text) → Lacks sep x → Lacks sep y → Lacks sep (x ++ y)
Lacks-append sep [] y a b = b
Lacks-append sep (c ∷ s) y (a, h) b = (a, Lacks-append sep s y h b)

no_line_end : (n : ℕ) → (b'0' + n % 10 == 10) ≡ false
no_line_end n = ground arith

digits_loop-Lacks : (fuel n : ℕ) (out : Text) → Lacks 10 out → Lacks 10 (digits_loop fuel n out)
unfolding digits_loop
digits_loop-Lacks zero n out h = h
digits_loop-Lacks (suc fuel) n out h =
    let h' : Lacks 10 ((b'0' + n % 10) ∷ out) = (no_line_end n, h) in
    elim (ltb n 10)
      as (λ b. Lacks 10 (elim b [
        | true ↦ (b'0' + n % 10) ∷ out
        | false ↦ digits_loop fuel (n / 10) ((b'0' + n % 10) ∷ out)
      ])) [ true ↦ h' | false ↦ digits_loop-Lacks fuel (n / 10) ((b'0' + n % 10) ∷ out) h' ]

pub format_int-Lacks : (i : ℤ) → Lacks 10 (format_int i)
unfolding format_int format_ℕ
format_int-Lacks (pos n) = digits_loop-Lacks (suc n) n [] tt
format_int-Lacks (negsuc n) = (refl, digits_loop-Lacks (suc (suc n)) (suc n) [] tt)
