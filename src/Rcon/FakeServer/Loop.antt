-- ===== src/Rcon/FakeServer/Loop.antt =====
-- The loop of the server ends, and takes packets within the bounds of their length only.
use ark_asa_operator.Prelude.{
  ◌≡◌, refl, sym, ap, ◌∙◌, ℕ, zero, suc, ◌+◌, ◌-◌, ◌≤◌, ◌<◌, ◌||◌, Bool, true, false, if◌then◌else◌,
  leb, [], ◌∷◌, ◌++◌, length, take, drop, Option, none, some, codes, arith, Bool-cases, inl, inr,
  ◌⊎◌,
}
use ark_asa_operator.Prelude.Int.{ℤ, pos, negsuc, ℤ_eq, ◌≤ℤ◌, ltb_ℤ, pos_part}
use mathlib.Core.Option
use ark_asa_operator.Kube.{Error, ok, err}
use ark_asa_operator.Rcon.Wire.{Bytes, get_int32, read_bytes}
use ark_asa_operator.Rcon.FakeServer.{answer, round_on, round, serve_for, serve}

length-drop : (n : ℕ) (s : Bytes) → length (drop n s) ≤ length s - n
length-drop zero s = omega arith
length-drop (suc n) [] = omega arith
length-drop (suc n) (x ∷ s) = omega (arith, length-drop n s)

read_bytes-shrinks : (n : ℕ) (s : Bytes) → length (read_bytes n s).1 ≤ length s - n
unfolding read_bytes
read_bytes-shrinks n s = ground (arith, length-drop n s)

answer-shrinks : (len : ℤ) (s : Bytes) → length (answer len s).1 ≤ length s
unfolding answer
answer-shrinks len s =
    let s₁ = (read_bytes 4 s).1 in
    let s₂ = (read_bytes 4 s₁).1 in
    let s₃ = drop (pos_part len - 10) s₂ in
    omega (
      arith,
      read_bytes-shrinks 4 s,
      read_bytes-shrinks 4 s₁,
      length-drop (pos_part len - 10) s₂,
      length-drop 2 s₃,
    )

read_bytes-enough :
    (n : ℕ) (s : Bytes) → leb n (length s) ≡ true → read_bytes n s ≡ (ok (take n s), drop n s)
unfolding read_bytes
read_bytes-enough n s h = rw h refl

read_bytes-short :
    (n : ℕ) (s : Bytes)
    → leb n (length s) ≡ false
    → (read_bytes n s).0 ≡ err (Error.other (codes "unexpected EOF"))
unfolding read_bytes
read_bytes-short n s h = rw h refl

answered :
    (b : Bool) (len : ℤ) (s out rest : Bytes)
    → (if b then none else some (answer len s)) ≡ some (out, rest)
    → length rest ≤ length s
answered true len s out rest h = ground (arith, h)
answered false len s out rest h =
    let e : (answer len s).1 ≡ rest =
      ap (λ (o : Option (Bytes × Bytes)). (Option.get_or o ([], [])).1) h in
    omega (arith, answer-shrinks len s, ap length e)

-- Every round takes at least the four bytes of the length.
round-shrinks : (s out rest : Bytes) → round s ≡ some (out, rest) → length rest < length s
unfolding round
round-shrinks s out rest h = elim (Bool-cases (leb 4 (length s))) [
  | inr e ↦ ground (arith, h, read_bytes-short 4 s e)
  | inl e ↦
      let h' = rw (round, round_on, read_bytes-enough 4 s e) at h in
      let got : length rest ≤ length (drop 4 s) =
        answered _ (get_int32 (take 4 s)) (drop 4 s) out rest h' in
      let four : 4 ≤ length s = ground (arith, e) in omega (arith, got, four, length-drop 4 s)
]

-- What the loop does with the outcome of a round.
abbrev pub after_round : (Bytes → Bytes) → Option (Bytes × Bytes) → Bytes
after_round loop none = []
after_round loop (some (out, rest)) = out ++ loop rest

same_rounds :
    (f g : Bytes → Bytes) (s : Bytes) (o : Option (Bytes × Bytes))
    → round s ≡ o
    → ((rest : Bytes) → length rest < length s → f rest ≡ g rest)
    → after_round f o ≡ after_round g o
same_rounds f g s none e ih = refl
same_rounds f g s (some (out, rest)) e ih =
    ap (λ (t : Bytes). out ++ t) (ih rest (round-shrinks s out rest e))

serve_for-suc : (n : ℕ) (s : Bytes) → serve_for (suc n) s ≡ after_round (serve_for n) (round s)
unfolding serve_for
serve_for-suc n s = refl

serve_for_enough :
    (n m : ℕ) (s : Bytes) → length s < n → length s < m → serve_for n s ≡ serve_for m s
serve_for_enough zero m s hn hm = absurd (omega (arith, hn))
serve_for_enough (suc n) zero s hn hm = absurd (omega (arith, hm))
serve_for_enough (suc n) (suc m) s hn hm =
    serve_for-suc n s
    ∙ (same_rounds (serve_for n) (serve_for m) s (round s) refl
          (λ rest h. serve_for_enough n m rest (omega (arith, h, hn)) (omega (arith, h, hm)))
        ∙ sym (serve_for-suc m s))

-- With one round more than there are bytes, or with any greater number of rounds, the loop does what
-- its rounds say.
pub serve_unrolls :
    (s : Bytes)
    → (serve s ≡ after_round serve (round s))
      × ((fuel : ℕ) → length s < fuel → serve_for fuel s ≡ serve s)
unfolding serve
serve_unrolls s = (
  serve_for-suc (length s) s
      ∙ same_rounds (serve_for (length s)) serve s (round s) refl
          (λ rest h. serve_for_enough (length s) (suc (length rest)) rest h (omega arith)),
  λ fuel h. serve_for_enough fuel (suc (length s)) s h (omega arith),
)

-- The length that a packet announces in its first four bytes.
abbrev pub announced : Bytes → ℤ
announced s = get_int32 (take 4 s)

-- The loop stops without an answer, for a reason.
abbrev pub Stops : Bytes → Type 0
Stops s = (serve s ≡ []) × ((length s < 4) ⊎ ((announced s ≤ℤ pos 9) ⊎ (pos 4097 ≤ℤ announced s)))

-- The loop answers a packet whose length is announced within the bounds, and goes on with fewer bytes.
abbrev pub GoesOn : Bytes → Type 0
GoesOn s =
    let (out, rest) = answer (announced s) (drop 4 s) in
    (4 ≤ length s)
    × (pos 10 ≤ℤ announced s)
    × (announced s ≤ℤ pos 4096)
    × (serve s ≡ out ++ serve rest)
    × (length rest + 4 ≤ length s)

out_of_bounds :
    (len : ℤ)
    → (ltb_ℤ len (pos 10) || ltb_ℤ (pos 4096) len) ≡ true
    → (len ≤ℤ pos 9) ⊎ (pos 4097 ≤ℤ len)
out_of_bounds (pos n) h = ground (arith, h)
out_of_bounds (negsuc n) h = inl (omega arith)

in_bounds :
    (len : ℤ)
    → (ltb_ℤ len (pos 10) || ltb_ℤ (pos 4096) len) ≡ false
    → (pos 10 ≤ℤ len) × (len ≤ℤ pos 4096)
in_bounds (pos n) h = ground (arith, h)
in_bounds (negsuc n) h = ground (arith, h)

round-enough :
    (s : Bytes)
    → leb 4 (length s) ≡ true
    → round s ≡ (
        if ltb_ℤ (announced s) (pos 10) || ltb_ℤ (pos 4096) (announced s)
        then none
        else some (answer (announced s) (drop 4 s)))
unfolding round round_on
round-enough s e = rw (read_bytes-enough 4 s e) refl

round-short : (s : Bytes) → leb 4 (length s) ≡ false → round s ≡ none
unfolding round round_on
round-short s e = rw (read_bytes-short 4 s e) refl

serve-read : (s : Bytes) → leb 4 (length s) ≡ true → Stops s ⊎ GoesOn s
serve-read s e =
    let four : 4 ≤ length s = ground (arith, e) in
    let bad = ltb_ℤ (announced s) (pos 10) || ltb_ℤ (pos 4096) (announced s) in
    let step : serve s
        ≡ after_round serve (if bad then none else some (answer (announced s) (drop 4 s))) =
      (serve_unrolls s).0 ∙ ap (after_round serve) (round-enough s e) in
    elim (Bool-cases bad) [
      | inl x ↦ inl (step ∙ rw x refl, inr (out_of_bounds (announced s) x))
      | inr x ↦
          let (low, high) = in_bounds (announced s) x in
          inr (
            four,
            low,
            high,
            step ∙ rw x refl,
            omega (arith, four, length-drop 4 s, answer-shrinks (announced s) (drop 4 s)),
          )
    ]

-- The server's loop ends on every input, and on none of them does a round take a body of negative
-- length: it stops without an answer if there are fewer than four bytes or if the length that they
-- announce is not from 10 to 4096; else it writes one answer and goes on with what is left, which is
-- at least four bytes less. With any number of rounds above the number of bytes it writes the same.
pub serve_cases :
    (s : Bytes) → (Stops s ⊎ GoesOn s) × ((fuel : ℕ) → length s < fuel → serve_for fuel s ≡ serve s)
serve_cases s = (
  elim (Bool-cases (leb 4 (length s))) [
    | inl e ↦ serve-read s e
    | inr e ↦
        inl
          ((serve_unrolls s).0 ∙ ap (after_round serve) (round-short s e), inl (ground (arith, e)))
  ],
  (serve_unrolls s).1,
)
