-- ===== src/Prelude/Decimal.antt =====
-- `strconv.Itoa` and `strconv.FormatInt(n, 10)`, which `%d` prints too.
use ark_asa_operator.Prelude.{ℕ, zero, suc, ◌+◌, ◌/◌, ◌%◌, true, false, [], ◌∷◌, Text, ltb}
use ark_asa_operator.Prelude.Int.{ℤ, pos, negsuc}

-- The digits of `n` in front of `out`, a round for each; `n + 1` rounds are more than enough, since a
-- round ends the loop once the number is below ten.
unfoldable pub digits_loop : ℕ → ℕ → Text → Text
digits_loop zero n out = out
digits_loop (suc fuel) n out =
    let out' = (b'0' + n % 10) ∷ out in
    elim (ltb n 10) [ true ↦ out' | false ↦ digits_loop fuel (n / 10) out' ]

unfoldable pub format_ℕ : ℕ → Text
unfolding digits_loop
format_ℕ n = digits_loop (suc n) n []

unfoldable pub format_int : ℤ → Text
unfolding format_ℕ
format_int (pos n) = format_ℕ n
format_int (negsuc n) = b'-' ∷ format_ℕ (suc n)
