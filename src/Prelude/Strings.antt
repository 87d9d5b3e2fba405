-- ===== src/Prelude/Strings.antt =====
-- Go strings, as the list of their bytes. The functions are those of the package `strings` that the
-- program calls; a literal in the source is `codes` of its text, which is ASCII.
use Prim.Native.Nat.{ℕ, zero, suc, ◌+◌, ◌-◌}
use Prim.Native.Char.{code}
use Prim.Native.String.{String}
use mathlib.Core.Bool.{Bool, true, false, ◌&&◌, ◌||◌}
use mathlib.Core.List.{List, [], ◌∷◌, ◌++◌, reverse}
use ark_asa_operator.Prelude.Tests.{leb, ◌==◌, ℕ_eq, if◌then◌else◌}
use ark_asa_operator.Prelude.Lists.{length, take}

abbrev pub Text : Type 0
Text = List ℕ

abbrev pub codes : String → Text
codes String.[] = []
codes (String.◌∷◌ c s) = code c ∷ codes s

-- `strings.HasPrefix`
unfoldable pub has_prefix : Text → Text → Bool
has_prefix s [] = true
has_prefix [] (p ∷ ps) = false
has_prefix (c ∷ s) (p ∷ ps) = c == p && has_prefix s ps

-- `strings.HasSuffix`
unfoldable pub has_suffix : Text → Text → Bool
unfolding has_prefix
has_suffix s p = has_prefix (reverse s) (reverse p)

-- `strings.TrimSuffix`
unfoldable pub trim_suffix : Text → Text → Text
unfolding has_suffix
trim_suffix s p = if has_suffix s p then take (length s - length p) s else s

-- `strings.Join`
unfoldable pub join : List Text → Text → Text
join [] sep = []
join (x ∷ []) sep = x
join (x ∷ y ∷ xs) sep = x ++ (sep ++ join (y ∷ xs) sep)

-- A byte in front of the first piece.
unfoldable pub cons_head : ℕ → List Text → List Text
cons_head c [] = (c ∷ []) ∷ []
cons_head c (l ∷ ls) = (c ∷ l) ∷ ls

-- `strings.Split` at a separator of one byte.
unfoldable pub split : ℕ → Text → List Text
unfolding cons_head
split sep [] = [] ∷ []
split sep (c ∷ s) = let rest = split sep s in if c == sep then [] ∷ rest else cons_head c rest

-- `strings.TrimLeft`, `strings.TrimRight` and `strings.Trim` of one byte.
unfoldable pub trim_left : ℕ → Text → Text
trim_left x [] = []
trim_left x (c ∷ s) = let rest = trim_left x s in if c == x then rest else c ∷ s

unfoldable pub trim_right : ℕ → Text → Text
trim_right x [] = []
trim_right x (c ∷ s) =
    let rest = trim_right x s in
    elim rest [ [] ↦ if c == x then [] else c ∷ [] | d ∷ ds ↦ c ∷ (d ∷ ds) ]

unfoldable pub trim : ℕ → Text → Text
unfolding trim_left trim_right
trim x s = trim_right x (trim_left x s)

-- `strings.ReplaceAll` of a text that is not empty. `skip` bytes belong to a match already replaced.
unfoldable pub replace_from : ℕ → Text → Text → Text → Text
unfolding has_prefix
replace_from skip old new [] = []
replace_from (suc skip) old new (c ∷ s) = replace_from skip old new s
replace_from zero old new (c ∷ s) = elim (has_prefix (c ∷ s) old) [
  | true ↦ new ++ replace_from (length old - 1) old new s
  | false ↦ c ∷ replace_from zero old new s
]

unfoldable pub replace_all : Text → Text → Text → Text
unfolding replace_from
replace_all s old new = replace_from zero old new s

-- `strings.ToLower` on ASCII.
unfoldable pub lower : ℕ → ℕ
lower c = if leb b'A' c && leb c b'Z' then c + 32 else c

-- The white space of ASCII.
unfoldable pub is_space : ℕ → Bool
is_space c = (leb 9 c && leb c 13) || c == b' '

-- `strings.TrimSpace`, of a text whose white space is ASCII.
unfoldable pub skip_space : Text → Text
unfolding is_space
skip_space [] = []
skip_space (c ∷ s) = let rest = skip_space s in if is_space c then rest else c ∷ s

unfoldable pub drop_space : Text → Text
unfolding is_space
drop_space [] = []
drop_space (c ∷ s) =
    let rest = drop_space s in
    elim rest [ [] ↦ if is_space c then [] else c ∷ [] | d ∷ ds ↦ c ∷ (d ∷ ds) ]

unfoldable pub trim_space : Text → Text
unfolding skip_space drop_space
trim_space s = drop_space (skip_space s)
