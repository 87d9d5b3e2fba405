-- ===== src/Reconcile/Ini/Defaults.antt =====
-- The section [ServerSettings] after `ensureGUSDefaults` has put the missing lines into it.
use ark_asa_operator.Prelude.{
  ℕ, zero, suc, ◌<◌, ◌≡◌, refl, sym, ◌∙◌, Bool, true, false, if◌then◌else◌, List, [], ◌∷◌, ◌++◌,
  length, take, drop, take-append-drop, Text, codes, arith, is_space, drop_space, skip_space,
  trim_space, has_prefix,
}
use mathlib.Core.Path.{subst}
use mathlib.Core.List.{append_assoc}
use ark_asa_operator.Prelude.Int.{ℤ}
use ark_asa_operator.Prelude.Decimal.{format_int}
use ark_asa_operator.Reconcile.Ini.{
  Section, is_header, scan, inject, add_missing, rcon_enabled, rcon_port_line,
}

-- Has the section both keys?
abbrev pub HasBoth : Section → Type 0
HasBoth s = (s.has_enabled ≡ true) × (s.has_port ≡ true)

keep_step :
    (c : ℕ) (rest : Text)
    → is_space c ≡ false
    → (elim rest [ [] ↦ if is_space c then [] else c ∷ [] | d ∷ ds ↦ c ∷ (d ∷ ds) ]) ≡ c ∷ rest
keep_step c [] h = rw h
keep_step c (d ∷ ds) h = refl

drop_space_keep : (c : ℕ) (s : Text) → is_space c ≡ false → drop_space (c ∷ s) ≡ c ∷ drop_space s
unfolding drop_space
drop_space_keep c s h = keep_step c (drop_space s) h

trim_port_line :
    (port : ℤ)
    → trim_space (rcon_port_line port) ≡ codes "RCONPort=" ++ drop_space (format_int port)
unfolding trim_space rcon_port_line skip_space is_space
trim_port_line port = rw (
  drop_space_keep b'R' _ refl,
  drop_space_keep b'C' _ refl,
  drop_space_keep b'O' _ refl,
  drop_space_keep b'N' _ refl,
  drop_space_keep b'P' _ refl,
  drop_space_keep b'o' _ refl,
  drop_space_keep b'r' _ refl,
  drop_space_keep b't' _ refl,
  drop_space_keep b'=' _ refl,
)

-- The line of the first key counts, and hides no line.
pub scan_enabled :
    (ls : List Text)
    → ((scan (rcon_enabled ∷ ls)).has_enabled ≡ true)
      × ((scan (rcon_enabled ∷ ls)).has_port ≡ (scan ls).has_port)
unfolding scan is_header trim_space skip_space drop_space is_space has_prefix
scan_enabled ls = (refl, refl)

has_port_line : (s : Text) → has_prefix (codes "RCONPort=" ++ s) (codes "RCONPort=") ≡ true
unfolding has_prefix
has_port_line s = refl

-- So does the line of the other.
pub scan_port :
    (port : ℤ) (ls : List Text)
    → ((scan (rcon_port_line port ∷ ls)).has_port ≡ true)
      × ((scan (rcon_port_line port ∷ ls)).has_enabled ≡ (scan ls).has_enabled)
unfolding scan is_header has_prefix
scan_port port ls = rw (trim_port_line port) (refl, refl)

with_enabled :
    (b : Bool) (ls : List Text)
    → (scan ls).has_enabled ≡ b
    → (scan ls).has_port ≡ true
    → HasBoth (scan ((if b then [] else rcon_enabled ∷ []) ++ ls))
with_enabled true ls e p = (e, p)
with_enabled false ls e p = ((scan_enabled ls).0, (scan_enabled ls).1 ∙ p)

with_port :
    (b : Bool) (port : ℤ) (ls : List Text)
    → (scan ls).has_port ≡ b
    → ((scan ((if b then [] else rcon_port_line port ∷ []) ++ ls)).has_port ≡ true)
      × ((scan ((if b then [] else rcon_port_line port ∷ []) ++ ls)).has_enabled
          ≡ (scan ls).has_enabled)
with_port true port ls e = (e, refl)
with_port false port ls e = scan_port port ls

scan-inject : (port : ℤ) (ls : List Text) → HasBoth (scan (inject (scan ls) port ++ ls))
unfolding inject
scan-inject port ls =
    let s = scan ls in
    let port_lines : List Text = if s.has_port then [] else rcon_port_line port ∷ [] in
    let (has_port, same) = with_port s.has_port port ls refl in
    subst (λ (x : List Text). HasBoth (scan x))
      (sym (append_assoc (if s.has_enabled then [] else rcon_enabled ∷ []) port_lines ls))
      (with_enabled s.has_enabled (port_lines ++ ls) same has_port)

drop-take :
    {A : Type 0} (n : ℕ) (xs ys : List A)
    → n < length xs
    → drop (suc n) (take (suc n) xs ++ ys) ≡ ys
drop-take n [] ys h = ground (arith, h)
drop-take zero (x ∷ xs) ys h = refl
drop-take (suc n) (x ∷ xs) ys h = drop-take n xs ys (omega (arith, h))

-- Where the section's header is line `start`, the section has a line for each of the two RCON keys after
-- the missing lines are added.
pub scan-add_missing :
    (lines : List Text) (start : ℕ) (port : ℤ)
    → start < length lines
    → HasBoth
        (scan (drop (suc start) (add_missing lines start (scan (drop (suc start) lines)) port)))
unfolding add_missing
scan-add_missing lines start port h =
    let rest = drop (suc start) lines in
    let s = scan rest in
    rw
      (
        drop-take start lines (inject s port ++ (take s.size rest ++ drop s.size rest)) h,
        take-append-drop s.size rest,
      )
      (scan-inject port rest)
