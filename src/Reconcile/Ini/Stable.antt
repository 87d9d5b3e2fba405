-- ===== src/Reconcile/Ini/Stable.antt =====
-- `ensureGUSDefaults` on its own output.
use ark_asa_operator.Prelude.{
  ℕ, zero, suc, ◌<◌, ◌≡◌, refl, sym, ◌∙◌, Bool, true, false, if◌then◌else◌, ◌&&◌, List, [], ◌∷◌,
  ◌++◌, Option, none, some, length, take, drop, Text, codes, arith, join, split, trim_space,
  skip_space, drop_space, is_space, ◌==◌, list_beq, List_eq, ℕ_eq,
}
use mathlib.Core.Path.{subst}
use ark_asa_operator.Prelude.Int.{ℤ}
use ark_asa_operator.Reconcile.Ini.{
  Section, scan, inject, add_missing, rcon_enabled, rcon_port_line, header_index, server_settings,
  ensure_gus_defaults, newline,
}
use ark_asa_operator.Reconcile.Ini.Defaults.{HasBoth, scan_enabled, scan_port, scan-add_missing}
use ark_asa_operator.Reconcile.Ini.Lines.{
  Lacks, Pieces, any-Lacks, split-join, split-Pieces, Pieces-append, Pieces-take, Pieces-drop,
  Lacks-append, format_int-Lacks,
}

-- The lines have the section at `start`, with both keys.
record Complete (lines : List Text) (start : ℕ) : Type 0 where
  header : header_index lines ≡ some start
  both : HasBoth (scan (drop (suc start) lines))

header_later :
    (r : Option ℕ) (r' : ℕ → Option ℕ) (start n : ℕ)
    → ((i : ℕ) → r ≡ some i → (i < n) × (r' (suc i) ≡ some i))
    → elim r [ none ↦ none | some i ↦ some (suc i) ] ≡ some start
    → (start < suc n) × (elim (r' start) [ none ↦ none | some i ↦ some (suc i) ] ≡ some start)
header_later none r' start n h e = ground (arith, e)
header_later (some i) r' zero n h e = ground (arith, e)
header_later (some i) r' (suc j) n h e =
    let same : i ≡ j = ground (arith, e) in
    let (a, b) = h i refl in (rw (sym same) (omega (arith, a)), rw (sym same, b) refl)

header_step :
    (b : Bool) (l : Text) (ls ys : List Text) (start : ℕ)
    → ((i : ℕ)
        → header_index ls ≡ some i
        → (i < length ls) × (header_index (take (suc i) ls ++ ys) ≡ some i))
    → (trim_space l == server_settings) ≡ b
    → header_index (l ∷ ls) ≡ some start
    → (start < suc (length ls)) × (header_index (l ∷ (take start ls ++ ys)) ≡ some start)
unfolding header_index
header_step true l ls ys start h t e =
    let e0 : some 0 ≡ some start = rw (t, header_index) at e in
    (ground (arith, e0), rw (t, header_index) e0)
header_step false l ls ys start h t e =
    let later =
      header_later (header_index ls) (λ n. header_index (take n ls ++ ys)) start (length ls) h
        (rw (t, header_index) at e) in
    (later.0, rw (t, header_index) later.1)

header_keep :
    (lines ys : List Text) (start : ℕ)
    → header_index lines ≡ some start
    → (start < length lines) × (header_index (take (suc start) lines ++ ys) ≡ some start)
unfolding header_index
header_keep [] ys start h = ground (arith, h)
header_keep (l ∷ ls) ys start h =
    header_step (trim_space l == server_settings) l ls ys start (λ i. header_keep ls ys i) refl h

left_as_is :
    (s : Text) (start : ℕ) (port : ℤ)
    → Complete (split newline s) start
    → ensure_gus_defaults s port ≡ s
unfolding ensure_gus_defaults list_beq header_index split trim_space
left_as_is [] start port c = ground (arith, c.header)
left_as_is (ch ∷ s) start port c = rw (c.header, c.both.0, c.both.1) refl

unless-Pieces : (b : Bool) (x : Text) → Lacks newline x → Pieces newline (if b then [] else x ∷ [])
unless-Pieces true x h = tt
unless-Pieces false x h = (h, tt)

rcon_enabled-Lacks : Lacks newline rcon_enabled
rcon_enabled-Lacks = any-Lacks newline rcon_enabled refl

rcon_port_line-Lacks : (port : ℤ) → Lacks newline (rcon_port_line port)
unfolding rcon_port_line
rcon_port_line-Lacks port =
    Lacks-append newline (codes "RCONPort=") _ (any-Lacks newline (codes "RCONPort=") refl)
      (format_int-Lacks port)

inject-Pieces : (s : Section) (port : ℤ) → Pieces newline (inject s port)
unfolding inject
inject-Pieces s port =
    Pieces-append newline (if s.has_enabled then [] else rcon_enabled ∷ [])
      (if s.has_port then [] else rcon_port_line port ∷ [])
      (unless-Pieces s.has_enabled rcon_enabled rcon_enabled-Lacks)
      (unless-Pieces s.has_port (rcon_port_line port) (rcon_port_line-Lacks port))

added_again :
    (lines : List Text) (start : ℕ) (port : ℤ)
    → Pieces newline lines
    → header_index lines ≡ some start
    → Complete
        (split newline
          (join (add_missing lines start (scan (drop (suc start) lines)) port) (newline ∷ [])))
        start
unfolding add_missing header_index
added_again [] start port p h = ground (arith, h)
added_again (l ∷ ls) start port p h =
    let lines = l ∷ ls in
    let rest = drop start ls in
    let s = scan rest in
    let (bound, kept) =
      header_keep lines (inject s port ++ (take s.size rest ++ drop s.size rest)) start h in
    let pieces =
      Pieces-append newline (take (suc start) lines)
        (inject s port ++ (take s.size rest ++ drop s.size rest))
        (Pieces-take newline (suc start) lines p)
        (Pieces-append newline (inject s port) (take s.size rest ++ drop s.size rest)
          (inject-Pieces s port)
          (Pieces-append newline (take s.size rest) (drop s.size rest)
            (Pieces-take newline s.size rest (Pieces-drop newline start ls p.1))
            (Pieces-drop newline s.size rest (Pieces-drop newline start ls p.1)))) in
    let same =
      split-join newline l
        (take start ls ++ (inject s port ++ (take s.size rest ++ drop s.size rest))) pieces in
    subst (λ (x : List Text). Complete x start) (sym same)
      (record { header = kept; both = scan-add_missing lines start port bound })

header_here : (ls : List Text) → header_index (server_settings ∷ ls) ≡ some 0
unfolding header_index list_beq trim_space skip_space drop_space is_space
header_here ls = refl

-- The section that is put in front of other lines.
fresh_section :
    (lines : List Text) (port : ℤ)
    → Pieces newline lines
    → Complete
        (split newline
          (join (server_settings ∷ rcon_enabled ∷ rcon_port_line port ∷ [] ∷ lines) (newline ∷ [])))
        0
fresh_section lines port p =
    let after = rcon_port_line port ∷ [] ∷ lines in
    subst (λ (x : List Text). Complete x 0)
      (sym (
        split-join newline server_settings (rcon_enabled ∷ after) (
          any-Lacks newline server_settings refl,
          (rcon_enabled-Lacks, (rcon_port_line-Lacks port, (tt, p))),
        )))
      (record {
        header = header_here (rcon_enabled ∷ after);
        both = ((scan_enabled after).0, (scan_enabled after).1 ∙ (scan_port port ([] ∷ lines)).0);
      })

completed :
    (b : Bool) (s : Text) (start : ℕ) (port : ℤ)
    → header_index (split newline s) ≡ some start
    → ((scan (drop (suc start) (split newline s))).has_enabled
        && (scan (drop (suc start) (split newline s))).has_port)
      ≡ b
    → Complete
        (split newline (
          if b
          then s
          else join
              (add_missing (split newline s) start (scan (drop (suc start) (split newline s))) port)
              (newline ∷ [])))
        start
completed true s start port h e = record {
  header = h;
  both = (ground (arith, e), ground (arith, e));
}
completed false s start port h e =
    added_again (split newline s) start port (split-Pieces newline s) h

ensured :
    (r : Option ℕ) (s : Text) (port : ℤ)
    → header_index (split newline s) ≡ r
    → (start : ℕ) × Complete
        (split newline (elim r [
          | none ↦
              join
                (server_settings ∷ rcon_enabled ∷ rcon_port_line port ∷ [] ∷ split newline s)
                (newline ∷ [])
          | some start ↦
              let t = scan (drop (suc start) (split newline s)) in
              if t.has_enabled && t.has_port
              then s
              else join (add_missing (split newline s) start t port) (newline ∷ [])
        ]))
        start
ensured none s port h = (0, fresh_section (split newline s) port (split-Pieces newline s))
ensured (some start) s port h = (start, completed _ s start port h refl)

settles :
    (s : Text) (port : ℤ)
    → (start : ℕ) × Complete (split newline (ensure_gus_defaults s port)) start
unfolding ensure_gus_defaults list_beq join
settles [] port = (0, fresh_section [] port tt)
settles (c ∷ s) port = ensured (header_index (split newline (c ∷ s))) (c ∷ s) port refl

-- What `ensureGUSDefaults` gives has the section's header, as a first one on some line, and both
-- RCON keys between this line and the next header; and another run, with any port, leaves it as it
-- is.
pub ensure_gus_defaults_again :
    (content : Text) (port port' : ℤ)
    → ((start : ℕ) × (header_index (split newline (ensure_gus_defaults content port)) ≡ some start)
        × HasBoth (scan (drop (suc start) (split newline (ensure_gus_defaults content port)))))
      × (ensure_gus_defaults (ensure_gus_defaults content port) port'
          ≡ ensure_gus_defaults content port)
ensure_gus_defaults_again content port port' =
    let (start, c) = settles content port in
    ((start, c.header, c.both), left_as_is (ensure_gus_defaults content port) start port' c)
