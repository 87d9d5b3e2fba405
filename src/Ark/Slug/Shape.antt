-- ===== src/Ark/Slug/Shape.antt =====
-- The shape of a slug: its bytes, its ends, and its stability.
use mathlib.Core.Bool.{false≢true}
use mathlib.Core.Path.{subst}
use mathlib.Core.List.{reverse, reverse-cons}
use ark_asa_operator.Prelude.{
  ◌≡◌, refl, sym, ◌∙◌, inl, inr, Bool, true, false, not, ◌==◌, ℕ_eq, List_eq, ==_iff, if-both, [],
  ◌∷◌, ◌++◌, map, Text, Bool-cases, codes, trim, trim_left, trim_right, trim_suffix, has_suffix,
  has_prefix, lower, all, arith,
}
use ark_asa_operator.Ark.Slug.{is_slug_char, dash, collapse, fallback_slug, map_slug}

abbrev pub IsSlugText : Text → Type 0
IsSlugText s = all is_slug_char s ≡ true

abbrev pub starts_clean : Text → Bool
starts_clean [] = true
starts_clean (c ∷ s) = not (c == b'-')

abbrev pub ends_clean : Text → Bool
ends_clean [] = true
ends_clean (c ∷ []) = not (c == b'-')
ends_clean (c ∷ (d ∷ s)) = ends_clean (d ∷ s)

collapse-IsSlugText : (b : Bool) (s : Text) → IsSlugText (collapse b s)
unfolding collapse
collapse-IsSlugText b [] = refl
collapse-IsSlugText b (c ∷ s) =
    ground (arith, collapse-IsSlugText false s, collapse-IsSlugText true s)

trim_left-IsSlugText : (s : Text) → IsSlugText s → IsSlugText (trim_left b'-' s)
unfolding trim_left
trim_left-IsSlugText [] h = refl
trim_left-IsSlugText (c ∷ s) h = ground (arith, trim_left-IsSlugText s)

trim_right-IsSlugText : (s : Text) → IsSlugText s → IsSlugText (trim_right b'-' s)
unfolding trim_right
trim_right-IsSlugText [] h = refl
trim_right-IsSlugText (c ∷ s) h = ground (arith, trim_right-IsSlugText s)

trim_left-starts_clean : (s : Text) → starts_clean (trim_left b'-' s) ≡ true
unfolding trim_left
trim_left-starts_clean [] = refl
trim_left-starts_clean (c ∷ s) = ground (arith, trim_left-starts_clean s)

trim_right-starts_clean :
    (s : Text) → starts_clean s ≡ true → starts_clean (trim_right b'-' s) ≡ true
unfolding trim_right
trim_right-starts_clean [] h = refl
trim_right-starts_clean (c ∷ s) h = ground arith

trim_right-ends_clean : (s : Text) → ends_clean (trim_right b'-' s) ≡ true
unfolding trim_right
trim_right-ends_clean [] = refl
trim_right-ends_clean (c ∷ s) = ground (arith, trim_right-ends_clean s)

-- Only the bytes `a` to `z`, `0` to `9` and `-`, and no dash at either end.
pub record IsSlug (s : Text) : Type 0 where
  pub text : IsSlugText s
  pub starts : starts_clean s ≡ true
  pub ends : ends_clean s ≡ true

trim-IsSlug : (s : Text) → IsSlugText s → IsSlug (trim b'-' s)
unfolding trim
trim-IsSlug s h = record {
  text = trim_right-IsSlugText (trim_left b'-' s) (trim_left-IsSlugText s h);
  starts = trim_right-starts_clean (trim_left b'-' s) (trim_left-starts_clean s);
  ends = trim_right-ends_clean (trim_left b'-' s);
}

fallback_slug-IsSlug : (id : Text) → IsSlug (fallback_slug id)
unfolding fallback_slug
fallback_slug-IsSlug id =
    let t = map dash (trim_suffix (map lower id) (codes "_wp")) in
    trim-IsSlug (collapse false t) (collapse-IsSlugText false t)

canonical : (s : Text) → IsSlugText s → starts_clean s ≡ true → ends_clean s ≡ true → IsSlug s
canonical s t a b = record { text = t; starts = a; ends = b }

-- The slug of any map ID has only the bytes `a` to `z`, `0` to `9` and `-`, and no dash at either
-- end. It may be empty.
pub map_slug-IsSlug : (id : Text) → IsSlug (map_slug id)
unfolding map_slug is_slug_char
map_slug-IsSlug id = if-both IsSlug _ (canonical (codes "island") refl refl refl) (
    if-both IsSlug _ (canonical (codes "scorched-earth") refl refl refl) (
      if-both IsSlug _ (canonical (codes "aberration") refl refl refl) (
        if-both IsSlug _ (canonical (codes "extinction") refl refl refl) (
          if-both IsSlug _ (canonical (codes "the-center") refl refl refl) (
            if-both IsSlug _ (canonical (codes "astraeos") refl refl refl) (
              if-both IsSlug _ (canonical (codes "club-ark") refl refl refl)
                (fallback_slug-IsSlug id)))))))

map-lower-id : (s : Text) → IsSlugText s → map lower s ≡ s
unfolding lower is_slug_char
map-lower-id [] h = refl
map-lower-id (c ∷ s) h = ground (arith, map-lower-id s)

map-dash-id : (s : Text) → IsSlugText s → map dash s ≡ s
unfolding dash is_slug_char
map-dash-id [] h = refl
map-dash-id (c ∷ s) h = ground (arith, map-dash-id s)

collapse-id : (s : Text) → IsSlugText s → collapse false s ≡ s
unfolding collapse
collapse-id [] h = refl
collapse-id (c ∷ s) h = ground (arith, collapse-id s)

trim_left-id : (s : Text) → starts_clean s ≡ true → trim_left b'-' s ≡ s
unfolding trim_left
trim_left-id [] h = refl
trim_left-id (c ∷ s) h = ground arith

trim_right-id : (s : Text) → ends_clean s ≡ true → trim_right b'-' s ≡ s
unfolding trim_right
trim_right-id [] h = refl
trim_right-id (c ∷ []) h = ground arith
trim_right-id (c ∷ (d ∷ s)) h = ground (arith, trim_right-id (d ∷ s))

IsSlugText-append : (s t : Text) → IsSlugText s → IsSlugText t → IsSlugText (s ++ t)
IsSlugText-append [] t h k = k
IsSlugText-append (c ∷ s) t h k = ground (arith, IsSlugText-append s t)

IsSlugText-reverse : (s : Text) → IsSlugText s → IsSlugText (reverse s)
IsSlugText-reverse [] h = refl
IsSlugText-reverse (c ∷ s) h =
    rw reverse-cons
      (IsSlugText-append (reverse s) (c ∷ []) (IsSlugText-reverse s (ground arith)) (ground arith))

-- A text with no underscore has no suffix `_wp`.
no_underscore : (s : Text) → IsSlugText s → has_prefix s (codes "pw_") ≡ false
unfolding has_prefix is_slug_char
no_underscore [] h = refl
no_underscore (a ∷ []) h = ground arith
no_underscore (a ∷ (b ∷ [])) h = ground arith
no_underscore (a ∷ (b ∷ (c ∷ s))) h = ground arith

trim_suffix-id : (s : Text) → IsSlugText s → trim_suffix s (codes "_wp") ≡ s
unfolding trim_suffix has_suffix
trim_suffix-id s h = rw (no_underscore (reverse s) (IsSlugText-reverse s h))

trim-id : (s : Text) → IsSlug s → trim b'-' s ≡ s
unfolding trim
trim-id s h = rw (trim_left-id s h.starts) (trim_right-id s h.ends)

fallback_slug-id : (s : Text) → IsSlug s → fallback_slug s ≡ s
unfolding fallback_slug
fallback_slug-id s h =
    rw (map-lower-id s h.text, trim_suffix-id s h.text, map-dash-id s h.text, collapse-id s h.text)
      (trim-id s h)

not_canonical : (s k : Text) → IsSlugText s → all is_slug_char k ≡ false → (s == k) ≡ false
not_canonical s k h n = elim (Bool-cases (s == k)) [
  | inl e ↦ absurd (false≢true (sym n ∙ subst IsSlugText ((==_iff s k).0 e) h))
  | inr e ↦ e
]

map_slug-id : (s : Text) → IsSlug s → map_slug s ≡ s
unfolding map_slug is_slug_char
map_slug-id s h =
    rw
      (
        not_canonical s (codes "TheIsland_WP") h.text refl,
        not_canonical s (codes "ScorchedEarth_WP") h.text refl,
        not_canonical s (codes "Aberration_WP") h.text refl,
        not_canonical s (codes "Extinction_WP") h.text refl,
        not_canonical s (codes "TheCenter_WP") h.text refl,
        not_canonical s (codes "Astraeos_WP") h.text refl,
        not_canonical s (codes "BobsMissions_WP") h.text refl,
      )
      (fallback_slug-id s h)

-- A slug is its own slug: the map ID `map_slug id` has the same resource names as the map ID `id`.
pub map_slug_idem : (id : Text) → map_slug (map_slug id) ≡ map_slug id
map_slug_idem id = map_slug-id (map_slug id) (map_slug-IsSlug id)
