-- ===== src/Ark/Slug.antt =====
-- internal/ark/slug.go: the DNS-1123 slug of a map ID. The custom resource admits ASCII IDs only, so
-- the model of `strings.ToLower` is that of ASCII.
pub mod Shape
use ark_asa_operator.Prelude.{
  ℕ, Bool, true, false, ◌&&◌, ◌||◌, leb, ◌==◌, ℕ_eq, List_eq, if◌then◌else◌, List, [], ◌∷◌, map,
  Text, codes, trim_suffix, trim, lower,
}

-- The class `[a-z0-9-]`.
unfoldable pub is_slug_char : ℕ → Bool
is_slug_char c = (leb b'a' c && leb c b'z') || (leb b'0' c && leb c b'9') || c == b'-'

-- `nonAlphanumDashRun.ReplaceAllString(s, "-")`, for `[^a-z0-9-]+`: each longest run of other bytes
-- becomes one dash. The flag says that the byte before belongs to a run.
unfoldable pub collapse : Bool → Text → Text
unfolding is_slug_char
collapse in_run [] = []
collapse in_run (c ∷ s) =
    let outside = collapse false s in
    let inside = collapse true s in
    if is_slug_char c then c ∷ outside else if in_run then inside else b'-' ∷ inside

-- `strings.ReplaceAll(s, "_", "-")`
unfoldable pub dash : ℕ → ℕ
dash c = if c == b'_' then b'-' else c

-- The statements after the `switch`.
unfoldable pub fallback_slug : Text → Text
fallback_slug id = trim b'-' (collapse false (map dash (trim_suffix (map lower id) (codes "_wp"))))

unfoldable pub map_slug : Text → Text
map_slug id =
    if id == codes "TheIsland_WP"
    then codes "island"
    else if id == codes "ScorchedEarth_WP"
    then codes "scorched-earth"
    else if id == codes "Aberration_WP"
    then codes "aberration"
    else if id == codes "Extinction_WP"
    then codes "extinction"
    else if id == codes "TheCenter_WP"
    then codes "the-center"
    else if id == codes "Astraeos_WP"
    then codes "astraeos"
    else if id == codes "BobsMissions_WP"
    then codes "club-ark"
    else fallback_slug id
