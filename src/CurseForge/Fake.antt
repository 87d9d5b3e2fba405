-- ===== src/CurseForge/Fake.antt =====
-- internal/curseforge/fake/server.go: the handler that stands for the API in the operator's tests, and
-- what the client gets from it.
use ark_asa_operator.Prelude.{
  ◌≡◌, refl, ap, ◌∙◌, true, ◌==◌, ==_iff, ℕ_eq, if◌then◌else◌, List, [], ◌∷◌, any, Text, Option,
  none, some, Option-cases, inl, inr, arith,
}
use mathlib.Core.Option
use ark_asa_operator.Prelude.Int.{ℤ, pos, ℤ_eq}
use ark_asa_operator.Prelude.Assoc.{lookup, insert, lookup-insert}
use ark_asa_operator.Kube.{ok, Sys, Client, ◌>>=◌}
use ark_asa_operator.CurseForge.{
  HttpRequest, ModApi, ModClient, get_files, after_request, read_response, infos_of, mods_request,
  ModInfo, ApiMod, latest_file, info_of_mod, infos_from,
}

pub record FakeMod : Type 0 where
  pub slug : Text
  pub latest_file_id : ℤ
  pub latest_version : Text

unfoldable pub data_entry : ℤ → FakeMod → ApiMod
data_entry id m = record {
  id = id;
  slug = m.slug;
  files = record { id = m.latest_file_id; display_name = m.latest_version; is_latest = true } ∷ [];
}

-- The loop over the map of mods, for a request with no IDs.
unfoldable pub all_entries : List (ℤ × FakeMod) → List ApiMod
all_entries [] = []
all_entries ((id, m) ∷ mods) = data_entry id m ∷ all_entries mods

abbrev pub add_entry : ℤ → Option FakeMod → List ApiMod → List ApiMod
add_entry id none rest = rest
add_entry id (some m) rest = data_entry id m ∷ rest

-- The loop over the IDs of the request; unknown ones are left out.
unfoldable pub entries_for : List (ℤ × FakeMod) → List ℤ → List ApiMod
entries_for mods [] = []
entries_for mods (id ∷ ids) = add_entry id (lookup id mods) (entries_for mods ids)

-- `Handler`, from the mods and the IDs of the request to the entries of the response.
unfoldable pub handler : List (ℤ × FakeMod) → List ℤ → List ApiMod
unfolding entries_for all_entries
handler mods [] = all_entries mods
handler mods (id ∷ ids) = entries_for mods (id ∷ ids)

-- What the client makes of a mod of the fake.
unfoldable pub expected : ℤ → FakeMod → ModInfo
expected id m = record {
  id = id;
  slug = m.slug;
  latest_file_id = m.latest_file_id;
  latest_version = m.latest_version;
}

-- What a lookup finds in the client's map, from a map `result` on, after a response for the IDs.
abbrev found : List (ℤ × FakeMod) → List ℤ → List (ℤ × ModInfo) → ℤ → Option ModInfo
found mods ids result key =
    if any (λ id. id == key) ids
    then elim (lookup key mods) [ none ↦ lookup key result | some m ↦ some (expected key m) ]
    else lookup key result

infos_from-entry :
    (mods : List (ℤ × FakeMod)) (id : ℤ) (ids : List ℤ) (result : List (ℤ × ModInfo)) (key : ℤ)
    (o : Option FakeMod)
    → lookup id mods ≡ o
    → ((r : List (ℤ × ModInfo))
        → lookup key (infos_from r (entries_for mods ids)) ≡ found mods ids r key)
    → lookup key (infos_from result (add_entry id o (entries_for mods ids)))
      ≡ found mods (id ∷ ids) result key
unfolding infos_from data_entry info_of_mod latest_file expected
infos_from-entry mods id ids result key none e ih =
    ground (arith, e, ih result, ==_iff id key, ap (λ (i : ℤ). lookup i mods))
infos_from-entry mods id ids result key (some m) e ih = ground (
  arith,
  e,
  ih (insert id (expected id m) result),
  lookup-insert id (expected id m) key result,
  ==_iff id key,
  ap (λ (i : ℤ). lookup i mods),
)

infos_from-entries :
    (mods : List (ℤ × FakeMod)) (ids : List ℤ) (result : List (ℤ × ModInfo)) (key : ℤ)
    → lookup key (infos_from result (entries_for mods ids)) ≡ found mods ids result key
unfolding infos_from entries_for
infos_from-entries mods [] result key = refl
infos_from-entries mods (id ∷ ids) result key =
    infos_from-entry mods id ids result key (lookup id mods) refl
      λ r. infos_from-entries mods ids r key

found_nil :
    (mods : List (ℤ × FakeMod)) (ids : List ℤ) (key : ℤ)
    → found mods ids [] key
      ≡ (if any (λ x. x == key) ids then Option.map (expected key) (lookup key mods) else none)
unfolding lookup
found_nil mods ids key = elim (Option-cases (lookup key mods)) [
  | inl e ↦ ground (arith, e)
  | inr (m, e) ↦ ground (arith, e)
]

-- The API as the fake serves it at `/v1/mods`, with a JSON codec.
module _ (W : Type 0) (k : Client W) (api : ModApi W) (unmarshal : Text → List ℤ)
    (encode : List ApiMod → Text) (mods : List (ℤ × FakeMod)) where
  -- Requests are sent, and answered by the handler with status 200; the codec gives the IDs of the
  -- request back, and the entries of its response.
  abbrev pub Served : List ℤ → Type 0
  Served ids =
      ((req : HttpRequest) → api.new_request req ≡ ok tt)
      × ((req : HttpRequest) (w : W)
          → (api.send_request req w).0
            ≡ ok (record {
              status_code = pos 200;
              body = encode (handler mods (unmarshal req.body));
            }))
      × (unmarshal (api.marshal_mod_ids ids) ≡ ids)
      × (api.decode_mods (encode (handler mods ids)) ≡ ok (handler mods ids))

  -- For at least one ID, the client gets from the fake the mods that were asked for and that the fake
  -- has, each under its ID with its slug, latest file and version, and nothing else, if the codec gives
  -- back what it encodes.
  pub get_files-handler :
      (c : ModClient) (id : ℤ) (ids : List ℤ) (s : Sys W)
      → Served (id ∷ ids)
      → (info : List (ℤ × ModInfo)) × ((get_files k api c (id ∷ ids) s).0 ≡ ok info)
        × ((key : ℤ)
            → lookup key info ≡ (
                if any (λ x. x == key) (id ∷ ids)
                then Option.map (expected key) (lookup key mods)
                else none))
  unfolding get_files after_request read_response infos_of ◌>>=◌ handler mods_request
  get_files-handler c id ids s (built, sent, parsed, decoded) = (
    infos_from [] (entries_for mods (id ∷ ids)),
    ground (
      arith,
      built (mods_request c (api.marshal_mod_ids (id ∷ ids))),
      sent (mods_request c (api.marshal_mod_ids (id ∷ ids))) s.world,
      parsed,
      decoded,
    ),
    λ key. infos_from-entries mods (id ∷ ids) [] key ∙ found_nil mods (id ∷ ids) key,
  )
