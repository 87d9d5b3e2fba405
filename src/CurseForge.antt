-- ===== src/CurseForge.antt =====
-- internal/curseforge/client.go: the mods' latest files from the CurseForge API. `net/http` and
-- `encoding/json` are the parameter `ModApi`; a key of the response that is missing decodes as zero.
pub mod Fake
use ark_asa_operator.Prelude.{
  ℕ, Bool, true, false, ◌==◌, ℕ_eq, if◌then◌else◌, List, [], ◌∷◌, ◌++◌, String, Text, codes,
}
use ark_asa_operator.Prelude.Int.{ℤ, pos, ℤ_eq}
use ark_asa_operator.Prelude.Decimal.{format_int}
use ark_asa_operator.Prelude.Assoc.{insert}
use ark_asa_operator.Kube.{
  Error, Result, ok, err, Client, Exec, raise, lift, attempt, call, ◌>>=◌, ◌>>◌,
}

pub record ModInfo : Type 0 where
  pub id : ℤ
  pub slug : Text
  pub latest_file_id : ℤ
  pub latest_version : Text

-- `modsAPIResponse`: one entry of `latestFiles`, one of `data`.
pub record ApiFile : Type 0 where
  pub id : ℤ
  pub display_name : Text
  pub is_latest : Bool

pub record ApiMod : Type 0 where
  pub id : ℤ
  pub slug : Text
  pub files : List ApiFile

pub record HttpRequest : Type 0 where
  pub method : Text
  pub url : Text
  pub headers : List (Text × Text)
  pub body : Text

pub record HttpResponse : Type 0 where
  pub status_code : ℤ
  pub body : Text

-- `http.NewRequestWithContext`, the round trip of `http.Client.Do`, and the JSON of the two bodies.
pub record ModApi (W : Type 0) : Type 0 where
  pub new_request : HttpRequest → Result (Unit {0})
  pub send_request : HttpRequest → W → Result HttpResponse × W
  pub marshal_mod_ids : List ℤ → Text
  pub decode_mods : Text → Result (List ApiMod)

pub record ModClient : Type 0 where
  pub base_url : Text
  pub api_key : Text

-- The loop over the files of a mod: the last one that is marked as the latest.
unfoldable pub latest_file : ℤ → Text → List ApiFile → ℤ × Text
latest_file id name [] = (id, name)
latest_file id name (f ∷ files) =
    latest_file (if f.is_latest then f.id else id) (if f.is_latest then f.display_name else name)
      files

unfoldable pub info_of_mod : ApiMod → ModInfo
unfolding latest_file
info_of_mod m =
    let (id, name) = latest_file (pos 0) [] m.files in
    record { id = m.id; slug = m.slug; latest_file_id = id; latest_version = name }

-- The loop over the mods of the response; `result` is a map.
unfoldable pub infos_from : List (ℤ × ModInfo) → List ApiMod → List (ℤ × ModInfo)
infos_from result [] = result
infos_from result (m ∷ mods) = infos_from (insert m.id (info_of_mod m) result) mods

unfoldable pub infos_of : Result (List ApiMod) → Result (List (ℤ × ModInfo))
unfolding infos_from
infos_of (ok mods) = ok (infos_from [] mods)
infos_of (err e) = err e

abbrev pub header : String → Text → Text × Text
header name value = (codes name, value)

unfoldable pub mods_request : ModClient → Text → HttpRequest
mods_request c body = record {
  method = codes "POST";
  url = c.base_url ++ codes "/v1/mods";
  headers =
      header "x-api-key" c.api_key
      ∷ header "Content-Type" (codes "application/json")
      ∷ header "Accept" (codes "application/json")
      ∷ [];
  body = body;
}

module _ {W : Type 0} (k : Client W) (api : ModApi W) where
  -- The wrapping of a transport error in "curseforge: ".
  abbrev pub transport_error : Error → Error
  transport_error (Error.other t) = Error.other (codes "curseforge: " ++ t)
  transport_error e = Error.other (codes "curseforge: " ++ k.error_text e)

  unfoldable pub read_response : HttpResponse → Result (List (ℤ × ModInfo))
  unfolding infos_of
  read_response resp =
      if resp.status_code == pos 200
      then infos_of (api.decode_mods resp.body)
      else err (Error.other (codes "curseforge status " ++ format_int resp.status_code))

  unfoldable pub after_request : Result HttpResponse → Result (List (ℤ × ModInfo))
  unfolding read_response
  after_request (ok resp) = read_response resp
  after_request (err e) = err (transport_error e)

  -- `GetFiles`
  unfoldable pub get_files : ModClient → List ℤ → Exec W (List (ℤ × ModInfo))
  get_files c ids = do
    let req = mods_request c (api.marshal_mod_ids ids)
    lift (api.new_request req)
    r ← attempt (call (api.send_request req))
    lift (after_request r)
