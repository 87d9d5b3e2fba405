-- ===== src/Ark/Launch.antt =====
-- internal/ark/launchcmd.go: the session name and the launch parameters of a server.
use ark_asa_operator.Prelude.{
  ◌==◌, ℕ_eq, List_eq, Bool, if◌then◌else◌, List, [], ◌∷◌, ◌++◌, map, Text, codes, join,
  replace_all,
}
use ark_asa_operator.Prelude.Int.{ℤ}
use ark_asa_operator.Prelude.Decimal.{format_int}
use ark_asa_operator.Api.{GlobalSettings}

unfoldable pub session_name : Text → Text → Text → Text → Text
session_name format cluster map_id friendly_map =
    let friendly = if friendly_map == [] then map_id else friendly_map in
    replace_all (replace_all format (codes "{cluster}") cluster) (codes "{map}") friendly

-- `"?" + strings.Join(params, "?")`, or nothing.
unfoldable pub compose_params : List Text → Text
compose_params [] = []
compose_params (p ∷ ps) = codes "?" ++ join (p ∷ ps) (codes "?")

unfoldable pub compose_extra_params : GlobalSettings → Text
unfolding compose_params
compose_extra_params gs = compose_params gs.extra_params

-- A dash before each option, joined by spaces.
unfoldable pub compose_options : List Text → Text
compose_options [] = []
compose_options (o ∷ os) = join (map (λ (t : Text). codes "-" ++ t) (o ∷ os)) (codes " ")

unfoldable pub compose_extra_options : GlobalSettings → Text
unfolding compose_options
compose_extra_options gs = compose_options gs.extra_options

pub record ExtraFlagsInput : Type 0 where
  pub cluster_dir : Text
  pub cluster_id : Text
  pub mods : List ℤ
  pub battl_eye_enabled : Bool
  pub allowed_platforms : List Text
  pub extra_options : Text

-- What is appended for the mods, and for the platforms: nothing for an empty slice.
unfoldable pub mods_flag : List ℤ → List Text
mods_flag [] = []
mods_flag (m ∷ ms) = (codes "-mods=" ++ join (map format_int (m ∷ ms)) (codes ",")) ∷ []

unfoldable pub platform_flag : List Text → List Text
platform_flag [] = []
platform_flag (p ∷ ps) = (codes "-ServerPlatform=" ++ join (p ∷ ps) (codes "+")) ∷ []

-- The slice `parts` at the end of `ExtraFlags`.
unfoldable pub extra_flag_parts : ExtraFlagsInput → List Text
extra_flag_parts i =
    ((codes "-ClusterDirOverride=" ++ i.cluster_dir) ∷ (codes "-clusterid=" ++ i.cluster_id) ∷ [])
    ++ (mods_flag i.mods
        ++ (platform_flag i.allowed_platforms
            ++ ((if i.extra_options == [] then [] else i.extra_options ∷ [])
                ++ ((if i.battl_eye_enabled then [] else codes "-NoBattlEye" ∷ [])
                    ++ (codes "-NoTransferFromFiltering" ∷ [])))))

unfoldable pub extra_flags : ExtraFlagsInput → Text
unfolding extra_flag_parts
extra_flags i = join (extra_flag_parts i) (codes " ")

unfoldable pub extra_settings : GlobalSettings → ℤ → Text
extra_settings gs rcon_port =
    join
      ((codes "?MaxPlayers=" ++ format_int gs.max_players)
        ∷ codes "?RCONEnabled=True"
        ∷ (codes "?RCONPort=" ++ format_int rcon_port)
        ∷ compose_extra_params gs
        ∷ [])
      []
