-- ===== src/Reconcile/Ini.antt =====
-- internal/reconcile/configmap.go: the INI files of a map, with the RCON settings that the operator
-- needs put into the section [ServerSettings].
pub mod Defaults
pub mod Lines
pub mod Stable
use ark_asa_operator.Prelude.{
  ℕ, zero, suc, Bool, true, false, ◌&&◌, ◌||◌, ◌==◌, List_eq, ℕ_eq, if◌then◌else◌, List, [], ◌∷◌,
  ◌++◌, take, drop, Option, none, some, Text, codes, join, split, has_prefix, has_suffix,
  trim_space,
}
use ark_asa_operator.Prelude.Int.{ℤ, pos, int32, ◌+ℤ◌}
use ark_asa_operator.Prelude.Decimal.{format_int}
use ark_asa_operator.Prelude.Assoc.{value_at, insert}
use ark_asa_operator.Api.{MapSpec, GlobalSettings, ConfigMapRef}
use ark_asa_operator.Kube.{
  Result, ok, err, ConfigMap, Client, Exec, pure, attempt, call, ◌>>=◌, ◌>>◌, cluster_now,
}
use ark_asa_operator.Reconcile.Names.{gus_config_map_name, game_config_map_name}
use ark_asa_operator.Reconcile.Pod.{find_map}
use ark_asa_operator.Reconcile.Storage.{cluster_label}

abbrev pub newline : ℕ
newline = 10

abbrev pub server_settings : Text
server_settings = codes "[ServerSettings]"

abbrev pub rcon_enabled : Text
rcon_enabled = codes "RCONEnabled=True"

unfoldable pub rcon_port_line : ℤ → Text
rcon_port_line port = codes "RCONPort=" ++ format_int port

-- The first line that is the section's header.
unfoldable pub header_index : List Text → Option ℕ
header_index [] = none
header_index (l ∷ ls) = elim (trim_space l == server_settings) [
  | true ↦ some zero
  | false ↦ elim (header_index ls) [ none ↦ none | some i ↦ some (suc i) ]
]

-- The lines of the section after its header: how many there are, and which settings they have.
pub record Section : Type 0 where
  pub size : ℕ
  pub has_enabled : Bool
  pub has_port : Bool

abbrev no_lines : Section
no_lines = record { size = 0; has_enabled = false; has_port = false }

unfoldable pub is_header : Text → Bool
is_header t = has_prefix t (codes "[") && has_suffix t (codes "]")

-- The loop over the lines after the header.
unfoldable pub scan : List Text → Section
scan [] = no_lines
scan (l ∷ ls) =
    let t = trim_space l in
    let rest = scan ls in
    if is_header t then no_lines else record {
      size = suc rest.size;
      has_enabled = has_prefix t (codes "RCONEnabled=") || rest.has_enabled;
      has_port = has_prefix t (codes "RCONPort=") || rest.has_port;
    }

unfoldable pub inject : Section → ℤ → List Text
inject s port =
    (if s.has_enabled then [] else rcon_enabled ∷ [])
    ++ (if s.has_port then [] else rcon_port_line port ∷ [])

-- The lines with what is missing put behind the header at `start`.
unfoldable pub add_missing : List Text → ℕ → Section → ℤ → List Text
add_missing lines start s port =
    let rest = drop (suc start) lines in
    take (suc start) lines ++ (inject s port ++ (take s.size rest ++ drop s.size rest))

unfoldable pub ensure_gus_defaults : Text → ℤ → Text
ensure_gus_defaults content port =
    if content == []
    then codes "[ServerSettings]\nRCONEnabled=True\n" ++ (rcon_port_line port ++ (newline ∷ []))
    else let lines = split newline content in
      elim (header_index lines) [
        | none ↦
            join (server_settings ∷ rcon_enabled ∷ rcon_port_line port ∷ [] ∷ lines) (newline ∷ [])
        | some start ↦
            let s = scan (drop (suc start) lines) in
            if s.has_enabled && s.has_port
            then content
            else join (add_missing lines start s port) (newline ∷ [])
      ]

-- The two keys that `resolveINI` is called with.
pub data IniFile : Type 0 where
  gus game : IniFile

abbrev key_of : IniFile → Text
key_of IniFile.gus = codes "GameUserSettings.ini"
key_of IniFile.game = codes "Game.ini"

abbrev map_ref : IniFile → MapSpec → Option ConfigMapRef
map_ref IniFile.gus m = m.game_user_settings
map_ref IniFile.game m = m.game

abbrev global_ref : IniFile → GlobalSettings → Option ConfigMapRef
global_ref IniFile.gus gs = gs.game_user_settings
global_ref IniFile.game gs = gs.game

-- The map's reference if it has one, else the global one.
unfoldable pub ini_ref : IniFile → Option MapSpec → GlobalSettings → Option ConfigMapRef
ini_ref file none gs = global_ref file gs
ini_ref file (some m) gs = elim (map_ref file m) [ some r ↦ some r | none ↦ global_ref file gs ]

-- `findMapIndex`: 0 if no map has the ID.
unfoldable pub index_from : Text → List MapSpec → Option ℕ
index_from id [] = none
index_from id (m ∷ maps) = elim (m.id == id) [
  | true ↦ some zero
  | false ↦ elim (index_from id maps) [ none ↦ none | some i ↦ some (suc i) ]
]

unfoldable pub find_map_index : Text → List MapSpec → ℕ
unfolding index_from
find_map_index id maps = elim (index_from id maps) [ none ↦ zero | some i ↦ i ]

-- The mutation that `writeINIConfigMap` passes on.
unfoldable pub set_config_map : Text → Text → Text → ConfigMap → ConfigMap
set_config_map owner key content cm = record cm {
  entries = insert key content cm.entries;
  labels = insert cluster_label owner cm.labels;
}

module _ {W : Type 0} (k : Client W) where
  abbrev content_of : Text → Result ConfigMap → Text
  content_of key (ok cm) = value_at key cm.entries
  content_of key (err e) = []

  -- Every error reads as an empty file.
  unfoldable pub resolve_ini : Option MapSpec → IniFile → Exec W Text
  resolve_ini map_spec file = do
    c ← cluster_now
    elim (ini_ref file map_spec c.spec.global_settings) [
      | none ↦ pure []
      | some r ↦ (do
        cm ← attempt (call (k.get_config_map c.meta.namespace r.name))
        pure (content_of (key_of file) cm))
    ]

  unfoldable pub write_ini_config_map : Text → Text → Text → Exec W (Unit {0})
  write_ini_config_map name key content = do
    c ← cluster_now
    call (k.apply_config_map c.meta.namespace name (set_config_map c.meta.name key content))

  unfoldable pub ensure_map_ini_config_maps : Text → Exec W (Unit {0})
  ensure_map_ini_config_maps map_id = do
    c ← cluster_now
    let map_spec = find_map map_id c.spec.maps
    user ← resolve_ini map_spec IniFile.gus
    game_ini ← resolve_ini map_spec IniFile.game
    let port =
        int32 (c.spec.service.rcon_port_start +ℤ int32 (pos (find_map_index map_id c.spec.maps)))
    write_ini_config_map (gus_config_map_name c.meta.name map_id) (codes "GameUserSettings.ini")
        (ensure_gus_defaults user port)
    write_ini_config_map (game_config_map_name c.meta.name map_id) (codes "Game.ini") game_ini
