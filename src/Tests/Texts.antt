-- ===== src/Tests/Texts.antt =====
-- Slugs, ports, hashes and packets.
use ark_asa_operator.Prelude.{
  some, split, drop, ◌≡◌, refl, ◌↔◌, [], ◌∷◌, ◌++◌, codes, arith, Text, List, ℕ, true, zero, suc,
  length, ap,
}
use ark_asa_operator.Prelude.Int.{pos}
use mathlib.Core.List.{Perm, Permᴰ}
use ark_asa_operator.Kube.{ok}
use ark_asa_operator.Ark.Slug.{map_slug}
use ark_asa_operator.Ark.Slug.Shape.{IsSlug, map_slug-IsSlug, map_slug_idem}
use ark_asa_operator.Ark.Ports.{port_conflict, port_conflict_iff, Clash}
use ark_asa_operator.Ark.Hash.{PodTemplateHashInput, pod_template_hash, pod_template_hash-perm}
use ark_asa_operator.Reconcile.Ini.{scan, header_index, ensure_gus_defaults, newline}
use ark_asa_operator.Reconcile.Ini.Defaults.{HasBoth}
use ark_asa_operator.Reconcile.Ini.Stable.{ensure_gus_defaults_again}
use ark_asa_operator.Rcon.Wire.{write_packet, read_packet, read_bytes}
use ark_asa_operator.Rcon.Wire.RoundTrip.{read_packet-write_packet}

-- So many bytes.
long_text : ℕ → Text
long_text zero = []
long_text (suc n) = b'x' ∷ long_text n

length-long_text : (n : ℕ) → length (long_text n) ≡ n
unfolding long_text
length-long_text zero = refl
length-long_text (suc n) = ap suc (length-long_text n)

map_slug-IsSlug_example : IsSlug (map_slug (codes "TheIsland_WP"))
map_slug-IsSlug_example = map_slug-IsSlug (codes "TheIsland_WP")

map_slug_idem_example : map_slug (map_slug (codes "My_Own Map")) ≡ map_slug (codes "My_Own Map")
map_slug_idem_example = map_slug_idem (codes "My_Own Map")

port_conflict_iff_example : (port_conflict (pos 7777) (pos 7779) 3 ≡ true) ↔ Clash 7777 7779 3
port_conflict_iff_example = port_conflict_iff 7777 7779 3 (omega arith) (omega arith)

abbrev toy_digest : Text → List ℕ
toy_digest t = t

abbrev template : PodTemplateHashInput
template = record {
  image = codes "img";
  mods = pos 2 ∷ pos 1 ∷ [];
  game_port = pos 7777;
  rcon_port = pos 27020;
  secrets_rev = [];
  ini_rev = [];
  launch_rev = [];
  active_volume = codes "server-a";
}

abbrev swap_mods : Perm (pos 2 ∷ pos 1 ∷ []) (pos 1 ∷ pos 2 ∷ [])
swap_mods = ∣ Permᴰ.swap refl refl ∣₁

pod_template_hash-perm_example :
    pod_template_hash toy_digest template
    ≡ pod_template_hash toy_digest (record template { mods = pos 1 ∷ pos 2 ∷ [] })
pod_template_hash-perm_example =
    pod_template_hash-perm toy_digest template (pos 1 ∷ pos 2 ∷ []) swap_mods

read_packet-write_packet_example :
    read_packet read_bytes (write_packet (pos 7) (pos 2) (codes "DoExit") ++ codes "rest") ≡ (
      ok (record { length = pos 16; id = pos 7; typ = pos 2; body = codes "DoExit" }),
      codes "rest",
    )
read_packet-write_packet_example =
    read_packet-write_packet (pos 7) (pos 2) (codes "DoExit") (codes "rest") (omega arith)
      (omega arith) (omega arith) (omega arith) (omega arith)

-- A file with the section, one of its keys, and another section.
abbrev ini_file : Text
ini_file = codes "[ServerSettings]\nRCONPort=1\n[Other]"

ensure_gus_defaults_again_example :
    ((start : ℕ) × (header_index (split newline (ensure_gus_defaults ini_file (pos 27020)))
        ≡ some start)
      × HasBoth
          (scan (drop (suc start) (split newline (ensure_gus_defaults ini_file (pos 27020))))))
    × (ensure_gus_defaults (ensure_gus_defaults ini_file (pos 27020)) (pos 27021)
        ≡ ensure_gus_defaults ini_file (pos 27020))
ensure_gus_defaults_again_example = ensure_gus_defaults_again ini_file (pos 27020) (pos 27021)
