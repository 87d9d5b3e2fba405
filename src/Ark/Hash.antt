-- ===== src/Ark/Hash.antt =====
-- internal/ark/modset.go and internal/ark/hash.go: digests that name a mod set and a pod template.
-- SHA-256 is the parameter `sha256`, from the bytes of a text to the bytes of its digest.
use mathlib.Core.List.{Perm}
use ark_asa_operator.Prelude.{
  ℕ, ◌+◌, ◌-◌, ◌/◌, ◌%◌, ◌≡◌, ap, ltb, if◌then◌else◌, List, [], ◌∷◌, map, take, Text, codes, join,
}
use ark_asa_operator.Prelude.Int.{ℤ}
use ark_asa_operator.Prelude.Sorting.{ℤ_order, sort, sort-perm}
use ark_asa_operator.Prelude.Decimal.{format_int}

unfoldable pub hex_digit : ℕ → ℕ
hex_digit n = if ltb n 10 then b'0' + n else b'a' + (n - 10)

-- `hex.EncodeToString`
unfoldable pub hex_encode : List ℕ → Text
unfolding hex_digit
hex_encode [] = []
hex_encode (b ∷ bs) = hex_digit (b / 16) ∷ (hex_digit (b % 16) ∷ hex_encode bs)

-- The inputs of the pod-template hash.
pub record PodTemplateHashInput : Type 0 where
  pub image : Text
  pub mods : List ℤ
  pub game_port : ℤ
  pub rcon_port : ℤ
  pub secrets_rev : Text
  pub ini_rev : Text
  pub launch_rev : Text
  pub active_volume : Text

ℤ-list-set : IsSet (List ℤ)
ℤ-list-set = hlevel

module _ (sha256 : Text → List ℕ) where
  unfoldable pub mod_set_hash : List ℤ → Text
  mod_set_hash mods = hex_encode (take 8 (sha256 (join (map format_int (sort mods)) (codes ","))))

  -- `fmt.Sprintf("%s|%s|%d|%d|%s|%s|%s|%s", …)`
  unfoldable pub template_text : PodTemplateHashInput → Text
  template_text i =
      join
        (i.image
          ∷ mod_set_hash i.mods
          ∷ format_int i.game_port
          ∷ format_int i.rcon_port
          ∷ i.secrets_rev
          ∷ i.ini_rev
          ∷ i.launch_rev
          ∷ i.active_volume
          ∷ [])
        (codes "|")

  unfoldable pub pod_template_hash : PodTemplateHashInput → Text
  pod_template_hash i = hex_encode (take 8 (sha256 (template_text i)))

  -- The digest of a mod set does not depend on the order in which the mods are listed.
  pub mod_set_hash-perm : {xs ys : List ℤ} → Perm xs ys → mod_set_hash xs ≡ mod_set_hash ys
  unfolding mod_set_hash
  mod_set_hash-perm p =
      ap (λ (l : List ℤ). hex_encode (take 8 (sha256 (join (map format_int l) (codes ",")))))
        (sort-perm ℤ-list-set p)

  -- Two pod templates that differ only in the order of their mods have the same hash, so reordering
  -- the mods of a map does not roll its pod.
  pub pod_template_hash-perm :
      (i : PodTemplateHashInput) (ys : List ℤ)
      → Perm i.mods ys
      → pod_template_hash i ≡ pod_template_hash (record i { mods = ys })
  unfolding pod_template_hash template_text
  pod_template_hash-perm i ys p = rw (mod_set_hash-perm p)
