-- ===== src/ModUpdate/Annotation.antt =====
-- How a check of the mods reaches the cluster's reconciler: the annotation that it stamps is part of the
-- text whose digest is the pod-template hash.
use mathlib.Core.List.{append_cancel_left, append_cancel_right, append-nil}
use ark_asa_operator.Prelude.{
  ◌≡◌, ◌≢◌, refl, sym, ap, ◌∙◌, ℕ, true, false, ◌==◌, ==_iff, ==_refl, List_eq, ℕ_eq, if◌then◌else◌,
  length, List, [], ◌∷◌, ◌++◌, take, join, Option, none, some, Text, codes, arith, Bool-cases, inl,
  inr,
}
use ark_asa_operator.Prelude.Assoc.{value_at, lookup-insert}
use ark_asa_operator.Api.{ArkCluster, TrackedMod, MapSpec, SecretKeySelector}
use ark_asa_operator.Kube.{Result, ok, Sys, Client, Exec, pure, continue, ◌>>=◌}
use ark_asa_operator.Ark.Hash.{PodTemplateHashInput, hex_encode, template_text, pod_template_hash}
use ark_asa_operator.Controller.Template.{
  config_map_rev, secret_rev, launch_rev, annotation_mods_changed, config_map_version,
  secret_version, add_password_rev, compute_pod_hash,
}
use ark_asa_operator.ModUpdate.Merge.{hash_tracked}
use ark_asa_operator.ModUpdate.Pass.{stamp}
use ark_asa_operator.Ark.Ports.{game_port, rcon_port}
use ark_asa_operator.Reconcile.Names.{gus_config_map_name, game_config_map_name, secrets_name}
use ark_asa_operator.Reconcile.Pod.{mods_or}

-- The revision of the INI files with the annotation.
abbrev revision : Text → Text → Text
revision ini mark = if mark == [] then ini else ini ++ (codes "|mods=" ++ mark)

revision-bare : (ini mark : Text) → (mark == []) ≡ true → revision ini mark ≡ ini
revision-bare ini mark e = rw e refl

revision-full :
    (ini mark : Text) → (mark == []) ≡ false → revision ini mark ≡ ini ++ (codes "|mods=" ++ mark)
revision-full ini mark e = rw e refl

no_mark : (ini hash : Text) → ini ≢ ini ++ (codes "|mods=" ++ hash)
no_mark ini hash h =
    let e : [] ≡ codes "|mods=" ++ hash =
      append_cancel_left ini [] (codes "|mods=" ++ hash) (append-nil ini ∙ h) in
    ground (arith, e)

revision-marked :
    (ini mark hash : Text) → hash ≢ [] → mark ≢ hash → revision ini mark ≢ revision ini hash
revision-marked ini mark hash full other h =
    let marked = revision-full ini hash (ground (arith, full, ==_iff hash [])) in
    elim (Bool-cases (mark == [])) [
      | inl e ↦ no_mark ini hash (sym (revision-bare ini mark e) ∙ (h ∙ marked))
      | inr e ↦ other (
          append_cancel_left (codes "|mods=") mark hash
            (append_cancel_left ini _ _ (sym (revision-full ini mark e) ∙ (h ∙ marked))))
    ]

-- A piece before the separator is the same on both sides.
after_piece : (p xs ys : Text) → p ++ (codes "|" ++ xs) ≡ p ++ (codes "|" ++ ys) → xs ≡ ys
after_piece p xs ys h =
    append_cancel_left (codes "|") xs ys
      (append_cancel_left p (codes "|" ++ xs) (codes "|" ++ ys) h)

template_text-ini :
    (sha256 : Text → List ℕ) (i : PodTemplateHashInput) (x y : Text)
    → template_text sha256 (record i { ini_rev = x })
      ≡ template_text sha256 (record i { ini_rev = y })
    → x ≡ y
unfolding template_text join
template_text-ini sha256 i x y h = append_cancel_right x y _ (
    after_piece i.secrets_rev _ _
      (after_piece _ _ _ (after_piece _ _ _ (after_piece _ _ _ (after_piece i.image _ _ h)))))

module _ {W : Type 0} (k : Client W) where
  add_password_rev-annotated :
      (sel : Option SecretKeySelector) (own hash : Text) (s : Sys W)
      → (secret : Text) × ((add_password_rev k sel own s).0 ≡ ok secret)
        × ((add_password_rev k sel own (record s { cluster = stamp hash s.cluster })).0 ≡ ok secret)
  unfolding add_password_rev secret_version ◌>>=◌
  add_password_rev-annotated none own hash s = (own, refl, refl)
  add_password_rev-annotated (some sel) own hash s = (_, refl, refl)

  value_at-stamped :
      (hash : Text) (c : ArkCluster)
      → value_at annotation_mods_changed (stamp hash c).meta.annotations ≡ hash
  unfolding value_at
  value_at-stamped hash c = ground (
    arith,
    lookup-insert annotation_mods_changed hash annotation_mods_changed c.meta.annotations,
    ==_refl annotation_mods_changed,
  )

  -- The digest of a text.
  abbrev pub digest : Text → Text
  digest t = hex_encode (take 8 (k.sha256 t))

  then_pure :
      {A B : Type 0} (m : Exec W A) (f : A → B) (s : Sys W) (a : A)
      → (m s).0 ≡ ok a
      → ((m >>= λ x. pure (f x)) s).0 ≡ ok (f a)
  unfolding ◌>>=◌
  then_pure m f s a e = ap (λ (r : Result _). (continue r (λ x. pure (f x)) (m s).1).0) e

  hash_of_text :
      (m : MapSpec) (i : ℕ) (v : Text) (hash : Text) (s : Sys W)
      → (input : PodTemplateHashInput) × (ini : Text) × ((compute_pod_hash k m i v s).0
          ≡ ok (
              pod_template_hash k.sha256 (record input {
                ini_rev =
                    revision ini (value_at annotation_mods_changed s.cluster.meta.annotations);
              })))
        × ((compute_pod_hash k m i v (record s { cluster = stamp hash s.cluster })).0
            ≡ ok (
                pod_template_hash k.sha256 (record input {
                  ini_rev =
                      revision ini
                        (value_at annotation_mods_changed (stamp hash s.cluster).meta.annotations);
                })))
  unfolding compute_pod_hash config_map_version secret_version ◌>>=◌
  hash_of_text m i v hash s =
      let c = s.cluster in
      let gus = k.get_config_map c.meta.namespace (gus_config_map_name c.meta.name m.id) s.world in
      let game = k.get_config_map c.meta.namespace (game_config_map_name c.meta.name m.id) gus.1 in
      let own = k.get_secret c.meta.namespace (secrets_name c.meta.name) game.1 in
      let sel = c.spec.global_settings.server_password in
      let s1 : Sys W = record s { world = own.1 } in
      let (secret, plain, stamped) = add_password_rev-annotated sel (secret_rev k own.0) hash s1 in
      (
        record {
          image = c.spec.image;
          mods = mods_or c.spec.global_settings.mods m.mods;
          game_port = game_port c.spec.service.game_port_start i;
          rcon_port = rcon_port c.spec.service.rcon_port_start i;
          secrets_rev = secret;
          ini_rev = [];
          launch_rev = launch_rev c.spec;
          active_volume = v;
        },
        config_map_rev k gus.0 ++ (codes "|" ++ config_map_rev k game.0),
        then_pure (add_password_rev k sel (secret_rev k own.0)) _ s1 secret plain,
        then_pure (add_password_rev k sel (secret_rev k own.0)) _
            (record s1 { cluster = stamp hash c }) secret stamped,
      )

  hex_encode-full : (l : List ℕ) → length l ≡ 32 → hex_encode (take 8 l) ≢ []
  unfolding hex_encode
  hex_encode-full [] h e = ground (arith, h)
  hex_encode-full (b ∷ l) h e = ground (arith, e)

  -- The pod-template hash of a map is the digest of a text, and after a check has stamped the hash of its
  -- tracked mods on the cluster, that of a different text, with the same answers of the API server, if
  -- digests have 32 bytes and the annotation was not that hash before.
  pub compute_pod_hash-stamp :
      (m : MapSpec) (i : ℕ) (volume : Text) (tracked : List TrackedMod) (s : Sys W)
      → ((t : Text) → length (k.sha256 t) ≡ 32)
      → value_at annotation_mods_changed s.cluster.meta.annotations ≢ hash_tracked k.sha256 tracked
      → (t : Text) × (t' : Text) × ((compute_pod_hash k m i volume s).0 ≡ ok (digest t))
        × ((compute_pod_hash k m i volume
              (record s { cluster = stamp (hash_tracked k.sha256 tracked) s.cluster })).0
            ≡ ok (digest t'))
        × (t ≢ t')
  unfolding pod_template_hash hash_tracked
  compute_pod_hash-stamp m i volume tracked s full other =
      let hash = hash_tracked k.sha256 tracked in
      let old = value_at annotation_mods_changed s.cluster.meta.annotations in
      let new = value_at annotation_mods_changed (stamp hash s.cluster).meta.annotations in
      let (input, ini, before, after) = hash_of_text m i volume hash s in
      (
        template_text k.sha256 (record input { ini_rev = revision ini old }),
        template_text k.sha256 (record input { ini_rev = revision ini new }),
        before,
        after,
        λ same. revision-marked ini old hash (hex_encode-full _ (full _)) other (
            template_text-ini k.sha256 input (revision ini old) (revision ini new) same
            ∙ ap (revision ini) (value_at-stamped hash s.cluster)),
      )
