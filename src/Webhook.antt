-- ===== src/Webhook.antt =====
-- internal/webhook/v1alpha1/arkcluster_webhook.go: the validation of a cluster that is created or
-- updated. The warnings are always nil; the API server passes the new object.
use ark_asa_operator.Prelude.{
  ℕ, ◌+◌, ◌^◌, ◌<◌, ◌≡◌, refl, ◌↔◌, Bool, true, false, ◌&&◌, not, ◌==◌, ℕ_eq, if◌then◌else◌, ◌++◌,
  length, codes, arith,
}
use ark_asa_operator.Prelude.Int.{pos}
use ark_asa_operator.Prelude.Decimal.{format_int}
use ark_asa_operator.Api.{ArkCluster}
use ark_asa_operator.Kube.{Result, ok, err, Error}
use ark_asa_operator.Ark.Ports.{port_conflict, port_conflict_iff, Clash}

abbrev phase1_single_map_enforced : Bool
phase1_single_map_enforced = false

unfoldable pub validate : ArkCluster → Result (Unit {0})
validate c =
    let maps = length c.spec.maps in
    if phase1_single_map_enforced && not (maps == 1)
    then err (Error.other (codes "phase 1 supports exactly one map; got " ++ format_int (pos maps)))
    else if port_conflict c.spec.service.game_port_start c.spec.service.rcon_port_start maps
    then err (
        Error.other (
          codes "game port range overlaps RCON port (gamePortStart="
          ++ (format_int c.spec.service.game_port_start
              ++ (codes ", rconPortStart="
                  ++ (format_int c.spec.service.rcon_port_start
                      ++ (codes ", maps=" ++ (format_int (pos maps) ++ codes ")")))))))
    else ok tt

unfoldable pub validate_create : ArkCluster → Result (Unit {0})
unfolding validate
validate_create obj = validate obj

-- The old object is not looked at.
unfoldable pub validate_update : ArkCluster → ArkCluster → Result (Unit {0})
unfolding validate
validate_update old obj = validate obj

unfoldable pub validate_delete : ArkCluster → Result (Unit {0})
validate_delete obj = ok tt

accepted_iff : (b : Bool) (e : Error) → ((if b then err e else ok (tt {0})) ≡ ok tt) ↔ (b ≡ false)
accepted_iff true e = ground arith
accepted_iff false e = (λ _. refl, λ _. refl)

conflict_iff :
    (c : ArkCluster) (g r : ℕ)
    → c.spec.service.game_port_start ≡ pos g
    → c.spec.service.rcon_port_start ≡ pos r
    → g + length c.spec.maps < 2 ^ 31
    → r + length c.spec.maps < 2 ^ 31
    → (port_conflict c.spec.service.game_port_start c.spec.service.rcon_port_start
          (length c.spec.maps)
        ≡ true)
      ↔ Clash g r (length c.spec.maps)
conflict_iff c g r eg er hg hr = rw (eg, er) (port_conflict_iff g r (length c.spec.maps) hg hr)

-- A test that decides `X`, negated.
free_iff :
    {X : Type 0} {Accepted : Type 0} (b : Bool)
    → Accepted ↔ (b ≡ false)
    → (b ≡ true) ↔ X
    → Accepted ↔ (X → ⊥)
free_iff true acc iff = (λ a. λ x. absurd (acc.0 a), λ n. elim (n (iff.0 refl)) [ ])
  where
    absurd : true ≡ false → ⊥
    absurd e = ground (arith, e)
free_iff false acc iff = (λ a. λ x. absurd (iff.1 x), λ n. acc.1 refl)
  where
    absurd : false ≡ true → ⊥
    absurd e = ground (arith, e)

-- A new object is accepted, on a create and on every update, if and only if no map's game port is a
-- map's RCON port, while the ports stay int32.
pub validate_iff :
    (old c : ArkCluster) (g r : ℕ)
    → c.spec.service.game_port_start ≡ pos g
    → c.spec.service.rcon_port_start ≡ pos r
    → g + length c.spec.maps < 2 ^ 31
    → r + length c.spec.maps < 2 ^ 31
    → ((validate_create c ≡ ok tt) ↔ (Clash g r (length c.spec.maps) → ⊥))
      × (validate_update old c ≡ validate_create c)
unfolding validate_create validate_update
validate_iff old c g r eg er hg hr =
    (free_iff _ (accepted_iff _ _) (conflict_iff c g r eg er hg hr), refl)
