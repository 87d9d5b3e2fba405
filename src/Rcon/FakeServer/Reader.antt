-- ===== src/Rcon/FakeServer/Reader.antt =====
-- The client's reads from a network that holds the bytes that have arrived.
use ark_asa_operator.Prelude.{◌≡◌, refl, ℕ, Bool, true, false, if◌then◌else◌}
use mathlib.Core.Path.{subst}
use ark_asa_operator.Prelude.Int.{ℤ, ℤ_eq}
use ark_asa_operator.Kube.{Error, Result, ok, err}
use ark_asa_operator.Rcon.Wire.{Bytes, read_bytes, read_packet, read_rest, ◌then_with◌}

module _ {W : Type 0} (inbox : W → Bytes) where
  -- A reader of the world does what a reader of the bytes does that have arrived.
  abbrev pub Same : {A : Type 0} → Result A × W → Result A × Bytes → Type 0
  Same x y = (x.0 ≡ y.0) × (inbox x.1 ≡ y.1)

  Same-start :
      {A B : Type 0} (r : Result A) (w : W) (f : A → W → Result B × W)
      (g : A → Bytes → Result B × Bytes)
      → ((a : A) (u : W) → Same (f a u) (g a (inbox u)))
      → Same ((r, w) then_with f) ((r, inbox w) then_with g)
  Same-start (ok a) w f g h = h a w
  Same-start (err e) w f g h = (refl, refl)

  Same-then :
      {A B : Type 0} (x : Result A × W) (y : Result A × Bytes) (f : A → W → Result B × W)
      (g : A → Bytes → Result B × Bytes)
      → Same x y
      → ((a : A) (u : W) → Same (f a u) (g a (inbox u)))
      → Same (x then_with f) (y then_with g)
  Same-then x y f g (e, e') h =
      subst (λ (z : Result _ × Bytes). Same (x then_with f) (z then_with g)) (cc (e, e'))
        (Same-start x.0 x.1 f g h)

  module _ (read : ℕ → W → Result Bytes × W)
      (reads : (n : ℕ) (w : W) → Same (read n w) (read_bytes n (inbox w))) where
    Same-rest : (len : ℤ) (w : W) → Same (read_rest read len w) (read_rest read_bytes len (inbox w))
    unfolding read_rest
    Same-rest len w = search (Same-then, reads) depth 16

    Same-checked :
        (b : Bool) (len : ℤ) (e : Error) (w : W)
        → Same
            (if b then (err e, w) else read_rest read len w)
            (if b then (err e, inbox w) else read_rest read_bytes len (inbox w))
    Same-checked true len e w = (refl, refl)
    Same-checked false len e w = Same-rest len w

    pub Same-packet : (w : W) → Same (read_packet read w) (read_packet read_bytes (inbox w))
    unfolding read_packet
    Same-packet w = search (Same-then, reads, Same-checked) depth 16
