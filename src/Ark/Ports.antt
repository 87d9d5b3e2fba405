-- ===== src/Ark/Ports.antt =====
-- internal/ark/ports.go: the ports of each map, and the test for overlapping port ranges.
use ark_asa_operator.Prelude.{
  ℕ, zero, suc, ◌+◌, ◌-◌, ◌^◌, ◌<◌, ◌≡◌, refl, sym, ap, ◌∙◌, ◌↔◌, Bool, true, false, ◌&&◌, ltb,
  if◌then◌else◌, arith,
}
use native.Mathlib.Decide.{dec_lt}
use ark_asa_operator.Prelude.Int.{ℤ, pos, ◌+ℤ◌, ◌-ℤ◌, leb_ℤ, int32}

unfoldable pub game_port : ℤ → ℕ → ℤ
unfolding int32 ◌+ℤ◌
game_port start index = int32 (start +ℤ int32 (pos index))

unfoldable pub rcon_port : ℤ → ℕ → ℤ
unfolding int32 ◌+ℤ◌
rcon_port start index = int32 (start +ℤ int32 (pos index))

-- `map_count` is the length of a slice.
unfoldable pub port_conflict : ℤ → ℤ → ℕ → Bool
port_conflict game_start rcon_start map_count =
    if ltb map_count 1
    then false
    else let game_end = int32 (int32 (game_start +ℤ int32 (pos map_count)) -ℤ pos 1) in
      let rcon_end = int32 (int32 (rcon_start +ℤ int32 (pos map_count)) -ℤ pos 1) in
      leb_ℤ game_start rcon_end && leb_ℤ rcon_start game_end

-- A map's game port is the start plus its index, with no wrap-around, while the sum is an int32.
pub game_port_lem : (a i : ℕ) → a + i < 2 ^ 31 → game_port (pos a) i ≡ pos (a + i)
unfolding game_port
game_port_lem a i h = ground arith

pub rcon_port_lem : (a i : ℕ) → a + i < 2 ^ 31 → rcon_port (pos a) i ≡ pos (a + i)
unfolding rcon_port
rcon_port_lem a i h = ground arith

range_sum : (g n : ℕ) → g + n < 2 ^ 31 → int32 (pos g +ℤ int32 (pos n)) ≡ pos (g + n)
unfolding int32 ◌+ℤ◌
range_sum g n h = ground arith

pred_int32 : (m : ℕ) → 0 < m → m < 2 ^ 31 → int32 (pos m -ℤ pos 1) ≡ pos (m - 1)
unfolding int32 ◌-ℤ◌
pred_int32 m h k = ground arith

range_end :
    (g n : ℕ)
    → 0 < n
    → g + n < 2 ^ 31
    → int32 (int32 (pos g +ℤ int32 (pos n)) -ℤ pos 1) ≡ pos (g + n - 1)
range_end g n h k = rw (range_sum g n k) (pred_int32 (g + n) (omega arith) k)

-- Below 2 ^ 31 the test is that of the two intervals.
port_conflict_lem :
    (g r n : ℕ)
    → g + n < 2 ^ 31
    → r + n < 2 ^ 31
    → port_conflict (pos g) (pos r) n ≡ (ltb 0 n && (ltb g (r + n) && ltb r (g + n)))
unfolding port_conflict
port_conflict_lem g r zero hg hr = refl
port_conflict_lem g r (suc n) hg hr =
    rw (range_end g (suc n) (omega arith) hg, range_end r (suc n) (omega arith) hr) (ground arith)

-- Two maps, of which the game port of the one is the RCON port of the other.
abbrev pub Clash : ℕ → ℕ → ℕ → Type 0
Clash g r n = (i : ℕ) × (j : ℕ) × (i < n) × (j < n) × (game_port (pos g) i ≡ rcon_port (pos r) j)

same_port :
    (g r i j : ℕ) → g + i ≡ r + j → g + i < 2 ^ 31 → game_port (pos g) i ≡ rcon_port (pos r) j
same_port g r i j e h = game_port_lem g i h ∙ ap pos e ∙ sym (rcon_port_lem r j (omega arith))

-- While the ports stay int32, the test reports a conflict exactly when the game port of some map is
-- the RCON port of some map.
pub port_conflict_iff :
    (g r n : ℕ)
    → g + n < 2 ^ 31
    → r + n < 2 ^ 31
    → (port_conflict (pos g) (pos r) n ≡ true) ↔ Clash g r n
port_conflict_iff g r n hg hr = (meet, clash)
  where
    meet : port_conflict (pos g) (pos r) n ≡ true → Clash g r n
    meet h = elim (dec_lt g r) [
      | yes p ↦ (
        r - g,
        0,
        ground (arith, port_conflict_lem g r n hg hr),
        ground (arith, port_conflict_lem g r n hg hr),
        same_port g r (r - g) 0 (omega arith) (ground (arith, port_conflict_lem g r n hg hr)),
      )
      | no p ↦ (
        0,
        g - r,
        ground (arith, port_conflict_lem g r n hg hr),
        ground (arith, port_conflict_lem g r n hg hr),
        same_port g r 0 (g - r) (omega arith) (omega arith),
      )
    ]

    clash : Clash g r n → port_conflict (pos g) (pos r) n ≡ true
    clash (i, j, hi, hj, e) =
        let same : pos (g + i) ≡ pos (r + j) =
          sym (game_port_lem g i (omega arith)) ∙ e ∙ rcon_port_lem r j (omega arith) in
        ground (arith, port_conflict_lem g r n hg hr)
