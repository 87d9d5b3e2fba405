-- ===== src/Rcon/FakeServer.antt =====
-- test/fake-ark-server/main.go: the game server of the end-to-end tests, `serve` and `writePkt`, from
-- the bytes that a connection brings until it ends to the bytes that are written to it. A failed write
-- has no effect on the loop.
pub mod Loop
pub mod Packets
pub mod Reader
pub mod Drain
use ark_asa_operator.Prelude.{
  ℕ, zero, suc, ◌+◌, ◌-◌, ◌||◌, ◌==◌, Bool, true, false, if◌then◌else◌, List, [], ◌∷◌, ◌++◌, length,
  drop, Option, none, some, codes,
}
use ark_asa_operator.Prelude.Int.{ℤ, pos, ℤ_eq, ltb_ℤ, int32, pos_part}
use ark_asa_operator.Kube.{Error, Result, ok, err}
use ark_asa_operator.Rcon.Wire.{Bytes, put_int32, get_int32, read_bytes}

unfoldable pub write_pkt : ℤ → ℤ → Bytes → Bytes
write_pkt id typ body =
    put_int32 (int32 (pos (4 + 4 + length body + 2)))
    ++ (put_int32 id ++ (put_int32 typ ++ (body ++ (0 ∷ (0 ∷ [])))))

-- `_ = binary.Read(conn, binary.LittleEndian, &x)`: an int32 that is not there reads as 0.
abbrev int32_or_zero : Result Bytes → ℤ
int32_or_zero (ok b) = get_int32 b
int32_or_zero (err e) = pos 0

-- The rest of a round, after the length: the answer, and the bytes that are left.
unfoldable pub answer : ℤ → Bytes → Bytes × Bytes
answer len s =
    let (id, s₁) = read_bytes 4 s in
    let (typ, s₂) = read_bytes 4 s₁ in
    (
      write_pkt (if int32_or_zero typ == pos 3 then pos 1 else int32_or_zero id) (pos 0)
          (codes "ok"),
      drop 2 (drop (pos_part len - 10) s₂),
    )

-- One round of the loop, after the read of the length; none if the loop returns.
unfoldable pub round_on : Result Bytes → Bytes → Option (Bytes × Bytes)
unfolding answer
round_on (err e) rest = none
round_on (ok bytes) rest =
    let len = get_int32 bytes in
    if ltb_ℤ len (pos 10) || ltb_ℤ (pos 4096) len then none else some (answer len rest)

unfoldable pub round : Bytes → Option (Bytes × Bytes)
unfolding round_on
round s = let (b, rest) = read_bytes 4 s in round_on b rest

-- The loop, for at most `fuel` rounds.
unfoldable pub serve_for : ℕ → Bytes → Bytes
unfolding round
serve_for zero s = []
serve_for (suc fuel) s = elim (round s) [
  | none ↦ []
  | some (out, rest) ↦ out ++ serve_for fuel rest
]

unfoldable pub serve : Bytes → Bytes
unfolding serve_for
serve s = serve_for (suc (length s)) s
