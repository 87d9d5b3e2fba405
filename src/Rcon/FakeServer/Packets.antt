-- ===== src/Rcon/FakeServer/Packets.antt =====
-- The server answers packet by packet.
use ark_asa_operator.Prelude.{
  ◌≡◌, refl, ap, ◌∙◌, ℕ, ◌+◌, ◌-◌, ◌^◌, ◌≤◌, ◌||◌, ◌==◌, false, if◌then◌else◌, ◌∷◌, ◌++◌, length,
  drop, some, codes, arith,
}
use ark_asa_operator.Prelude.Int.{ℤ, pos, negsuc, ℤ_eq, ◌≤ℤ◌, ltb_ℤ}
use ark_asa_operator.Kube.{Result, ok}
use ark_asa_operator.Rcon.Wire.{Bytes, put_int32, get_int32, read_bytes, write_packet}
use ark_asa_operator.Rcon.Wire.RoundTrip.{
  get_int32-put_int32, write_packet-append, length_field, read_bytes-put_int32, drop-length-append,
}
use ark_asa_operator.Rcon.FakeServer.{write_pkt, answer, round_on, round, serve}
use ark_asa_operator.Rcon.FakeServer.Loop.{after_round, serve_unrolls}

drop_body :
    (n : ℕ) (body rest : Bytes)
    → n ≡ length body
    → drop 2 (drop n (body ++ (0 ∷ (0 ∷ rest)))) ≡ rest
drop_body n body rest e =
    ap (λ (m : ℕ). drop 2 (drop m (body ++ (0 ∷ (0 ∷ rest))))) e
    ∙ ap (λ (t : Bytes). drop 2 t) (drop-length-append body (0 ∷ (0 ∷ rest)))

answer-packet :
    (id typ : ℤ) (body rest : Bytes)
    → negsuc (2 ^ 31 - 1) ≤ℤ id
    → id ≤ℤ pos (2 ^ 31 - 1)
    → negsuc (2 ^ 31 - 1) ≤ℤ typ
    → typ ≤ℤ pos (2 ^ 31 - 1)
    → answer
        (pos (length body + 10))
        (put_int32 id ++ (put_int32 typ ++ (body ++ (0 ∷ (0 ∷ rest)))))
      ≡ (write_pkt (if typ == pos 3 then pos 1 else id) (pos 0) (codes "ok"), rest)
unfolding answer
answer-packet id typ body rest a b c d =
    rw
      (
        read_bytes-put_int32 id (put_int32 typ ++ (body ++ (0 ∷ (0 ∷ rest)))),
        read_bytes-put_int32 typ (body ++ (0 ∷ (0 ∷ rest))),
        get_int32-put_int32 id a b,
        get_int32-put_int32 typ c d,
      )
      (ap (λ (t : Bytes). (write_pkt (if typ == pos 3 then pos 1 else id) (pos 0) (codes "ok"), t))
        (drop_body (length body + 10 - 10) body rest (omega arith)))

in_range :
    (len : ℤ) (s : Bytes)
    → get_int32 (put_int32 len) ≡ len
    → (ltb_ℤ len (pos 10) || ltb_ℤ (pos 4096) len) ≡ false
    → round_on (ok (put_int32 len)) s ≡ some (answer len s)
unfolding round_on
in_range len s e h = rw (e, h) refl

round-packet :
    (id typ : ℤ) (body rest : Bytes)
    → negsuc (2 ^ 31 - 1) ≤ℤ id
    → id ≤ℤ pos (2 ^ 31 - 1)
    → negsuc (2 ^ 31 - 1) ≤ℤ typ
    → typ ≤ℤ pos (2 ^ 31 - 1)
    → length body ≤ 4086
    → round (write_packet id typ body ++ rest)
      ≡ some (write_pkt (if typ == pos 3 then pos 1 else id) (pos 0) (codes "ok"), rest)
unfolding round
round-packet id typ body rest a b c d h =
    let tail = put_int32 id ++ (put_int32 typ ++ (body ++ (0 ∷ (0 ∷ rest)))) in
    let len = pos (length body + 10) in
    let start : write_packet id typ body ++ rest ≡ put_int32 len ++ tail =
      write_packet-append id typ body rest
      ∙ ap (λ (x : ℤ). put_int32 x ++ tail) (length_field (length body) (omega arith)) in
    ap (λ (t : Bytes). round_on (read_bytes 4 t).0 (read_bytes 4 t).1) start
    ∙ (ap (λ (p : Result Bytes × Bytes). round_on p.0 p.1) (read_bytes-put_int32 len tail)
        ∙ (in_range len tail (get_int32-put_int32 len (omega arith) (omega arith)) (ground arith)
            ∙ ap (λ (x : Bytes × Bytes). some x) (answer-packet id typ body rest a b c d)))

-- The server answers a packet of the client's, with an int32 ID and type and a body of at most 4086
-- bytes, by one packet of type 0 with the body "ok": with the ID 1 if the packet is a login, else with
-- its ID. It goes on with what follows the packet.
pub serve-write_packet :
    (id typ : ℤ) (body rest : Bytes)
    → negsuc (2 ^ 31 - 1) ≤ℤ id
    → id ≤ℤ pos (2 ^ 31 - 1)
    → negsuc (2 ^ 31 - 1) ≤ℤ typ
    → typ ≤ℤ pos (2 ^ 31 - 1)
    → length body ≤ 4086
    → serve (write_packet id typ body ++ rest)
      ≡ write_packet (if typ == pos 3 then pos 1 else id) (pos 0) (codes "ok") ++ serve rest
unfolding write_packet write_pkt
serve-write_packet id typ body rest a b c d h =
    (serve_unrolls (write_packet id typ body ++ rest)).0
    ∙ ap (after_round serve) (round-packet id typ body rest a b c d h)
