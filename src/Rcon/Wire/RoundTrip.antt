-- ===== src/Rcon/Wire/RoundTrip.antt =====
-- What `writePacket` sends, `readPacket` reads back.
use mathlib.Core.List.{append_assoc}
use ark_asa_operator.Prelude.{
  ℕ, ◌+◌, ◌-◌, ◌^◌, ◌≤◌, ◌<◌, ◌≡◌, refl, ap, [], ◌∷◌, ◌++◌, length, length-append, take, drop,
  codes, arith,
}
use ark_asa_operator.Prelude.Int.{ℤ, pos, negsuc, ◌≤ℤ◌, int32}
use ark_asa_operator.Kube.{ok, err, Error}
use ark_asa_operator.Rcon.Wire.{
  Bytes, put_int32, get_int32, write_packet, read_packet, read_rest, read_bytes,
}

-- An int32 survives the wire.
pub get_int32-put_int32 :
    (x : ℤ) → negsuc (2 ^ 31 - 1) ≤ℤ x → x ≤ℤ pos (2 ^ 31 - 1) → get_int32 (put_int32 x) ≡ x
unfolding get_int32 put_int32 int32
get_int32-put_int32 (pos n) lo hi = ground arith
get_int32-put_int32 (negsuc n) lo hi = ground arith

take-length-append : (xs ys : Bytes) → take (length xs) (xs ++ ys) ≡ xs
take-length-append [] ys = refl
take-length-append (x ∷ xs) ys = ap (λ (t : Bytes). x ∷ t) (take-length-append xs ys)

pub drop-length-append : (xs ys : Bytes) → drop (length xs) (xs ++ ys) ≡ ys
drop-length-append [] ys = refl
drop-length-append (x ∷ xs) ys = drop-length-append xs ys

-- Reading as many bytes as the first part has.
pub read_bytes-append :
    (xs ys : Bytes) (n : ℕ) → n ≡ length xs → read_bytes n (xs ++ ys) ≡ (ok xs, ys)
unfolding read_bytes
read_bytes-append xs ys n e =
    rw e (ground (arith, length-append xs ys, take-length-append xs ys, drop-length-append xs ys))

pub read_bytes-put_int32 :
    (x : ℤ) (ys : Bytes) → read_bytes 4 (put_int32 x ++ ys) ≡ (ok (put_int32 x), ys)
read_bytes-put_int32 x ys = read_bytes-append (put_int32 x) ys 4 (unfold put_int32 in refl)

-- The length field of a packet, where it is an int32.
pub length_field : (n : ℕ) → n < 2 ^ 31 - 10 → int32 (pos (4 + 4 + n + 2)) ≡ pos (n + 10)
unfolding int32
length_field n h = ground arith

pub write_packet-append :
    (id typ : ℤ) (body rest : Bytes)
    → write_packet id typ body ++ rest
      ≡ put_int32 (int32 (pos (4 + 4 + length body + 2)))
        ++ (put_int32 id ++ (put_int32 typ ++ (body ++ (0 ∷ (0 ∷ rest)))))
unfolding write_packet
write_packet-append id typ body rest = simp append_assoc

read_rest-body :
    (id typ : ℤ) (body rest : Bytes)
    → negsuc (2 ^ 31 - 1) ≤ℤ id
    → id ≤ℤ pos (2 ^ 31 - 1)
    → negsuc (2 ^ 31 - 1) ≤ℤ typ
    → typ ≤ℤ pos (2 ^ 31 - 1)
    → read_rest read_bytes
        (pos (length body + 10))
        (put_int32 id ++ (put_int32 typ ++ (body ++ (0 ∷ (0 ∷ rest)))))
      ≡ (ok (record { length = pos (length body + 10); id = id; typ = typ; body = body }), rest)
unfolding read_rest
read_rest-body id typ body rest a b c d = rw (
  read_bytes-put_int32 id (put_int32 typ ++ (body ++ (0 ∷ (0 ∷ rest)))),
  read_bytes-put_int32 typ (body ++ (0 ∷ (0 ∷ rest))),
  read_bytes-append body (0 ∷ (0 ∷ rest)) (length body + 10 - 10) (omega arith),
  read_bytes-append (0 ∷ (0 ∷ [])) rest 2 refl,
  get_int32-put_int32 id a b,
  get_int32-put_int32 typ c d,
)

-- The reader gets back the ID, the type and the body of a written packet, and leaves what follows
-- it, if the ID and the type are int32 and the body has at most 4086 bytes.
pub read_packet-write_packet :
    (id typ : ℤ) (body rest : Bytes)
    → negsuc (2 ^ 31 - 1) ≤ℤ id
    → id ≤ℤ pos (2 ^ 31 - 1)
    → negsuc (2 ^ 31 - 1) ≤ℤ typ
    → typ ≤ℤ pos (2 ^ 31 - 1)
    → length body ≤ 4086
    → read_packet read_bytes (write_packet id typ body ++ rest)
      ≡ (ok (record { length = pos (length body + 10); id = id; typ = typ; body = body }), rest)
unfolding read_packet
read_packet-write_packet id typ body rest a b c d h =
    rw
      (
        write_packet-append id typ body rest,
        length_field (length body) (omega arith),
        read_bytes-put_int32 (pos (length body + 10))
            (put_int32 id ++ (put_int32 typ ++ (body ++ (0 ∷ (0 ∷ rest))))),
        get_int32-put_int32 (pos (length body + 10)) (omega arith) (omega arith),
      )
      (ground (arith, read_rest-body id typ body rest a b c d))

-- A written packet whose body has more than 4086 bytes, yet an int32 length, is refused by the reader.
read_packet_too_long :
    (id typ : ℤ) (body rest : Bytes)
    → 4086 < length body
    → length body < 2 ^ 31 - 10
    → (read_packet read_bytes (write_packet id typ body ++ rest)).0
      ≡ err (Error.other (codes "rcon: bad length"))
unfolding read_packet
read_packet_too_long id typ body rest h k =
    rw
      (
        write_packet-append id typ body rest,
        length_field (length body) k,
        read_bytes-put_int32 (pos (length body + 10))
            (put_int32 id ++ (put_int32 typ ++ (body ++ (0 ∷ (0 ∷ rest))))),
        get_int32-put_int32 (pos (length body + 10)) (omega arith) (omega arith),
      )
      (ground arith)
