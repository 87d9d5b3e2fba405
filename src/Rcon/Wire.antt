-- ===== src/Rcon/Wire.antt =====
-- internal/rcon/client.go: the wire format, `writePacket` and `readPacket`.
pub mod RoundTrip
use ark_asa_operator.Prelude.{
  ℕ, ◌+◌, ◌-◌, ◌*◌, ◌/◌, ◌%◌, ◌||◌, Bool, true, false, if◌then◌else◌, List, [], ◌∷◌, ◌++◌, length,
  take, drop, leb, codes,
}
use ark_asa_operator.Prelude.Int.{ℤ, pos, negsuc, ltb_ℤ, low32, int32, pos_part}
use ark_asa_operator.Kube.{
  Result, ok, err, Error, Secret, ConfigMap, Service, ServicePort, PersistentVolumeClaim, Job,
  JobCondition, JobConditionType, EnvVar, ContainerPort, VolumeSource, Terminated, ContainerStatus,
  PodCondition, Pod, Action, Sys, Client, Exec, pure, raise, lift, gets, attempt, call, call_ok,
  tell, recorded, modify_cluster, set_busy, ◌>>=◌, ◌>>◌, done, cluster_now, created_or_exists,
  ignore_exists, ignore_conflict,
}

abbrev pub Bytes : Type 0
Bytes = List ℕ

abbrev pub packet_type_auth : ℤ
packet_type_auth = pos 3

abbrev pub packet_type_exec_command : ℤ
packet_type_exec_command = pos 2

-- `binary.Write` of an int32, little endian.
unfoldable pub put_int32 : ℤ → Bytes
put_int32 x =
    let w = low32 x in w % 256 ∷ (w / 256 % 256 ∷ (w / 65536 % 256 ∷ (w / 16777216 % 256 ∷ [])))

-- `binary.Read` of an int32 from four bytes.
unfoldable pub get_int32 : Bytes → ℤ
get_int32 (a ∷ (b ∷ (c ∷ (d ∷ [])))) = int32 (pos (a + 256 * b + 65536 * c + 16777216 * d))
get_int32 _ = pos 0

unfoldable pub write_packet : ℤ → ℤ → Bytes → Bytes
write_packet id typ body =
    put_int32 (int32 (pos (4 + 4 + length body + 2)))
    ++ (put_int32 id ++ (put_int32 typ ++ (body ++ (0 ∷ (0 ∷ [])))))

pub record Packet : Type 0 where
  pub length : ℤ
  pub id : ℤ
  pub typ : ℤ
  pub body : Bytes

-- A step of a function that reads and may fail; `R` is the reader.
infixl 5 ◌then_with◌
abbrev pub ◌then_with◌ : {R A B : Type 0} → Result A × R → (A → R → Result B × R) → Result B × R
(r, s) then_with f = elim r [ ok a ↦ f a s | err e ↦ (err e, s) ]

module _ {R : Type 0} (read_full : ℕ → R → Result Bytes × R) where
  -- The reads after the length, which is in range: the ID, the type, the body, the terminator.
  unfoldable pub read_rest : ℤ → R → Result Packet × R
  read_rest len r = read_full 4 r then_with λ id r₁. read_full 4 r₁ then_with λ typ r₂.
      read_full (pos_part len - 10) r₂ then_with λ body r₃.
      read_full 2 r₃ then_with λ terminator r₄.
      (ok (record { length = len; id = get_int32 id; typ = get_int32 typ; body = body }), r₄)

  unfoldable pub read_packet : R → Result Packet × R
  read_packet r = read_full 4 r then_with λ b r₁.
      let len = get_int32 b in
      if ltb_ℤ len (pos 10) || ltb_ℤ (pos 4096) len
      then (err (Error.other (codes "rcon: bad length")), r₁)
      else read_rest len r₁

-- A reader over bytes that are there: it fails at the end, having consumed what was left.
unfoldable pub read_bytes : ℕ → Bytes → Result Bytes × Bytes
read_bytes n s =
    if leb n (length s)
    then (ok (take n s), drop n s)
    else (err (Error.other (codes "unexpected EOF")), [])
