-- ===== src/Rcon/FakeServer/Drain.antt =====
-- The client's drain command against the server of the end-to-end tests.
use ark_asa_operator.Prelude.{
  if-both, ◌≡◌, refl, sym, ap, ◌∙◌, ℕ, ◌+◌, ◌-◌, ◌^◌, ◌≤◌, ◌==◌, if◌then◌else◌, [], ◌∷◌, ◌++◌,
  length, Text, codes, arith,
}
use mathlib.Core.Path.{subst}
use mathlib.Core.List.{append-nil}
use ark_asa_operator.Prelude.Int.{ℤ, pos, negsuc, ℤ_eq, ◌≤ℤ◌, ◌+ℤ◌, int32}
use ark_asa_operator.Kube.{
  Result, ok, Sys, Client, Exec, attempt, call, continue, pure, tell, Action, ◌>>=◌,
}
use ark_asa_operator.Rcon.Wire.{
  packet_type_auth, packet_type_exec_command, Bytes, Packet, read_bytes, read_packet, write_packet,
}
use ark_asa_operator.Rcon.Wire.RoundTrip.{read_packet-write_packet}
use ark_asa_operator.Rcon.Session.{
  RconClient, next_request_id, close_conn, round_trip, dial_reply, dial, exec, after_save,
  save_and_exit,
}
use ark_asa_operator.Rcon.FakeServer.{serve, serve_for, round, round_on}
use ark_asa_operator.Rcon.FakeServer.Packets.{serve-write_packet}
use ark_asa_operator.Rcon.FakeServer.Reader.{Same, Same-packet}

-- A network behind which every address is the server: `inbox` is what it has written to the connection
-- and the client has not read. Every dial opens a new connection, and whatever is written is answered.
abbrev pub Served : {W : Type 0} → Client W → (W → Bytes) → Type 0
Served {W} k inbox =
    ((addr : Text) (w : W)
      → (conn : ℕ) × ((k.dial addr w).0 ≡ ok conn) × (inbox (k.dial addr w).1 ≡ []))
    × ((conn : ℕ) (b : Bytes) (w : W)
        → ((k.send conn b w).0 ≡ ok tt) × (inbox (k.send conn b w).1 ≡ inbox w ++ serve b))
    × ((conn n : ℕ) (w : W) → Same inbox (k.receive conn n w) (read_bytes n (inbox w)))

module _ {W : Type 0} (k : Client W) (inbox : W → Bytes) (served : Served k inbox) where
  -- The run succeeds, and leaves nothing to read.
  abbrev Ends : {A : Type 0} → Exec W A → Sys W → A → Type 0
  Ends m s a = ((m s).0 ≡ ok a) × (inbox (m s).1.world ≡ [])

  Ends-then :
      {A B : Type 0} (m : Exec W A) (f : A → Exec W B) (s : Sys W) (a : A) (b : B)
      → (m s).0 ≡ ok a
      → Ends (f a) (m s).1 b
      → Ends (m >>= f) s b
  unfolding ◌>>=◌
  Ends-then m f s a b e h =
      subst
        (λ (r : Result _).
          ((continue r f (m s).1).0 ≡ ok b) × (inbox (continue r f (m s).1).1.world ≡ []))
        (sym e) h

  then_ok :
      {A B : Type 0} (m : Exec W A) (f : A → Exec W B) (s : Sys W) (a : A) (b : B)
      → (m s).0 ≡ ok a
      → (f a (m s).1).0 ≡ ok b
      → ((m >>= f) s).0 ≡ ok b
  unfolding ◌>>=◌
  then_ok m f s a b e h = subst (λ (r : Result _). (continue r f (m s).1).0 ≡ ok b) (sym e) h

  unfoldable reply_of : ℤ → ℤ → Packet
  reply_of id typ = record {
    length = pos 12;
    id = if typ == pos 3 then pos 1 else id;
    typ = pos 0;
    body = codes "ok";
  }

  serve_nothing : serve [] ≡ []
  unfolding serve serve_for round round_on read_bytes
  serve_nothing = refl

  answered :
      (n : ℕ) (typ : ℤ) (body : Bytes) (w : W)
      → n ≤ 3
      → negsuc (2 ^ 31 - 1) ≤ℤ typ
      → typ ≤ℤ pos (2 ^ 31 - 1)
      → length body ≤ 4086
      → inbox w ≡ serve (write_packet (pos n) typ body)
      → (read_packet read_bytes (inbox w)) ≡ (ok (reply_of (pos n) typ), [])
  unfolding reply_of
  answered n typ body w h lo hi small e =
      let id = if typ == pos 3 then pos 1 else pos n in
      let above : negsuc (2 ^ 31 - 1) ≤ℤ id =
        if-both (λ (x : ℤ). negsuc (2 ^ 31 - 1) ≤ℤ x) (typ == pos 3) (omega arith) (omega arith) in
      let below : id ≤ℤ pos (2 ^ 31 - 1) =
        if-both (λ (x : ℤ). x ≤ℤ pos (2 ^ 31 - 1)) (typ == pos 3) (omega arith)
          (omega (arith, h)) in
      let written : inbox w ≡ write_packet id (pos 0) (codes "ok") ++ [] =
        e
        ∙ (ap serve (sym (append-nil (write_packet (pos n) typ body)))
            ∙ (serve-write_packet (pos n) typ body [] (omega arith) (omega (arith, h)) lo hi small
                ∙ ap (λ (t : Bytes). write_packet id (pos 0) (codes "ok") ++ t) serve_nothing)) in
      ap (read_packet read_bytes) written
      ∙ read_packet-write_packet id (pos 0) (codes "ok") [] above below (omega arith) (omega arith)
          (omega arith)

  round_trip-Ends :
      (conn n : ℕ) (typ : ℤ) (body : Text) (s : Sys W)
      → n ≤ 3
      → negsuc (2 ^ 31 - 1) ≤ℤ typ
      → typ ≤ℤ pos (2 ^ 31 - 1)
      → length body ≤ 4086
      → inbox s.world ≡ []
      → Ends (round_trip k conn (pos n) typ body) s (reply_of (pos n) typ)
  unfolding round_trip call
  round_trip-Ends conn n typ body s h lo hi small e =
      let (sent, arrived) = served.1 conn (write_packet (pos n) typ body) s.world in
      let w = (k.send conn (write_packet (pos n) typ body) s.world).1 in
      let full : inbox w ≡ serve (write_packet (pos n) typ body) =
        arrived ∙ ap (λ (t : Bytes). t ++ serve (write_packet (pos n) typ body)) e in
      let (r, rest) = Same-packet inbox (k.receive conn) (served.2 conn) w in
      let read = answered n typ body w h lo hi small full in
      Ends-then (call (k.send conn (write_packet (pos n) typ body))) _ s tt (reply_of (pos n) typ)
        sent (r ∙ ap (λ p. p.0) read, rest ∙ ap (λ p. p.1) read)

  attempt-Ends :
      {A : Type 0} (m : Exec W A) (s : Sys W) (a : A) → Ends m s a → Ends (attempt m) s (ok a)
  unfolding attempt
  attempt-Ends m s a (e, rest) = (ap (λ (r : Result _). ok r) e, rest)

  dial-Ends :
      (addr password : Text) (s : Sys W)
      → length password ≤ 4086
      → (conn : ℕ) × Ends (dial k addr password) s (record { conn = conn; next_id = pos 1 })
  unfolding dial call next_request_id int32 ◌+ℤ◌ dial_reply reply_of ◌>>=◌
  dial-Ends addr password s small =
      let (conn, opened, empty) = served.0 addr s.world in
      let s1 : Sys W = record s { world = (k.dial addr s.world).1 } in
      let c : RconClient = record { conn = conn; next_id = pos 1 } in
      let login : Exec W (Result Packet) =
        attempt (round_trip k conn (pos 1) packet_type_auth password) in
      let (said, left) =
        attempt-Ends (round_trip k conn (pos 1) packet_type_auth password) s1
          (reply_of (pos 1) packet_type_auth)
          (round_trip-Ends conn 1 packet_type_auth password s1 (omega arith) (omega arith)
            (omega arith) small empty) in
      (
        conn,
        Ends-then (call (k.dial addr)) _ s conn c opened (
            Ends-then login (λ reply. dial_reply k conn c reply) s1
              (ok (reply_of (pos 1) packet_type_auth)) c said (refl, left)),
      )

  command-Ends :
      (conn n : ℕ) (cmd : Text) (id : ℤ) (s : Sys W)
      → id ≡ pos n
      → n ≤ 3
      → length cmd ≤ 4086
      → inbox s.world ≡ []
      → Ends {A = Text × RconClient}
          (round_trip k conn id packet_type_exec_command cmd >>= λ p.
            pure (p.body, record { conn = conn; next_id = id }))
          s
          (codes "ok", record { conn = conn; next_id = pos n })
  unfolding reply_of pure
  command-Ends conn n cmd id s e h small empty =
      let (said, left) =
        round_trip-Ends conn n packet_type_exec_command cmd s h (omega arith) (omega arith) small
          empty in
      subst
        (λ (x : ℤ).
          Ends {A = Text × RconClient}
            (round_trip k conn x packet_type_exec_command cmd >>= λ p.
              pure (p.body, record { conn = conn; next_id = x }))
            s (codes "ok", record { conn = conn; next_id = pos n }))
        (sym e)
        (Ends-then (round_trip k conn (pos n) packet_type_exec_command cmd) _ s
          (reply_of (pos n) packet_type_exec_command) _ said (refl, left))

  next_id : (n : ℕ) → n ≤ 2 → int32 (pos n +ℤ pos 1) ≡ pos (n + 1)
  unfolding int32 ◌+ℤ◌
  next_id n h = ground arith

  exec-Ends :
      (conn n : ℕ) (cmd : Text) (s : Sys W)
      → n ≤ 2
      → length cmd ≤ 4086
      → inbox s.world ≡ []
      → Ends
          (exec k (record { conn = conn; next_id = pos n }) cmd)
          s
          (codes "ok", record { conn = conn; next_id = pos (n + 1) })
  unfolding exec next_request_id
  exec-Ends conn n cmd s h small empty =
      command-Ends conn (n + 1) cmd (int32 (pos n +ℤ pos 1)) s (next_id n h) (omega (arith, h))
        small empty

  -- On a network where every address is the server of the end-to-end tests and nothing is lost,
  -- `SaveAndExit` logs in with any password of at most 4086 bytes, and succeeds.
  pub save_and_exit_ends :
      (addr password : Text) (s : Sys W)
      → length password ≤ 4086
      → (save_and_exit k addr password s).0 ≡ ok tt
  unfolding save_and_exit after_save close_conn tell ◌>>=◌
  save_and_exit_ends addr password s small =
      let s1 : Sys W = record s { log = Action.save_and_exit addr ∷ s.log } in
      let (conn, (opened, empty)) = dial-Ends addr password s1 small in
      let s2 = (dial k addr password s1).1 in
      let c : RconClient = record { conn = conn; next_id = pos 1 } in
      let (saved, left) =
        exec-Ends conn 1 (codes "SaveWorld") s2 (omega arith) (omega arith) empty in
      then_ok (dial k addr password)
        (λ c. attempt (exec k c (codes "SaveWorld")) >>= λ saved. after_save k c.conn saved) s1 c tt
        opened
        (then_ok (attempt (exec k c (codes "SaveWorld"))) (λ saved. after_save k conn saved) s2
          (ok (codes "ok", record { conn = conn; next_id = pos 2 })) tt
          (ap (λ (r : Result (Text × RconClient)). ok r) saved) refl)
