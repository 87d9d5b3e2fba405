-- ===== src/Rcon/Session.antt =====
-- internal/rcon/client.go, `Dial`, `Exec` and `Close`, and internal/rcon/drain.go. The deadlines that
-- the code sets on a connection are the network's: a call past its deadline is a call that fails.
pub mod Quiet
use ark_asa_operator.Prelude.{
  ℕ, suc, ◌+◌, ◌*◌, ◌/◌, ◌%◌, ◌||◌, ◌&&◌, ◌==◌, ℕ_eq, if◌then◌else◌, ◌++◌, Text, codes, ltb, leb,
}
use ark_asa_operator.Prelude.Int.{ℤ, pos, negsuc, ℤ_eq, int32, ◌+ℤ◌}
use ark_asa_operator.Prelude.Decimal.{format_ℕ}
use ark_asa_operator.Kube.{
  Result, ok, err, Error, Action, Client, Exec, pure, raise, lift, attempt, call, call_ok, tell,
  ◌>>=◌, ◌>>◌, done,
}
use ark_asa_operator.Rcon.Wire.{
  Packet, packet_type_auth, packet_type_exec_command, write_packet, read_packet,
}

-- An authenticated connection.
pub record RconClient : Type 0 where
  pub conn : ℕ
  pub next_id : ℤ

-- `ErrAuthFailed`
abbrev pub err_auth_failed : Error
err_auth_failed = Error.other (codes "rcon: authentication failed")

-- `nextRequestID`: the counter after the addition is the ID.
unfoldable pub next_request_id : RconClient → ℤ × RconClient
next_request_id c = let id = int32 (c.next_id +ℤ pos 1) in (id, record c { next_id = id })

-- `%.0f` of a count of units: to the nearest, and to the even one of two.
unfoldable pub round_half_even : ℕ → ℕ → ℕ
round_half_even n unit =
    let q = n / unit in
    let r = n % unit in if ltb unit (2 * r) || (2 * r == unit && q % 2 == 1) then q + 1 else q

unfoldable pub round_duration : ℤ → Text
round_duration (pos n) =
    if leb 3600000000000 n
    then format_ℕ (round_half_even n 3600000000000) ++ codes " hours"
    else if leb 60000000000 n
    then format_ℕ (round_half_even n 60000000000) ++ codes " minutes"
    else format_ℕ (round_half_even n 1000000000) ++ codes " seconds"
round_duration (negsuc n) =
    codes "-" ++ (format_ℕ (round_half_even (suc n) 1000000000) ++ codes " seconds")

module _ {W : Type 0} (k : Client W) where
  unfoldable pub close_conn : ℕ → Exec W (Unit {0})
  close_conn conn = call_ok (λ w. (tt, k.close conn w))

  -- `writePacket` and then `readPacket`, as `Dial` and `Exec` call them.
  unfoldable pub round_trip : ℕ → ℤ → ℤ → Text → Exec W Packet
  round_trip conn id typ body = do
    call (k.send conn (write_packet id typ body))
    call (read_packet (k.receive conn))

  -- The end of `Dial`, after the reply to the password.
  unfoldable pub dial_reply : ℕ → RconClient → Result Packet → Exec W RconClient
  dial_reply conn c (err e) = close_conn conn >> raise e
  dial_reply conn c (ok p) =
      if p.id == negsuc 0 then close_conn conn >> raise err_auth_failed else pure c

  -- The connection is closed on every error after it is open.
  unfoldable pub dial : Text → Text → Exec W RconClient
  dial addr password = do
    conn ← call (k.dial addr)
    let (id, c) = next_request_id (record { conn = conn; next_id = pos 0 })
    reply ← attempt (round_trip conn id packet_type_auth password)
    dial_reply conn c reply

  -- `Exec`: the body of the reply, whatever its ID.
  unfoldable pub exec : RconClient → Text → Exec W (Text × RconClient)
  exec c cmd = do
    let (id, c') = next_request_id c
    p ← round_trip c.conn id packet_type_exec_command cmd
    pure (p.body, c')

  unfoldable pub announce_shutdown : Text → Text → ℤ → Text → Exec W (Unit {0})
  announce_shutdown addr password wait reason = do
    tell (Action.announce addr)
    c ← dial addr password
    let msg =
        codes "ServerChat Server shutting down in "
        ++ (round_duration wait ++ (codes " for " ++ reason))
    r ← attempt (exec c msg)
    close_conn c.conn
    reply ← lift r
    done

  -- After SaveWorld: DoExit, and the deferred `Close`.
  unfoldable pub after_save : ℕ → Result (Text × RconClient) → Exec W (Unit {0})
  after_save conn (err e) = close_conn conn >> raise e
  after_save conn (ok (_, c)) = attempt (exec c (codes "DoExit")) >> close_conn conn

  -- The error of SaveWorld is returned; what DoExit answers is dropped.
  unfoldable pub save_and_exit : Text → Text → Exec W (Unit {0})
  save_and_exit addr password = do
    tell (Action.save_and_exit addr)
    c ← dial addr password
    saved ← attempt (exec c (codes "SaveWorld"))
    after_save c.conn saved
