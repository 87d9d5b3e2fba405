-- ===== src/Rcon/Session/Quiet.antt =====
-- The drain commands change nothing of the cluster object, and make RCON calls only.
use ark_asa_operator.Prelude.{List_eq, ℕ_eq, ℕ, Text, codes, List, [], ◌∷◌, ◌≡◌}
use ark_asa_operator.Prelude.Int.{ℤ, pos}
use ark_asa_operator.Kube.{Result, ok, err, Action, Client, Sys, attempt, ◌>>=◌}
use ark_asa_operator.Kube.Quiet.{Grown, Quiet, quiet_rules, Quiet-bind, Quiet-call, Quiet-attempt}
use ark_asa_operator.Rcon.Wire.{Packet}
use ark_asa_operator.Rcon.Session.{
  RconClient, next_request_id, close_conn, round_trip, dial, dial_reply, exec, announce_shutdown,
  save_and_exit, after_save,
}

-- An announcement or a save-and-exit.
abbrev pub IsRcon : Action → Type 0
IsRcon (Action.announce addr) = Unit
IsRcon (Action.save_and_exit addr) = Unit
IsRcon _ = ⊥

pub none_new : {old now : List Action} → Grown (λ a. ⊥) old now → now ≡ old
none_new ([], e, h) = e
none_new (a ∷ new, e, h) = absurd h.0

module _ {W : Type 0} (k : Client W) where
  close_conn-Quiet : {P : Action → Type 0} (conn : ℕ) → Quiet P (close_conn k conn)
  unfolding close_conn
  close_conn-Quiet conn = search quiet_rules

  round_trip-Quiet :
      {P : Action → Type 0} (conn : ℕ) (id typ : ℤ) (body : Text)
      → Quiet P (round_trip k conn id typ body)
  unfolding round_trip
  round_trip-Quiet conn id typ body = search quiet_rules

  exec-Quiet : {P : Action → Type 0} (c : RconClient) (cmd : Text) → Quiet P (exec k c cmd)
  unfolding exec
  exec-Quiet c cmd = search (quiet_rules, round_trip-Quiet)

  dial_reply-Quiet :
      {P : Action → Type 0} (conn : ℕ) (c : RconClient) (r : Result Packet)
      → Quiet P (dial_reply k conn c r)
  unfolding dial_reply
  dial_reply-Quiet conn c (err e) = search (quiet_rules, close_conn-Quiet)
  dial_reply-Quiet conn c (ok p) = search (quiet_rules, close_conn-Quiet)

  dial-Quiet : {P : Action → Type 0} (addr password : Text) → Quiet P (dial k addr password)
  unfolding dial
  dial-Quiet addr password = Quiet-bind _ _ (Quiet-call (k.dial addr)) λ conn.
      Quiet-bind _ _ (Quiet-attempt _ (round_trip-Quiet conn _ _ _))
        (dial_reply-Quiet conn (next_request_id (record { conn = conn; next_id = pos 0 })).1)

  after_save-Quiet :
      {P : Action → Type 0} (conn : ℕ) (r : Result (Text × RconClient))
      → Quiet P (after_save k conn r)
  unfolding after_save
  after_save-Quiet conn (err e) = search (quiet_rules, close_conn-Quiet)
  after_save-Quiet conn (ok (_, c)) = search (quiet_rules, close_conn-Quiet, exec-Quiet)

  -- The announcement, however it ends, leaves the cluster object and the busy flag as they are, and makes
  -- no recorded call but RCON commands.
  pub announce_shutdown-Quiet :
      (addr password : Text) (wait : ℤ) (reason : Text)
      → Quiet IsRcon (announce_shutdown k addr password wait reason)
  unfolding announce_shutdown
  announce_shutdown-Quiet addr password wait reason =
      search (quiet_rules, dial-Quiet, exec-Quiet, close_conn-Quiet) depth 10

  -- The save before the exit, however it ends, leaves the cluster object and the busy flag as they are,
  -- and makes no recorded call but RCON commands.
  pub save_and_exit-Quiet : (addr password : Text) → Quiet IsRcon (save_and_exit k addr password)
  unfolding save_and_exit
  save_and_exit-Quiet addr password = search (quiet_rules, dial-Quiet, exec-Quiet, after_save-Quiet)

  -- The session of a save before the exit.
  session-Quiet :
      {P : Action → Type 0} (addr password : Text)
      → Quiet P (do
        c ← dial k addr password
        saved ← attempt (exec k c (codes "SaveWorld"))
        after_save k c.conn saved)
  session-Quiet addr password = search (quiet_rules, dial-Quiet, exec-Quiet, after_save-Quiet)

  -- The save before the exit is one recorded call, however it ends.
  pub save_and_exit-log :
      (addr password : Text) (s : Sys W)
      → (save_and_exit k addr password s).1.log ≡ Action.save_and_exit addr ∷ s.log
  unfolding save_and_exit ◌>>=◌
  save_and_exit-log addr password s = none_new (
      (session-Quiet {P = λ a. ⊥} addr password).grown
        (record s { log = Action.save_and_exit addr ∷ s.log }))
