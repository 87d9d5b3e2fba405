-- ===== src/Tests/Servers.antt =====
-- The game server of the end-to-end tests, behind a network that loses nothing.
use ark_asa_operator.Prelude.{false, ◌⊎◌, ◌≡◌, refl, ℕ, ◌<◌, [], ◌++◌, none, codes, arith, length}
use ark_asa_operator.Prelude.Int.{pos}
use ark_asa_operator.Kube.{Error, ok, err, Client, Sys}
use ark_asa_operator.Rcon.Wire.{Bytes, read_bytes, write_packet}
use ark_asa_operator.Rcon.Session.{save_and_exit}
use ark_asa_operator.Rcon.FakeServer.{serve_for, serve}
use ark_asa_operator.Rcon.FakeServer.Loop.{Stops, GoesOn, serve_cases}
use ark_asa_operator.Rcon.FakeServer.Drain.{save_and_exit_ends}
use ark_asa_operator.Tests.Toy.{cluster_of, client_with}

abbrev login : Bytes
login = write_packet (pos 1) (pos 3) (codes "pw")

serve_cases_example :
    (Stops login ⊎ GoesOn login)
    × ((fuel : ℕ) → length login < fuel → serve_for fuel login ≡ serve login)
serve_cases_example = serve_cases login

-- The world is what the server has written and the client has not read.
abbrev wired : Client Bytes
wired = record (client_with (λ w. 0) (err Error.not_found)) {
  dial = λ a. λ w. (ok 0, []);
  send = λ c. λ b. λ w. (ok tt, w ++ serve b);
  receive = λ c. λ n. λ w. read_bytes n w;
}

abbrev wired_start : Sys Bytes
wired_start = record { cluster = cluster_of none; busy = false; world = []; log = [] }

save_and_exit_ends_example :
    (save_and_exit wired (codes "10.0.0.1:27020") (codes "pw") wired_start).0 ≡ ok tt
save_and_exit_ends_example =
    save_and_exit_ends wired (λ w. w)
      ((λ addr w. (0, refl, refl)), (λ c b w. (refl, refl)), (λ c n w. (refl, refl)))
      (codes "10.0.0.1:27020") (codes "pw") wired_start (omega arith)
