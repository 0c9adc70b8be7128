-- ===== src/Examples/Mains.antt =====
-- Runs of the example programs.
use tcp_server_client.Prelude.{[], ◌∷◌, false, refl}
use tcp_server_client.Prelude.Int.{ℤ, pos}
use tcp_server_client.Exec.{Bytes, Os}
use tcp_server_client.Exec.Runs.{Runs, Returns}
use tcp_server_client.Programs.ServerMain.{servers}
use tcp_server_client.Programs.ServerMain as Server
use tcp_server_client.Programs.ServerMain.Ends.{program-Ended}
use tcp_server_client.Programs.ServerMain.Ends as ServerEnds
use tcp_server_client.Programs.ClientMain.{Indeterminate, clients}
use tcp_server_client.Programs.ClientMain as Client
use tcp_server_client.Programs.ClientMain.Rounds.{AllIdle}
use tcp_server_client.Programs.ClientMain.Ends.{Ended, main-AllIdle}
use tcp_server_client.Examples.{three_bytes}

-- Any text for a number will do.
abbrev decimal : ℤ → Bytes
decimal n = b'7' ∷ []

program-Ended_example :
    Returns
      (ServerEnds.Ended three_bytes decimal)
      (Server.program three_bytes decimal (record { self = servers; log = [] }))
program-Ended_example = program-Ended three_bytes decimal

abbrev zeros : Indeterminate
zeros = record {
  fd_tcp_fragmented = pos 0;
  fd_tcp_continuous = pos 0;
  fd_tls_fragmented = pos 0;
  fd_tls_continuous = pos 0;
  authentication = false;
}

-- Every call gets 1.
abbrev answers_one : Os
answers_one = record { result = λ log c. pos 1; bytes = λ log c. [] }

main-AllIdle_example :
    Runs
      (Ended answers_one decimal (λ _. refl))
      (λ m'. AllIdle m'.self)
      (Client.main answers_one decimal (λ _. zeros) 2 (record { self = clients zeros; log = [] }))
main-AllIdle_example =
    main-AllIdle answers_one decimal (λ _. refl) (λ _. zeros) 2
      (record { self = clients zeros; log = [] })
      ((refl, refl), (refl, refl), (refl, refl), (refl, refl))
