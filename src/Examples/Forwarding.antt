-- ===== src/Examples/Forwarding.antt =====
-- Runs of the receive threads in continuous mode.
use tcp_server_client.Prelude.{true, [], ◌∷◌, refl}
use tcp_server_client.Prelude.Int.{pos}
use tcp_server_client.Exec.Runs.{Runs}
use tcp_server_client.Server.Receive.{listen_message}
use tcp_server_client.TcpServer.{TcpServer, continuous_tcp_server, tcp_server}
use tcp_server_client.TcpServer.Laws.{tcp_server-Transport}
use tcp_server_client.TcpClient.{TcpClient, continuous_tcp_client, tcp_client}
use tcp_server_client.TcpClient.Laws.{tcp_client-Transport}
use tcp_server_client.Client.Receive.{receive}
use tcp_server_client.Client.Forward as ClientForward
use tcp_server_client.Server.Forward as ServerForward
use tcp_server_client.Examples.{three_bytes}

abbrev streaming_server : TcpServer
streaming_server = record continuous_tcp_server {
  active_connections = (pos 5, pos 5) ∷ [];
  generate_new_forward_stream = true;
}

abbrev streaming_client : TcpClient
streaming_client = continuous_tcp_client (pos 0)

listen_message-IsForwarded_example :
    Runs
      (λ _. ServerForward.IsForwarded (Unit {0}) three_bytes (pos 5) (pos 3))
      (ServerForward.IsLong (Unit {0}) three_bytes (pos 5) (pos 3) 2)
      (listen_message three_bytes
        (tcp_server three_bytes)
        2
        (pos 5)
        (pos 1)
        (record { self = streaming_server; log = [] }))
listen_message-IsForwarded_example =
    ServerForward.listen_message-IsForwarded (Unit {0}) three_bytes (pos 5)
      (tcp_server-Transport three_bytes) 2 (pos 1) streaming_server refl refl refl

receive-IsForwarded_example :
    Runs
      (λ _. ClientForward.IsDone (Unit {0}) three_bytes [] tt)
      (ClientForward.IsLong (Unit {0}) three_bytes [] tt 1)
      (receive three_bytes
        (tcp_client three_bytes)
        1
        (record { self = streaming_client; log = [] }))
receive-IsForwarded_example =
    ClientForward.receive-IsForwarded (Unit {0}) three_bytes [] tt
      (tcp_client-Transport three_bytes) 1 streaming_client refl refl
