-- ===== src/Examples/Starts.antt =====
-- Calls of `start`, `stop` and `sendMsg` on concrete objects.
use tcp_server_client.Prelude.{arith, true, false, some, map, List, [], ◌∷◌, ◌≡◌, refl}
use tcp_server_client.Prelude.Int.{ℤ, pos, minus_one, ltb_ℤ, eqb_ℤ, nonzero}
use tcp_server_client.Exec.{
  Os, Call, Machine, throws, system_error, pure, ◌>>=◌, socket, setsockopt, bind, listen,
  gethostbyname, connect, spawn_acceptor, spawn_receiver, shutdown, require,
}
use tcp_server_client.Exec.Runs.{Returns}
use tcp_server_client.Workers.Prune.{Worker, vectors}
use tcp_server_client.Server.{
  start, start_socket, start_binding, start_listening, start_accepting, stop,
}
use tcp_server_client.Server.Lifecycle.{IsConsistent}
use tcp_server_client.Server.Api.{
  ApiCall, on_message, starts, stops, sends, asks_running, registers, perform_all,
}
use tcp_server_client.Server.Service.{Conversation, service}
use tcp_server_client.Server.Service.Refinement.{perform_all-Refines}
use tcp_server_client.Server.Accept.{finish_accepting}
use tcp_server_client.Server.Restart.{second_run_throws}
use tcp_server_client.TcpServer.{TcpServer, tcp_server, init}
use tcp_server_client.TcpServer.Laws.{tcp_server-Lifecycle, tcp_server-Unseen, start-ok}
use tcp_server_client.TcpClient.{TcpClient, tcp_client}
use tcp_server_client.TcpClient as Tcp
use tcp_server_client.TcpClient.Laws.{
  tcp_client-Lifecycle, tcp_client-Unseen, tcp_client-Transport, client_start-ok,
}
use tcp_server_client.Client as Client
use tcp_server_client.Client.Api as Api
use tcp_server_client.Client.Service as ClientService
use tcp_server_client.Client.Service.Refinement.{client_perform_all-Refines}
use tcp_server_client.Client.Receive.{lose_connection}
use tcp_server_client.Client.Restart.{restart_throws}
use tcp_server_client.Examples.{server, client}

-- A socket is number 7 and a name is found; everything else answers 0.
abbrev answer : Call → ℤ
answer socket = pos 7
answer (gethostbyname _) = pos 1
answer _ = pos 0

abbrev pub working : Os
working = record { result = λ log c. answer c; bytes = λ log c. 127 ∷ [] }

-- The same, except that a socket can neither be bound, connected nor shut down.
abbrev refusal : Call → ℤ
refusal (bind _ _) = minus_one
refusal (connect _ _ _) = minus_one
refusal (shutdown _ _) = minus_one
refusal c = answer c

abbrev refusing : Os
refusing = record { result = λ log c. refusal c; bytes = λ log c. 127 ∷ [] }

abbrev served : Machine TcpServer
served = record { self = server; log = [] }

abbrev unconnected : Machine TcpClient
unconnected = record { self = client; log = [] }

abbrev some_calls : List ApiCall
some_calls =
    asks_running
    ∷ starts (pos 70000)
    ∷ starts (pos 8081)
    ∷ starts (pos 8082)
    ∷ sends (pos 5) (97 ∷ [])
    ∷ registers on_message true
    ∷ stops
    ∷ starts (pos 8082)
    ∷ []

perform_all-Refines_example :
    Returns
      (λ replies m'.
        IsConsistent m'.self × Conversation (service server) some_calls replies (service m'.self))
      (perform_all working (tcp_server working) some_calls served)
perform_all-Refines_example =
    perform_all-Refines working (tcp_server-Lifecycle working) (tcp_server-Unseen working)
      some_calls served refl

abbrev some_client_calls : List Api.ApiCall
some_client_calls =
    Api.sends (97 ∷ [])
    ∷ Api.starts (108 ∷ []) (pos 0)
    ∷ Api.starts (108 ∷ []) (pos 8081)
    ∷ Api.asks_running
    ∷ Api.registers true
    ∷ Api.sends (97 ∷ [])
    ∷ Api.loses
    ∷ Api.asks_running
    ∷ Api.stops
    ∷ Api.starts (108 ∷ []) (pos 8081)
    ∷ []

client_perform_all-Refines_example :
    Returns
      (λ replies m'.
        ClientService.IsHeld false m'.self
        × Conversation
            (ClientService.service client)
            (map ClientService.anyones some_client_calls)
            replies
            (ClientService.service m'.self))
      (Api.perform_all working (tcp_client working) some_client_calls unconnected)
client_perform_all-Refines_example =
    client_perform_all-Refines working (tcp_client-Lifecycle working) (tcp_client-Unseen working)
      some_client_calls unconnected
      (
        tt,
        (
          ((λ log. refl), refl),
          (((λ log. refl), refl), (tt, (tt, (tt, (tt, (tt, (tt, (((λ log. refl), refl), tt)))))))),
        ),
      )
      refl

abbrev opened : List Call
opened =
    spawn_acceptor ∷ listen (pos 7) ∷ bind (pos 7) (pos 8081) ∷ setsockopt (pos 7) ∷ socket ∷ []

abbrev running_server : TcpServer
running_server = record server { tcp_socket = pos 7; acc_handler = true; running = true }

start-ok_example :
    (false ≡ false)
    × (ltb_ℤ (pos 8081) (pos 1) ≡ false)
    × (ltb_ℤ (pos 65535) (pos 8081) ≡ false)
    × (eqb_ℤ minus_one (pos 7) ≡ false)
    × (nonzero (pos 0) ≡ false)
    × (nonzero (pos 0) ≡ false)
    × (nonzero (pos 0) ≡ false)
    × (opened ≡ opened)
    × (running_server ≡ running_server)
start-ok_example =
    start-ok working (pos 8081) served (record { self = running_server; log = opened })
      (unfold start init start_socket start_binding start_listening start_accepting in refl)

abbrev connecting : List Call
connecting =
    spawn_receiver (pos 0)
    ∷ connect (pos 7) (127 ∷ []) (pos 8081)
    ∷ gethostbyname (108 ∷ [])
    ∷ setsockopt (pos 7)
    ∷ socket
    ∷ []

abbrev running_client : TcpClient
running_client = record client {
  tcp_socket = pos 7;
  client_socket = some (pos 7);
  rec_handler = true;
  running = true;
}

client_start-ok_example :
    (false ≡ false)
    × (false ≡ false)
    × (ltb_ℤ (pos 8081) (pos 1) ≡ false)
    × (ltb_ℤ (pos 65535) (pos 8081) ≡ false)
    × (eqb_ℤ minus_one (pos 7) ≡ false)
    × (nonzero (pos 0) ≡ false)
    × (eqb_ℤ (pos 1) (pos 0) ≡ false)
    × (nonzero (pos 0) ≡ false)
    × (connecting ≡ connecting)
    × (running_client ≡ running_client)
client_start-ok_example =
    client_start-ok working (108 ∷ []) (pos 8081) unconnected
      (record { self = running_client; log = connecting })
      (unfold Client.start Tcp.init Client.start_socket Client.start_connecting
          Client.start_connection Client.delete_old Tcp.delete_socket Tcp.connection_init
          Client.connection_ready Client.start_receiving require in
        refl)

abbrev at_work : Machine TcpClient
at_work = record { self = running_client; log = connecting }

abbrev worker : Worker
worker = record { thread = record { handle = pos 1; joinable = true }; flag = pos 1 }

restart_throws_example :
    ((lose_connection working (tcp_client working) >>= λ _.
    pure (pos 0) >>= λ _. lose_connection working (tcp_client working))
      (record { self = record running_client { work = vectors (worker ∷ []) }; log = [] })).0
    ≡ throws system_error
restart_throws_example =
    restart_throws (Unit {0}) working (tcp_client-Transport working) (pure (pos 0)) worker []
      (record { self = record running_client { work = vectors (worker ∷ []) }; log = [] })
      (λ m'. refl) refl (refl, tt)

abbrev left_handlers : Machine TcpServer
left_handlers = record {
  self = record running_server {
    rec_handlers = (pos 5, record { handle = pos 1; joinable = true }) ∷ [];
  };
  log = [];
}

second_run_throws_example :
    ((finish_accepting working >>= λ _. stop working >>= λ _. finish_accepting working)
      left_handlers).0
    ≡ throws system_error
second_run_throws_example =
    second_run_throws (Unit {0}) working (stop working) (pos 5) (pos 1) left_handlers
      (λ m'. unfold stop in ground arith) refl
