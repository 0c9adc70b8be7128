-- ===== src/Server/Trace.antt =====
-- The calls that `Server::stop` makes, in order.
use tcp_server_client.Prelude.{false, ◌≡◌, List, [], ◌∷◌, ◌++◌, arith, if◌then◌else◌}
use tcp_server_client.Prelude.Int.{nonzero}
use tcp_server_client.Exec.{Os, Machine, Call, shut_rdwr, shutdown, close, join_acceptor, ok}
use tcp_server_client.Server.{Server, stop}

module _ {D : Type 0} (os : Os) where
  -- The calls that `stop` adds to a log, latest first.
  abbrev pub stop_calls : Server D → List Call → List Call
  stop_calls s log =
      let shut = shutdown s.tcp_socket shut_rdwr in
      (if nonzero (os.result log shut) then [] else close s.tcp_socket ∷ [])
      ++ (if s.acc_handler then join_acceptor ∷ [] else [])
      ++ shut ∷ log

  -- `stop` shuts the listening socket down, waits for the accept thread if there is one, and closes
  -- the socket if and only if the shutdown succeeded. The number of the socket stays, so that the
  -- next `stop`, the destructor's too, calls for the same number again.
  pub stop_lem :
      (m : Machine (Server D))
      → stop os m ≡ (
        ok tt,
        record {
          self = record m.self { running = false; acc_handler = false };
          log = stop_calls m.self m.log;
        },
      )
  unfolding stop
  stop_lem m = ground arith
