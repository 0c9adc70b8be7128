-- ===== src/TcpServer/Laws.antt =====
-- `TcpServer` as a supplier of what `Server` relies on; the calls of `start` and `sendMsg`.
use tcp_server_client.Prelude.{
  Bool, true, false, ◌&&◌, ◌≡◌, refl, ◌∷◌, none, some, length, arith, ◌⊎◌,
}
use tcp_server_client.Prelude.Int.{ℤ, pos, minus_one, ltb_ℤ, eqb_ℤ, nonzero, to_signed}
use tcp_server_client.Exec.{
  Bytes, Os, Machine, ok, recv, send, socket, setsockopt, bind, listen, spawn_acceptor, shutdown,
  shut_rdwr,
}
use tcp_server_client.Exec.Runs.{Returns}
use tcp_server_client.Exec.Trace.{IsQuiet-refl}
use tcp_server_client.Framing.{may_send, frame}
use tcp_server_client.Maps.{find}
use tcp_server_client.ReadMsg.{maximum_receive_package_size}
use tcp_server_client.Server.{
  send_msg, start, start_socket, start_binding, start_listening, start_accepting, bind_port_error,
}
use tcp_server_client.Server.Lifecycle.{Lifecycle, IsIdle}
use tcp_server_client.Server.Service.{Unseen}
use tcp_server_client.Server.Trace.{stop_lem}
use tcp_server_client.Server.Transport.{Transport}
use tcp_server_client.Server.Tending.{Accepting}
use tcp_server_client.TcpServer.{
  connection_init, TcpServer, tcp_server, init, connection_deinit, read_msg, write_msg,
  delete_socket,
}

pub tcp_server-Lifecycle : (os : Os) → Lifecycle (tcp_server os)
unfolding init write_msg delete_socket
tcp_server-Lifecycle os = record {
  init_law = λ m idle. idle;
  write_law = λ client msg m same. same;
  delete_law = λ fd m. refl;
}

pub tcp_server-Unseen : (os : Os) → Unseen (tcp_server os)
unfolding init write_msg
tcp_server-Unseen os = record {
  init_unseen = λ m. refl;
  write_unseen = λ client msg m. (refl, refl);
}

pub tcp_server-Transport : (os : Os) → Transport os (tcp_server os)
unfolding read_msg connection_deinit delete_socket
tcp_server-Transport os = record {
  read_call = λ s. recv s maximum_receive_package_size;
  reads = λ s. refl;
  hands_on_nothing = λ s. refl;
  forwards_nothing = λ s out. refl;
  read_law = λ s m. refl;
  delete_law = λ s m. IsQuiet-refl os m;
  deinit_law = λ s m. IsQuiet-refl os m;
}

module _ (os : Os) where
  abbrev pub connected : ℤ → TcpServer → Bool
  connected client s = elim (find client s.active_connections) [ none ↦ false | some _ ↦ true ]

  -- `sendMsg` never throws and leaves the object as it is. It sends, exactly once and to this client,
  -- the message with the appended text and the delimiter, if the message passes the tests and the
  -- client is connected, and is then true exactly if the system took the whole of it; otherwise it
  -- calls nothing and is false.
  pub send_msg_sends :
      (client : ℤ) (msg : Bytes) (m : Machine TcpServer)
      → Returns
          (λ sent m'.
            (m'.self ≡ m.self)
            × (((may_send m.self.framing msg && connected client m.self) ≡ true)
                  × (m'.log ≡ send client (frame m.self.framing msg) ∷ m.log)
                  × (sent
                      ≡ eqb_ℤ
                          (os.result m.log (send client (frame m.self.framing msg)))
                          (to_signed 64 (length (frame m.self.framing msg))))
                ⊎ ((may_send m.self.framing msg && connected client m.self) ≡ false)
                  × (m'.log ≡ m.log)
                  × (sent ≡ false)))
          (send_msg os (tcp_server os) client msg m)
  unfolding send_msg write_msg
  send_msg_sends client msg m = ground arith

  -- If `start` returns 0, the server was not running, the port lies between 1 and 65535, and exactly
  -- these calls were made in this order: a socket was opened, given its options, bound to the port
  -- and listened on, and the accept thread was started. The first four of them succeeded: the socket
  -- is not -1, and the other three answered 0. The server now runs on that socket, and nothing else
  -- of it has changed.
  pub start-ok :
      (port : ℤ) (m m' : Machine TcpServer)
      → start os (tcp_server os) port m ≡ (ok (pos 0), m')
      → let fd = os.result m.log socket in
        let optioned = setsockopt fd ∷ socket ∷ m.log in
        (m.self.running ≡ false)
        × (ltb_ℤ port (pos 1) ≡ false)
        × (ltb_ℤ (pos 65535) port ≡ false)
        × (eqb_ℤ minus_one fd ≡ false)
        × (nonzero (os.result (socket ∷ m.log) (setsockopt fd)) ≡ false)
        × (nonzero (os.result optioned (bind fd port)) ≡ false)
        × (nonzero (os.result (bind fd port ∷ optioned) (listen fd)) ≡ false)
        × (m'.log ≡ spawn_acceptor ∷ listen fd ∷ bind fd port ∷ optioned)
        × (m'.self ≡ record m.self { tcp_socket = fd; acc_handler = true; running = true })
  unfolding start init start_socket start_binding start_listening start_accepting
  start-ok port m m' e = ground (arith)

  -- If `bind` fails, and so does `shutdown`, as it does on a socket that is not connected, then
  -- `start` on a server that is not running returns the code for it and leaves the socket that it
  -- opened open: no call closes it.
  pub bind_failure_leaks :
      (port : ℤ) (m : Machine TcpServer)
      → IsIdle m.self
      → ltb_ℤ port (pos 1) ≡ false
      → ltb_ℤ (pos 65535) port ≡ false
      → let fd = os.result m.log socket in
        eqb_ℤ minus_one fd ≡ false
        → nonzero (os.result (socket ∷ m.log) (setsockopt fd)) ≡ false
        → nonzero (os.result (setsockopt fd ∷ socket ∷ m.log) (bind fd port)) ≡ true
        → nonzero
            (os.result (bind fd port ∷ setsockopt fd ∷ socket ∷ m.log) (shutdown fd shut_rdwr))
          ≡ true
        → start os (tcp_server os) port m ≡ (
          ok bind_port_error,
          record {
            self = record m.self { tcp_socket = fd };
            log = shutdown fd shut_rdwr ∷ bind fd port ∷ setsockopt fd ∷ socket ∷ m.log;
          },
        )
  unfolding start init start_socket start_binding start_listening
  bind_failure_leaks port m idle low high opened optioned refused stuck = ground (
    arith,
    stop_lem os (record {
      self = record m.self { tcp_socket = os.result m.log socket };
      log =
          bind (os.result m.log socket) port ∷ setsockopt (os.result m.log socket) ∷ socket ∷ m.log;
    }),
  )

pub tcp_server-Accepting : (os : Os) → Accepting (tcp_server os)
unfolding connection_init delete_socket
tcp_server-Accepting os = record {
  keeps_handlers = λ client m. (refl, refl, omega arith);
  deletes = λ s m. (refl, refl, omega arith);
}
