-- ===== src/TcpClient/Laws.antt =====
-- `TcpClient` as a supplier of what `Client` relies on; the calls of `start` and `sendMsg`.
use tcp_server_client.Prelude.{true, false, ◌&&◌, ◌||◌, ◌≡◌, refl, ◌∷◌, some, length, arith, ◌⊎◌}
use tcp_server_client.Prelude.Int.{ℤ, pos, minus_one, ltb_ℤ, eqb_ℤ, nonzero, to_signed}
use tcp_server_client.Exec.{
  Bytes, Os, Machine, ok, recv, send, socket, setsockopt, gethostbyname, connect, spawn_receiver,
  shutdown, shut_rdwr, require,
}
use tcp_server_client.Exec.Runs.{Returns}
use tcp_server_client.Framing.{may_send, frame}
use tcp_server_client.Client.{
  send_msg, start, start_socket, start_connecting, start_connection, connection_ready, delete_old,
  start_receiving, stop, connect_error,
}
use tcp_server_client.Exec.Trace.{IsQuiet-refl}
use tcp_server_client.ReadMsg.{maximum_receive_package_size}
use tcp_server_client.Client.Lifecycle.{Lifecycle}
use tcp_server_client.Client.Service.{Unseen}
use tcp_server_client.Client.Transport.{Transport}
use tcp_server_client.TcpClient.{
  TcpClient, tcp_client, init, connection_init, connection_deinit, read_msg, write_msg,
  delete_socket,
}

pub tcp_client-Lifecycle : (os : Os) → Lifecycle (tcp_client os)
unfolding init connection_init connection_deinit delete_socket
tcp_client-Lifecycle os = record {
  init_law = λ m idle. idle;
  connection_law = λ m idle. idle;
  deinit_law = λ m. refl;
  delete_law = λ s m. refl;
}

pub tcp_client-Unseen : (os : Os) → Unseen (tcp_client os)
unfolding init connection_init write_msg
tcp_client-Unseen os = record {
  init_unseen = λ m. refl;
  connection_unseen = λ m. refl;
  write_unseen = λ msg m. (refl, refl, refl);
}

pub tcp_client-Transport : (os : Os) → Transport os (tcp_client os)
unfolding read_msg connection_deinit
tcp_client-Transport os = record {
  read_call = λ s. recv s.tcp_socket maximum_receive_package_size;
  reads = λ s. refl;
  hands_on_nothing = λ s. refl;
  forwards_nothing = λ s out. refl;
  read_law = λ m. refl;
  deinit_law = λ m. IsQuiet-refl os m;
}

module _ (os : Os) where
  -- `sendMsg` never throws and leaves the object as it is. It sends, exactly once and on the socket of
  -- the client, the message with the appended text and the delimiter, if the message passes the tests
  -- and the client runs, and is then true exactly if the system took the whole of it; otherwise it
  -- calls nothing and is false.
  pub client_send_msg_sends :
      (msg : Bytes) (m : Machine TcpClient)
      → let sending = send m.self.tcp_socket (frame m.self.framing msg) in
        Returns
          (λ sent m'.
            (m'.self ≡ m.self)
            × (((may_send m.self.framing msg && m.self.running) ≡ true)
                  × (m'.log ≡ sending ∷ m.log)
                  × (sent
                      ≡ eqb_ℤ
                          (os.result m.log sending)
                          (to_signed 64 (length (frame m.self.framing msg))))
                ⊎ ((may_send m.self.framing msg && m.self.running) ≡ false)
                  × (m'.log ≡ m.log)
                  × (sent ≡ false)))
          (send_msg os (tcp_client os) msg m)
  unfolding send_msg write_msg
  client_send_msg_sends msg m = ground arith

  -- If `start` returns 0, the client was not running, its last receive thread had been joined, the
  -- port lies between 1 and 65535, and exactly these calls were made in this order: a socket was
  -- opened and given its options, the name was looked up, the socket was connected to its address,
  -- and the receive thread was started. All but the last of them succeeded: the socket is not -1, the
  -- lookup did not answer null, and the setting of the options and the connection answered 0. The
  -- client now runs on that socket, and nothing else of it has changed.
  pub client_start-ok :
      (ip : Bytes) (port : ℤ) (m m' : Machine TcpClient)
      → start os (tcp_client os) ip port m ≡ (ok (pos 0), m')
      → let fd = os.result m.log socket in
        let optioned = setsockopt fd ∷ socket ∷ m.log in
        let connecting = connect fd (os.bytes optioned (gethostbyname ip)) port in
        (m.self.running ≡ false)
        × (m.self.rec_handler ≡ false)
        × (ltb_ℤ port (pos 1) ≡ false)
        × (ltb_ℤ (pos 65535) port ≡ false)
        × (eqb_ℤ minus_one fd ≡ false)
        × (nonzero (os.result (socket ∷ m.log) (setsockopt fd)) ≡ false)
        × (eqb_ℤ (os.result optioned (gethostbyname ip)) (pos 0) ≡ false)
        × (nonzero (os.result (gethostbyname ip ∷ optioned) connecting) ≡ false)
        × (m'.log ≡ spawn_receiver (pos 0) ∷ connecting ∷ gethostbyname ip ∷ optioned)
        × (m'.self ≡ record m.self {
          tcp_socket = fd;
          client_socket = some fd;
          rec_handler = true;
          running = true;
        })
  unfolding start init start_socket start_connecting start_connection delete_old delete_socket
      connection_init connection_ready start_receiving require stop
  client_start-ok ip port m m' e = ground arith

  -- If `connect` fails, and so does `shutdown`, as it does on a socket that is not connected, then
  -- `start` on a client that neither runs nor has a receive thread returns the code for it and leaves
  -- the socket that it opened open: no call closes it.
  pub connect_failure_leaks :
      (ip : Bytes) (port : ℤ) (m : Machine TcpClient)
      → m.self.running ≡ false
      → m.self.rec_handler ≡ false
      → (ltb_ℤ port (pos 1) || ltb_ℤ (pos 65535) port) ≡ false
      → let fd = os.result m.log socket in
        let before = setsockopt fd ∷ socket ∷ m.log in
        let connecting = connect fd (os.bytes before (gethostbyname ip)) port in
        let after = connecting ∷ gethostbyname ip ∷ before in
        eqb_ℤ minus_one fd ≡ false
        → nonzero (os.result (socket ∷ m.log) (setsockopt fd)) ≡ false
        → eqb_ℤ (os.result before (gethostbyname ip)) (pos 0) ≡ false
        → nonzero (os.result (gethostbyname ip ∷ before) connecting) ≡ true
        → nonzero (os.result after (shutdown fd shut_rdwr)) ≡ true
        → start os (tcp_client os) ip port m ≡ (
          ok connect_error,
          record { self = record m.self { tcp_socket = fd }; log = shutdown fd shut_rdwr ∷ after },
        )
  unfolding start init start_socket start_connecting start_connection delete_old delete_socket
      connection_init connection_ready start_receiving require stop connection_deinit
  connect_failure_leaks ip port m off alone valid opened optioned found refused stuck = ground arith
