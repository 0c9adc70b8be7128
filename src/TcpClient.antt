-- ===== src/TcpClient.antt =====
-- `TcpClient` of src/TcpClient.hpp: a client over plain TCP.
pub mod Laws
use tcp_server_client.Prelude.{ℕ, Bool, Option, some, length}
use tcp_server_client.Prelude.Int.{ℤ, eqb_ℤ, to_signed}
use tcp_server_client.Exec.{Bytes, Os, Exec, recv, send, pure, gets, call, call_bytes, ◌>>=◌, ◌>>◌}
use tcp_server_client.Framing.{continuous, fragmented}
use tcp_server_client.ReadMsg.{maximum_receive_package_size, received}
use tcp_server_client.Client.{Client, Protocol, new_client, client_start_ok, delete_old, stop}

-- Nothing is added to `Client<int>`.
abbrev pub TcpClient : Type 0
TcpClient = Client (Unit {0})

abbrev pub continuous_tcp_client : ℤ → TcpClient
continuous_tcp_client indeterminate = new_client indeterminate continuous tt

abbrev pub fragmented_tcp_client : ℤ → ℕ → Bytes → ℕ → TcpClient
fragmented_tcp_client indeterminate delimiter append max_length =
    new_client indeterminate (fragmented delimiter append max_length) tt

module _ (os : Os) where
  unfoldable pub init : Exec TcpClient ℤ
  init = pure client_start_ok

  -- A pointer to a copy of `tcpSocket`.
  unfoldable pub connection_init : Exec TcpClient (Option ℤ)
  connection_init = do fd ← gets (λ s. s.tcp_socket); pure (some fd)

  unfoldable pub connection_deinit : Exec TcpClient (Unit {0})
  connection_deinit = pure tt

  unfoldable pub read_msg : Exec TcpClient Bytes
  read_msg = do
    fd ← gets (λ s. s.tcp_socket)
    (len, text) ← call_bytes os (recv fd maximum_receive_package_size)
    pure (received len text)

  unfoldable pub write_msg : Bytes → Exec TcpClient Bool
  write_msg msg = do
    fd ← gets (λ s. s.tcp_socket)
    sent ← call os (send fd msg)
    pure (eqb_ℤ sent (to_signed 64 (length msg)))

  -- `std::default_delete<int>`
  unfoldable pub delete_socket : ℤ → Exec TcpClient (Unit {0})
  delete_socket connection = pure tt

  abbrev pub tcp_client : Protocol (Unit {0})
  tcp_client = record {
    init = init;
    connection_init = connection_init;
    connection_deinit = connection_deinit;
    read_msg = read_msg;
    write_msg = write_msg;
    delete_socket = delete_socket;
  }

-- The destructor.
unfoldable pub destroy_tcp_client : Os → Exec TcpClient (Unit {0})
destroy_tcp_client os = do
  stop os (connection_deinit os)
  old ← gets (λ s. s.client_socket)
  delete_old os (tcp_client os) old
