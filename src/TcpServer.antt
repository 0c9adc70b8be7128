-- ===== src/TcpServer.antt =====
-- `TcpServer` of src/TcpServer.hpp: a server over plain TCP.
pub mod Laws
use tcp_server_client.Prelude.{ℕ, Bool, Option, some, length}
use tcp_server_client.Prelude.Int.{ℤ, eqb_ℤ, to_signed}
use tcp_server_client.Exec.{Bytes, Os, Exec, recv, send, pure, call, call_bytes, ◌>>=◌, ◌>>◌}
use tcp_server_client.Framing.{continuous, fragmented}
use tcp_server_client.ReadMsg.{maximum_receive_package_size, received}
use tcp_server_client.Server.{Server, Protocol, new_server, server_start_ok, destroy}

-- Nothing is added to `Server<int>`.
abbrev pub TcpServer : Type 0
TcpServer = Server (Unit {0})

abbrev pub continuous_tcp_server : TcpServer
continuous_tcp_server = new_server continuous tt

abbrev pub fragmented_tcp_server : ℕ → Bytes → ℕ → TcpServer
fragmented_tcp_server delimiter append max_length =
    new_server (fragmented delimiter append max_length) tt

module _ (os : Os) where
  unfoldable pub init : Exec TcpServer ℤ
  init = pure server_start_ok

  unfoldable pub connection_init : ℤ → Exec TcpServer (Option ℤ)
  connection_init client = pure (some client)

  unfoldable pub connection_deinit : ℤ → Exec TcpServer (Unit {0})
  connection_deinit socket = pure tt

  unfoldable pub read_msg : ℤ → Exec TcpServer Bytes
  read_msg socket = do
    (len, text) ← call_bytes os (recv socket maximum_receive_package_size)
    pure (received len text)

  unfoldable pub write_msg : ℤ → Bytes → Exec TcpServer Bool
  write_msg client msg = do
    sent ← call os (send client msg)
    pure (eqb_ℤ sent (to_signed 64 (length msg)))

  -- `std::default_delete<int>`
  unfoldable pub delete_socket : ℤ → Exec TcpServer (Unit {0})
  delete_socket connection = pure tt

  abbrev pub tcp_server : Protocol (Unit {0})
  tcp_server = record {
    init = init;
    connection_init = connection_init;
    connection_deinit = connection_deinit;
    read_msg = read_msg;
    write_msg = write_msg;
    delete_socket = delete_socket;
  }

-- The destructor.
abbrev pub destroy_tcp_server : Os → Exec TcpServer (Unit {0})
destroy_tcp_server os = destroy os (tcp_server os)
