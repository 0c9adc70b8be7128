-- ===== src/TlsServer/Accepting.antt =====
-- `TlsServer` as what the accept thread of `Server` relies on.
use tcp_server_client.Prelude.{refl, arith}
use tcp_server_client.Exec.{Os}
use tcp_server_client.Server.Tending.{Accepting}
use tcp_server_client.TlsServer.{tls_server, connection_init, handshake, hang_up, delete_socket}

pub tls_server-Accepting : (os : Os) → Accepting (tls_server os)
unfolding connection_init handshake hang_up delete_socket
tls_server-Accepting os = record {
  keeps_handlers = λ client m. ground arith;
  deletes = λ s m. (refl, refl, omega arith);
}
