-- ===== src/Programs/ServerMain.antt =====
-- example/server.cpp: four servers, which greet each client and print or store what it sends.
pub mod Codes
pub mod Ends
use tcp_server_client.Prelude.{ℕ, Bool, true, false, ◌||◌, [], ◌∷◌, ◌++◌, if◌then◌else◌}
use tcp_server_client.Prelude.Int.{ℤ, pos, minus_one, nonzero}
use tcp_server_client.Exec.{Bytes, Os, Exec, Call, open_file, read_char, pure, call, ◌>>=◌, ◌>>◌}
use tcp_server_client.Framing.RoundTrip.{default_max_length}
use tcp_server_client.Server.{
  Server, Protocol, set_work_on_established, set_work_on_message, set_work_on_closed,
  set_create_forward_stream, start, send_msg,
}
use tcp_server_client.TcpServer.{
  TcpServer, continuous_tcp_server, fragmented_tcp_server, tcp_server, destroy_tcp_server,
}
use tcp_server_client.TlsServer.{
  TlsServer, continuous_tls_server, fragmented_tls_server, set_certificates, tls_server,
  destroy_tls_server,
}
use tcp_server_client.Programs.{codes, within, print_line}

-- The global objects.
pub record Servers : Type 0 where
  pub tcp_fragmented : TcpServer
  pub tcp_continuous : TcpServer
  pub tls_fragmented : TlsServer
  pub tls_continuous : TlsServer

-- Their initial values. A member that a constructor gives no value is zero in a global object.
abbrev pub servers : Servers
servers = record {
  tcp_fragmented = fragmented_tcp_server b'\n' [] default_max_length;
  tcp_continuous = continuous_tcp_server;
  tls_fragmented = fragmented_tls_server b'\n' [] default_max_length;
  tls_continuous = continuous_tls_server false;
}

abbrev pub tcpf : {A : Type 0} → Exec TcpServer A → Exec Servers A
tcpf = within (λ w. w.tcp_fragmented) (λ s w. record w { tcp_fragmented = s })

abbrev pub tcpc : {A : Type 0} → Exec TcpServer A → Exec Servers A
tcpc = within (λ w. w.tcp_continuous) (λ s w. record w { tcp_continuous = s })

abbrev pub tlsf : {A : Type 0} → Exec TlsServer A → Exec Servers A
tlsf = within (λ w. w.tls_fragmented) (λ s w. record w { tls_fragmented = s })

abbrev pub tlsc : {A : Type 0} → Exec TlsServer A → Exec Servers A
tlsc = within (λ w. w.tls_continuous) (λ s w. record w { tls_continuous = s })

-- `decimal` is what `std::to_string` makes of a number, and the console prints.
module _ (os : Os) (decimal : ℤ → Bytes) where
  -- The worker methods of the TCP servers.
  pub tcp_fragmented_work_on_established : ℤ → Exec Servers Bool
  tcp_fragmented_work_on_established id = tcpf (
      send_msg os (tcp_server os) id
        (codes "Hello TCP client " ++ decimal id ++ codes " in fragmented mode!"))

  pub tcp_continuous_work_on_established : ℤ → Exec Servers Bool
  tcp_continuous_work_on_established id = tcpc (
      send_msg os (tcp_server os) id
        (codes "Hello TCP client " ++ decimal id ++ codes " in continuous mode!"))

  pub tcp_fragmented_work_on_message : ℤ → Bytes → Exec Servers (Unit {0})
  tcp_fragmented_work_on_message id msg =
      print_line os
        (codes "Fragmented message received from TCP client " ++ decimal id ++ codes ": " ++ msg)

  pub tcp_continuous_create_stream : ℤ → Exec Servers ℤ
  tcp_continuous_create_stream id =
      call os
        (open_file (codes "Message_From_Continuous_TCP_Client-" ++ decimal id ++ codes ".txt"))

  pub tcp_work_on_closed : ℤ → Exec Servers (Unit {0})
  tcp_work_on_closed id =
      print_line os (codes "TCP client " ++ decimal id ++ codes " closed connection.")

  -- The worker methods of the TLS servers.
  pub tls_fragmented_work_on_established : ℤ → Exec Servers Bool
  tls_fragmented_work_on_established id = tlsf (
      send_msg os (tls_server os) id
        (codes "Hello TLS client " ++ decimal id ++ codes " in fragmented mode!"))

  pub tls_continuous_work_on_established : ℤ → Exec Servers Bool
  tls_continuous_work_on_established id = tlsc (
      send_msg os (tls_server os) id
        (codes "Hello TLS client " ++ decimal id ++ codes " in continuous mode!"))

  pub tls_fragmented_work_on_message : ℤ → Bytes → Exec Servers (Unit {0})
  tls_fragmented_work_on_message id msg =
      print_line os
        (codes "Fragmented message received from TLS client " ++ decimal id ++ codes ": " ++ msg)

  pub tls_continuous_create_stream : ℤ → Exec Servers ℤ
  tls_continuous_create_stream id =
      call os
        (open_file (codes "Message_From_Continuous_TLS_Client-" ++ decimal id ++ codes ".txt"))

  pub tls_work_on_closed : ℤ → Exec Servers (Unit {0})
  tls_work_on_closed id =
      print_line os (codes "TLS client " ++ decimal id ++ codes " closed connection.")

  -- "Link all worker methods": a callback is whether it is set.
  unfoldable pub link_workers : Exec Servers (Unit {0})
  link_workers = do
    tcpf (set_work_on_established true)
    tcpf (set_work_on_message true)
    tcpf (set_work_on_closed true)
    tcpc (set_work_on_established true)
    tcpc (set_create_forward_stream true)
    tcpc (set_work_on_closed true)
    tlsf (set_work_on_established true)
    tlsf (set_work_on_message true)
    tlsf (set_work_on_closed true)
    tlsc (set_work_on_established true)
    tlsc (set_create_forward_stream true)
    tlsc (set_work_on_closed true)

  -- "Define certificates for TLS servers"
  unfoldable pub define_certificates : Exec Servers (Unit {0})
  define_certificates = do
    tlsf (
        set_certificates (codes "../keys/ca/ca_cert.pem") (codes "../keys/server/server_cert.pem")
          (codes "../keys/server/server_key.pem"))
    tlsc (
        set_certificates (codes "../keys/ca/ca_cert.pem") (codes "../keys/server/server_cert.pem")
          (codes "../keys/server/server_key.pem"))

  -- The end of `main`, for the codes of the four starts.
  unfoldable pub finish : ℤ → ℤ → ℤ → ℤ → Exec Servers ℤ
  finish a b c d =
      if nonzero a || nonzero b || nonzero c || nonzero d
      then (do
        print_line os (codes "Error starting servers.")
        print_line os (codes "TCP server (fragmented) returned " ++ decimal a)
        print_line os (codes "TCP server (continuous) returned " ++ decimal b)
        print_line os (codes "TLS server (fragmented) returned " ++ decimal c)
        print_line os (codes "TLS server (continuous) returned " ++ decimal d)
        pure minus_one)
      else (do
        print_line os (codes "Press ENTER to exit the program...")
        call os read_char
        pure (pos 0))

  unfoldable pub main : Exec Servers ℤ
  main = do
    link_workers
    define_certificates
    a ← tcpf (start os (tcp_server os) (pos 8081))
    b ← tcpc (start os (tcp_server os) (pos 8082))
    c ← tlsf (start os (tls_server os) (pos 8083))
    d ← tlsc (start os (tls_server os) (pos 8084))
    finish a b c d

  -- The destructors of the global objects, in the reverse order of their constructors.
  unfoldable pub destroy_servers : Exec Servers (Unit {0})
  destroy_servers = do
    tlsc (destroy_tls_server os)
    tlsf (destroy_tls_server os)
    tcpc (destroy_tcp_server os)
    tcpf (destroy_tcp_server os)

  -- The program: `main`, and the end of the global objects.
  unfoldable pub program : Exec Servers ℤ
  program = do r ← main; destroy_servers; pure r
