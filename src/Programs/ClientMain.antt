-- ===== src/Programs/ClientMain.antt =====
-- example/client.cpp: four clients in each round of a menu, of which the user chooses two.
pub mod Rounds
pub mod Ends
use tcp_server_client.Prelude.{
  ℕ, zero, suc, Bool, true, false, ◌||◌, ◌==◌, Option, none, some, [], ◌∷◌, ◌++◌, if◌then◌else◌,
}
use tcp_server_client.Prelude.Int.{ℤ, pos, minus_one, nonzero, eqb_ℤ}
use tcp_server_client.Exec.{
  Bytes, Os, Exec, Call, print, read_char, open_file, sleep, pure, modify, call, diverge, ◌>>=◌,
  ◌>>◌,
}
use tcp_server_client.Framing.RoundTrip.{default_max_length}
use tcp_server_client.Client.{Client, set_work_on_message, start, send_msg}
use tcp_server_client.TcpClient.{
  TcpClient, continuous_tcp_client, fragmented_tcp_client, tcp_client, destroy_tcp_client,
}
use tcp_server_client.TlsClient.{
  TlsClient, continuous_tls_client, fragmented_tls_client, set_certificates, tls_client,
  destroy_tls_client,
}
use tcp_server_client.Programs.{codes, within, print_line}

-- The objects of a round.
pub record Clients : Type 0 where
  pub tcp_fragmented : TcpClient
  pub tcp_continuous : TcpClient
  pub tls_fragmented : TlsClient
  pub tls_continuous : TlsClient

-- What the members hold that no constructor gives a value.
pub record Indeterminate : Type 0 where
  pub fd_tcp_fragmented : ℤ
  pub fd_tcp_continuous : ℤ
  pub fd_tls_fragmented : ℤ
  pub fd_tls_continuous : ℤ
  pub authentication : Bool

-- "Create client instances"
abbrev pub clients : Indeterminate → Clients
clients v = record {
  tcp_fragmented = fragmented_tcp_client v.fd_tcp_fragmented b'\n' [] default_max_length;
  tcp_continuous = continuous_tcp_client v.fd_tcp_continuous;
  tls_fragmented = fragmented_tls_client v.fd_tls_fragmented b'\n' [] default_max_length;
  tls_continuous = continuous_tls_client v.fd_tls_continuous v.authentication;
}

abbrev pub tcpf : {A : Type 0} → Exec TcpClient A → Exec Clients A
tcpf = within (λ w. w.tcp_fragmented) (λ s w. record w { tcp_fragmented = s })

abbrev pub tcpc : {A : Type 0} → Exec TcpClient A → Exec Clients A
tcpc = within (λ w. w.tcp_continuous) (λ s w. record w { tcp_continuous = s })

abbrev pub tlsf : {A : Type 0} → Exec TlsClient A → Exec Clients A
tlsf = within (λ w. w.tls_fragmented) (λ s w. record w { tls_fragmented = s })

abbrev pub tlsc : {A : Type 0} → Exec TlsClient A → Exec Clients A
tlsc = within (λ w. w.tls_continuous) (λ s w. record w { tls_continuous = s })

abbrev pub localhost : Bytes
localhost = codes "localhost"

-- What the user has chosen.
pub data Decision : Type 0 where
  continuous_mode fragmented_mode quit : Decision

-- The labels of the `switch`.
abbrev pub decide : ℤ → Decision
decide c =
    if eqb_ℤ c (pos b'c') || eqb_ℤ c (pos b'C')
    then continuous_mode
    else if eqb_ℤ c (pos b'f') || eqb_ℤ c (pos b'F')
    then fragmented_mode
    else quit

-- `decimal` is what the console prints for a number.
module _ (os : Os) (decimal : ℤ → Bytes) where
  pub tcp_fragmented_work_on_message : Bytes → Exec Clients (Unit {0})
  tcp_fragmented_work_on_message msg =
      print_line os (codes "Fragmented message received from TCP server: " ++ msg)

  pub tls_fragmented_work_on_message : Bytes → Exec Clients (Unit {0})
  tls_fragmented_work_on_message msg =
      print_line os (codes "Fragmented message received from TLS server: " ++ msg)

  -- "Link all worker methods and forwarding streams": a callback is whether it is set.
  unfoldable pub link_workers : Exec Clients (Unit {0})
  link_workers = do tcpf (set_work_on_message true); tlsf (set_work_on_message true)

  -- "Get user input": the character, or what `decision` holds if there is none.
  unfoldable pub get_decision : Exec Clients ℤ
  get_decision = do
    print_line os (codes "What mode shall be used to send messages?")
    print_line os (codes "    c: Continuous mode")
    print_line os (codes "    f: Fragmented mode")
    print_line os (codes "    q: Quit")
    call os read_char

  -- The cases of the `switch`; the result is what `main` returns, if it does.
  unfoldable pub continuous_case : Exec Clients (Option ℤ)
  continuous_case = do
    tlsc (
        set_certificates (codes "../keys/ca/ca_cert.pem") (codes "../keys/client/client_cert.pem")
          (codes "../keys/client/client_key.pem"))
    a ← tcpc (start os (tcp_client os) localhost (pos 8082))
    b ← tlsc (start os (tls_client os) localhost (pos 8084))
    if nonzero a || nonzero b
        then (do
          print_line os (codes "Error starting continuous clients.")
          print_line os (codes "TCP client (continuous) returned " ++ decimal a)
          print_line os (codes "TLS client (continuous) returned " ++ decimal b)
          pure (some minus_one))
        else (do
          call os (sleep 50)
          tcpc (send_msg os (tcp_client os) (codes "Hello TCP server! - continuous mode"))
          tlsc (send_msg os (tls_client os) (codes "Hello TLS server! - continuous mode"))
          pure none)

  unfoldable pub fragmented_case : Exec Clients (Option ℤ)
  fragmented_case = do
    tlsf (
        set_certificates (codes "../keys/ca/ca_cert.pem") (codes "../keys/client/client_cert.pem")
          (codes "../keys/client/client_key.pem"))
    a ← tcpf (start os (tcp_client os) localhost (pos 8081))
    b ← tlsf (start os (tls_client os) localhost (pos 8083))
    if nonzero a || nonzero b
        then (do
          print_line os (codes "Error starting fragmented clients.")
          print_line os (codes "TCP client (fragmented) returned " ++ decimal a)
          print_line os (codes "TLS client (fragmented) returned " ++ decimal b)
          pure (some minus_one))
        else (do
          call os (sleep 50)
          tcpf (send_msg os (tcp_client os) (codes "Hello TCP server! - fragmented mode"))
          tlsf (send_msg os (tls_client os) (codes "Hello TLS server! - fragmented mode"))
          pure none)

  unfoldable pub run_case : Decision → Exec Clients (Option ℤ)
  run_case continuous_mode = continuous_case
  run_case fragmented_mode = fragmented_case
  run_case quit = pure (some (pos 0))

  -- The destructors at the end of a round, in the reverse order of the constructors.
  unfoldable pub destroy_clients : Exec Clients (Unit {0})
  destroy_clients = do
    tlsc (destroy_tls_client os)
    tlsf (destroy_tls_client os)
    tcpc (destroy_tcp_client os)
    tcpf (destroy_tcp_client os)

  -- One round of `while (true)`.
  unfoldable pub round : Indeterminate → Exec Clients (Option ℤ)
  round v = do
    modify (λ _. clients v)
    link_workers
    c ← get_decision
    r ← run_case (decide c)
    destroy_clients
    pure r

  -- The end of a round: the return of `main`, or the rounds after it.
  unfoldable pub returned : Exec Clients ℤ → Option ℤ → Exec Clients ℤ
  returned next none = next
  returned next (some r) = pure r

  -- `fuel` bounds how many rounds there are; what is indeterminate may differ from round to round.
  unfoldable pub main : (ℕ → Indeterminate) → ℕ → Exec Clients ℤ
  main v zero = diverge
  main v (suc fuel) = do r ← round (v fuel); returned (main v fuel) r

  -- The two streams, which are global objects, are opened before `main`.
  unfoldable pub open_streams : Exec Clients (Unit {0})
  open_streams = do
    call os (open_file (codes "Message_From_Continuous_TCP_Server.txt"))
    call os (open_file (codes "Message_From_Continuous_TLS_Server.txt"))
    pure tt

  unfoldable pub program : (ℕ → Indeterminate) → ℕ → Exec Clients ℤ
  program v fuel = open_streams >> main v fuel
