-- ===== src/TlsClient.antt =====
-- `TlsClient` of src/TlsClient.hpp: a client over TLS. OpenSSL is outside; all its context calls act
-- on `clientContext`, and its objects are numbers, with 0 for a null pointer.
pub mod Laws
pub mod Setup
pub mod Sending
use tcp_server_client.Prelude.{
  ℕ, Bool, true, false, not, ◌&&◌, ◌||◌, Option, none, some, List, [], length, if◌then◌else◌,
}
use tcp_server_client.Prelude.Int.{ℤ, pos, minus_one, nonzero, eqb_ℤ, to_signed}
use tcp_server_client.Exec.{
  Bytes, Os, Exec, access, add_ssl_algorithms, ssl_ctx_new, load_verify_locations,
  use_certificate_file, use_private_key_file, set_mode_auto_retry, set_verify, set_verify_depth,
  set_ciphersuites, ssl_new, ssl_set_fd, ssl_connect, ssl_shutdown, ssl_free, ssl_read, ssl_write,
  get_peer_certificate, get_text_by_nid, not_connected, invalid_nid, undefined_behaviour, pure,
  throw, gets, modify, call, call_bytes, ◌>>=◌, ◌>>◌, require,
}
use tcp_server_client.Framing.{continuous, fragmented}
use tcp_server_client.ReadMsg.{maximum_receive_package_size, received}
use tcp_server_client.TlsServer.{empty, c_string, not_one}
use tcp_server_client.Client.{
  Client, Protocol, new_client, client_start_ok, delete_old, is_running, stop, fail,
}

-- The return codes that `init` adds to those of `start`.
abbrev pub set_context_error : ℤ
set_context_error = pos 20

abbrev pub wrong_ca_path : ℤ
wrong_ca_path = pos 30

abbrev pub wrong_cert_path : ℤ
wrong_cert_path = pos 31

abbrev pub wrong_key_path : ℤ
wrong_key_path = pos 32

abbrev pub wrong_ca : ℤ
wrong_ca = pos 33

abbrev pub wrong_cert : ℤ
wrong_cert = pos 34

abbrev pub wrong_key : ℤ
wrong_key = pos 35

-- The members that `TlsClient` adds.
pub record Tls : Type 0 where
  pub client_context : ℤ
  pub certificatepath_ca : Bytes
  pub certificatepath_cert : Bytes
  pub certificatepath_key : Bytes
  pub server_authentication : Bool

abbrev pub TlsClient : Type 0
TlsClient = Client Tls

abbrev no_certificates : Bool → Tls
no_certificates authentication = record {
  client_context = pos 0;
  certificatepath_ca = [];
  certificatepath_cert = [];
  certificatepath_key = [];
  server_authentication = authentication;
}

-- The constructor for continuous mode gives `SERVER_AUTHENTICATION` no value: what it holds is an
-- argument here, like what `tcpSocket` holds.
abbrev pub continuous_tls_client : ℤ → Bool → TlsClient
continuous_tls_client fd authentication = new_client fd continuous (no_certificates authentication)

abbrev pub fragmented_tls_client : ℤ → ℕ → Bytes → ℕ → TlsClient
fragmented_tls_client fd delimiter append max_length =
    new_client fd (fragmented delimiter append max_length) (no_certificates true)

abbrev change : (Tls → Tls) → Exec TlsClient (Unit {0})
change f = modify (λ s. record s { derived = f s.derived })

unfoldable pub set_certificates : Bytes → Bytes → Bytes → Exec TlsClient (Unit {0})
set_certificates ca cert key = change (λ d. record d {
  certificatepath_ca = ca;
  certificatepath_cert = cert;
  certificatepath_key = key;
})

pub clear_certificates : Exec TlsClient (Unit {0})
clear_certificates =
    change (λ d. record d {
      certificatepath_ca = [];
      certificatepath_cert = [];
      certificatepath_key = [];
    })

pub require_server_authentication : Bool → Exec TlsClient (Unit {0})
require_server_authentication server_auth =
    change (λ d. record d { server_authentication = server_auth })

-- `clientSocket.get()`
abbrev pub ssl_of : Option ℤ → ℤ
ssl_of none = pos 0
ssl_of (some ssl) = ssl

-- `validCert`
abbrev pub valid_cert : Tls → Bool
valid_cert d = not (empty d.certificatepath_cert || empty d.certificatepath_key)

-- Must the server have a certificate that the CA has issued?
abbrev pub verifies : Tls → Bool
verifies d = d.server_authentication && not (empty d.certificatepath_ca)

module _ (os : Os) where
  -- `SSL_shutdown(clientSocket.get());` for a pointer that is not null.
  unfoldable pub shut_ssl_down : Option ℤ → Exec TlsClient (Unit {0})
  shut_ssl_down none = pure tt
  shut_ssl_down (some ssl) = call os (ssl_shutdown ssl) >> pure tt

  unfoldable pub connection_deinit : Exec TlsClient (Unit {0})
  connection_deinit = do connection ← gets (λ s. s.client_socket); shut_ssl_down connection

  unfoldable pub read_msg : Exec TlsClient Bytes
  read_msg = do
    connection ← gets (λ s. s.client_socket)
    (len, text) ← call_bytes os (ssl_read (ssl_of connection) maximum_receive_package_size)
    pure (received len text)

  unfoldable pub write_msg : Bytes → Exec TlsClient Bool
  write_msg msg = do
    connection ← gets (λ s. s.client_socket)
    written ← call os (ssl_write (ssl_of connection) msg (to_signed 32 (length msg)))
    pure (eqb_ℤ written (to_signed 32 (length msg)))

  -- A null pointer is what `SSL_get_peer_certificate` hands over for a server without a certificate;
  -- the subject name is then read through it.
  unfoldable pub get_subj_part_from_server_cert : ℤ → Exec TlsClient Bytes
  get_subj_part_from_server_cert subj_part = do
    running ← is_running
    if not running then throw not_connected else do
      connection ← gets (λ s. s.client_socket)
      cert ← call os (get_peer_certificate (ssl_of connection))
      if eqb_ℤ cert (pos 0) then throw undefined_behaviour else do
        (r, text) ← call_bytes os (get_text_by_nid cert subj_part)
        if eqb_ℤ minus_one r then throw (invalid_nid subj_part) else pure (c_string text)

  -- `connectionInit` from `SSL_set_fd` on.
  unfoldable pub handshake : ℤ → ℤ → Exec TlsClient (Option ℤ)
  handshake fd ssl = do
    bound ← call os (ssl_set_fd ssl fd)
    if eqb_ℤ bound (pos 0) then (call os (ssl_free ssl) >> pure none) else do
      connected ← call os (ssl_connect ssl)
      if not_one connected then (call os (ssl_free ssl) >> pure none) else pure (some ssl)

  unfoldable pub connection_init : Exec TlsClient (Option ℤ)
  connection_init = do
    suites ← call os set_ciphersuites
    if eqb_ℤ suites (pos 0) then pure none else do
      ssl ← call os ssl_new
      if eqb_ℤ ssl (pos 0) then pure none else do fd ← gets (λ s. s.tcp_socket); handshake fd ssl

  -- The end of `init`: the mode, and whether the server must authenticate itself.
  unfoldable pub set_authentication : Tls → Exec TlsClient ℤ
  set_authentication d = do
    call os set_mode_auto_retry
    if verifies d
        then (do call os (set_verify false); call os (set_verify_depth 1); pure client_start_ok)
        else pure client_start_ok

  -- `init` from the certificate and key of the client on, which are optional.
  unfoldable pub load_certificate : Tls → Exec TlsClient ℤ
  load_certificate d =
      if not (valid_cert d)
      then set_authentication d
      else require os (access d.certificatepath_cert) nonzero
          (fail os connection_deinit wrong_cert_path)
          (require os (access d.certificatepath_key) nonzero
            (fail os connection_deinit wrong_key_path)
            (require os (use_certificate_file d.certificatepath_cert) not_one
              (fail os connection_deinit wrong_cert)
              (require os (use_private_key_file d.certificatepath_key) not_one
                (fail os connection_deinit wrong_key) (set_authentication d))))

  -- `init` from the CA certificate on.
  unfoldable pub load_ca : Tls → Exec TlsClient ℤ
  load_ca d =
      if empty d.certificatepath_ca
      then load_certificate d
      else require os (access d.certificatepath_ca) nonzero
          (fail os connection_deinit wrong_ca_path)
          (require os (load_verify_locations d.certificatepath_ca) not_one
            (fail os connection_deinit wrong_ca) (load_certificate d))

  unfoldable pub init : Exec TlsClient ℤ
  init = do
    call os add_ssl_algorithms
    ctx ← call os ssl_ctx_new
    change (λ d. record d { client_context = ctx })
    if eqb_ℤ ctx (pos 0)
        then fail os connection_deinit set_context_error
        else do d ← gets (λ s. s.derived); load_ca d

  -- `Client_SSL_Deleter`
  unfoldable pub delete_socket : ℤ → Exec TlsClient (Unit {0})
  delete_socket ssl = do call os (ssl_free ssl); pure tt

  abbrev pub tls_client : Protocol Tls
  tls_client = record {
    init = init;
    connection_init = connection_init;
    connection_deinit = connection_deinit;
    read_msg = read_msg;
    write_msg = write_msg;
    delete_socket = delete_socket;
  }

-- The destructor.
unfoldable pub destroy_tls_client : Os → Exec TlsClient (Unit {0})
destroy_tls_client os = do
  stop os (connection_deinit os)
  old ← gets (λ s. s.client_socket)
  delete_old os (tls_client os) old
