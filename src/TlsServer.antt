-- ===== src/TlsServer.antt =====
-- `TlsServer` of src/TlsServer.hpp: a server over TLS. OpenSSL is outside; all its context calls
-- act on `serverContext`, and its objects are numbers, with 0 for a null pointer.
pub mod Laws
pub mod Closing
pub mod Setup
pub mod Accepting
use tcp_server_client.Prelude.{
  ℕ, Bool, true, false, not, ◌&&◌, Option, none, some, List, [], ◌∷◌, length, if◌then◌else◌,
}
use tcp_server_client.Prelude.Int.{ℤ, pos, minus_one, nonzero, eqb_ℤ, to_signed}
use tcp_server_client.Exec.{
  Bytes, Os, Exec, shut_rdwr, shutdown, close, access, add_ssl_algorithms, ssl_ctx_new,
  load_verify_locations, set_client_ca_list, use_certificate_file, use_private_key_file,
  set_mode_auto_retry, set_verify, set_verify_depth, set_ciphersuites, ssl_new, ssl_set_fd,
  ssl_accept, ssl_shutdown, ssl_free, ssl_read, ssl_write, get_peer_certificate, get_text_by_nid,
  no_connected_client, invalid_nid, undefined_behaviour, pure, throw, gets, modify, call,
  call_bytes, ◌>>=◌, ◌>>◌, require,
}
use tcp_server_client.Framing.{continuous, fragmented}
use tcp_server_client.Maps.{find, set}
use tcp_server_client.ReadMsg.{maximum_receive_package_size, received}
use tcp_server_client.Server.{Server, Protocol, new_server, server_start_ok, stop, destroy}

-- The return codes that `init` adds to those of `start`.
abbrev pub set_context_error : ℤ
set_context_error = pos 20

abbrev pub wrong_ca_path : ℤ
wrong_ca_path = pos 30

abbrev pub wrong_cert_path : ℤ
wrong_cert_path = pos 31

abbrev pub wrong_key_path : ℤ
wrong_key_path = pos 32

abbrev pub wrong_ca : ℤ
wrong_ca = pos 33

abbrev pub wrong_cert : ℤ
wrong_cert = pos 34

abbrev pub wrong_key : ℤ
wrong_key = pos 35

-- The members that `TlsServer` adds.
pub record Tls : Type 0 where
  pub server_context : ℤ
  pub certificatepath_ca : Bytes
  pub certificatepath_cert : Bytes
  pub certificatepath_key : Bytes
  pub client_authentication : Bool

abbrev pub TlsServer : Type 0
TlsServer = Server Tls

-- The constructor for continuous mode gives `CLIENT_AUTHENTICATION` no value: what it holds is an
-- argument here.
abbrev pub continuous_tls_server : Bool → TlsServer
continuous_tls_server indeterminate = new_server continuous (record {
  server_context = pos 0;
  certificatepath_ca = [];
  certificatepath_cert = [];
  certificatepath_key = [];
  client_authentication = indeterminate;
})

abbrev pub fragmented_tls_server : ℕ → Bytes → ℕ → TlsServer
fragmented_tls_server delimiter append max_length =
    new_server (fragmented delimiter append max_length) (record {
      server_context = pos 0;
      certificatepath_ca = [];
      certificatepath_cert = [];
      certificatepath_key = [];
      client_authentication = true;
    })

abbrev change : (Tls → Tls) → Exec TlsServer (Unit {0})
change f = modify (λ s. record s { derived = f s.derived })

unfoldable pub set_certificates : Bytes → Bytes → Bytes → Exec TlsServer (Unit {0})
set_certificates ca cert key = change (λ d. record d {
  certificatepath_ca = ca;
  certificatepath_cert = cert;
  certificatepath_key = key;
})

pub clear_certificates : Exec TlsServer (Unit {0})
clear_certificates =
    change (λ d. record d {
      certificatepath_ca = [];
      certificatepath_cert = [];
      certificatepath_key = [];
    })

pub require_client_authentication : Bool → Exec TlsServer (Unit {0})
require_client_authentication client_auth =
    change (λ d. record d { client_authentication = client_auth })

-- `text.empty()`
abbrev pub empty : Bytes → Bool
empty [] = true
empty (_ ∷ _) = false

-- `1 != result`
abbrev pub not_one : ℤ → Bool
not_one r = not (eqb_ℤ (pos 1) r)

-- The text up to its first NUL, as `std::string(buf)` reads it.
abbrev pub c_string : Bytes → Bytes
c_string [] = []
c_string (c ∷ cs) = if eqb_ℤ (pos c) (pos 0) then [] else c ∷ c_string cs

module _ (os : Os) where
  -- The answer for the certificate of a connection. A client that has sent no certificate has none,
  -- and the subject name is then read through a null pointer.
  subject_part : Option ℤ → ℤ → ℤ → Exec TlsServer Bytes
  subject_part none client subj_part = throw (no_connected_client client)
  subject_part (some ssl) client subj_part = do
    cert ← call os (get_peer_certificate ssl)
    if eqb_ℤ cert (pos 0) then throw undefined_behaviour else do
      (r, text) ← call_bytes os (get_text_by_nid cert subj_part)
      if eqb_ℤ minus_one r then throw (invalid_nid subj_part) else pure (c_string text)

  pub get_subj_part_from_client_cert : ℤ → ℤ → Exec TlsServer Bytes
  unfolding subject_part
  get_subj_part_from_client_cert client subj_part = do
    connection ← gets (λ s. find client s.active_connections)
    subject_part connection client subj_part

  -- `stop(); return code;`
  abbrev pub fail : ℤ → Exec TlsServer ℤ
  fail code = stop os >> pure code

  -- The end of `init`: the mode, and whether clients must authenticate themselves.
  unfoldable pub set_authentication : Tls → Exec TlsServer ℤ
  set_authentication d = do
    call os set_mode_auto_retry
    if d.client_authentication && not (empty d.certificatepath_ca)
        then (do call os (set_verify true); call os (set_verify_depth 1); pure server_start_ok)
        else pure server_start_ok

  -- `init` from the certificate and key of the server on.
  unfoldable pub load_certificate : Tls → Exec TlsServer ℤ
  load_certificate d = require os (access d.certificatepath_cert) nonzero (fail wrong_cert_path) (
      require os (access d.certificatepath_key) nonzero (fail wrong_key_path) (
        require os (use_certificate_file d.certificatepath_cert) not_one (fail wrong_cert) (
          require os (use_private_key_file d.certificatepath_key) not_one (fail wrong_key)
            (set_authentication d))))

  -- `init` from the CA certificate on.
  unfoldable pub load_ca : Tls → Exec TlsServer ℤ
  load_ca d =
      if empty d.certificatepath_ca
      then load_certificate d
      else require os (access d.certificatepath_ca) nonzero (fail wrong_ca_path) (
          require os (load_verify_locations d.certificatepath_ca) not_one (fail wrong_ca)
            (call os (set_client_ca_list d.certificatepath_ca) >> load_certificate d))

  unfoldable pub init : Exec TlsServer ℤ
  init = do
    call os add_ssl_algorithms
    ctx ← call os ssl_ctx_new
    change (λ d. record d { server_context = ctx })
    if eqb_ℤ ctx (pos 0) then fail set_context_error else do d ← gets (λ s. s.derived); load_ca d

  -- `shutdown(clientId, SHUT_RDWR); close(clientId);`
  unfoldable pub hang_up : ℤ → Exec TlsServer (Unit {0})
  hang_up client = do call os (shutdown client shut_rdwr); call os (close client); pure tt

  -- `connectionInit` from `SSL_set_fd` on.
  unfoldable pub handshake : ℤ → ℤ → Exec TlsServer (Option ℤ)
  handshake client ssl = do
    bound ← call os (ssl_set_fd ssl client)
    if eqb_ℤ bound (pos 0)
        then (do call os (ssl_shutdown ssl); hang_up client; call os (ssl_free ssl); pure none)
        else do
          accepted ← call os (ssl_accept ssl)
          if not (eqb_ℤ (pos 1) accepted)
              then (do
                call os (ssl_shutdown ssl)
                hang_up client
                call os (ssl_free ssl)
                pure none)
              else pure (some ssl)

  unfoldable pub connection_init : ℤ → Exec TlsServer (Option ℤ)
  connection_init client = do
    suites ← call os set_ciphersuites
    if eqb_ℤ suites (pos 0) then (do hang_up client; pure none) else do
      ssl ← call os ssl_new
      if eqb_ℤ ssl (pos 0)
          then (do hang_up client; call os (ssl_free ssl); pure none)
          else handshake client ssl

  unfoldable pub connection_deinit : ℤ → Exec TlsServer (Unit {0})
  connection_deinit socket = do call os (ssl_shutdown socket); pure tt

  unfoldable pub read_msg : ℤ → Exec TlsServer Bytes
  read_msg socket = do
    (len, text) ← call_bytes os (ssl_read socket maximum_receive_package_size)
    pure (received len text)

  -- `activeConnections[clientId].get()`: a missing entry is made, with a null pointer.
  unfoldable pub connection_of : Option ℤ → ℤ → Exec TlsServer ℤ
  connection_of (some ssl) client = pure ssl
  connection_of none client = do
    modify (λ s. record s { active_connections = set client (pos 0) s.active_connections })
    pure (pos 0)

  unfoldable pub write_msg : ℤ → Bytes → Exec TlsServer Bool
  write_msg client msg = do
    connection ← gets (λ s. find client s.active_connections)
    socket ← connection_of connection client
    written ← call os (ssl_write socket msg (to_signed 32 (length msg)))
    pure (eqb_ℤ written (to_signed 32 (length msg)))

  -- `Server_SSL_Deleter`
  unfoldable pub delete_socket : ℤ → Exec TlsServer (Unit {0})
  delete_socket ssl = do call os (ssl_free ssl); pure tt

  abbrev pub tls_server : Protocol Tls
  tls_server = record {
    init = init;
    connection_init = connection_init;
    connection_deinit = connection_deinit;
    read_msg = read_msg;
    write_msg = write_msg;
    delete_socket = delete_socket;
  }

-- The destructor.
abbrev pub destroy_tls_server : Os → Exec TlsServer (Unit {0})
destroy_tls_server os = destroy os (tls_server os)
