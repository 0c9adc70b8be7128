-- ===== src/Examples/TlsClients.antt =====
-- Runs of `TlsClient`.
use tcp_server_client.Prelude.{
  ◌<◌, true, false, ◌&&◌, [], ◌∷◌, ◌++◌, length, some, List, ◌≡◌, ◌⊎◌, ◌↔◌, refl,
}
use tcp_server_client.Prelude.Int.{pos, eqb_ℤ, to_signed}
use tcp_server_client.Exec.{
  Call, access, add_ssl_algorithms, ssl_ctx_new, load_verify_locations, use_certificate_file,
  use_private_key_file, set_mode_auto_retry, set_verify, set_verify_depth, ssl_write, require,
}
use tcp_server_client.Exec.Runs.{Returns}
use tcp_server_client.Framing.{may_send, frame}
use tcp_server_client.Client.{send_msg}
use tcp_server_client.TlsClient.{TlsClient, init, load_ca, load_certificate, set_authentication}
use tcp_server_client.TlsClient as Client
use tcp_server_client.TlsClient.Setup.{ca_loads, certificate_loads, client_init-ok}
use tcp_server_client.TlsClient.Sending.{tls_send_msg_sends}
use tcp_server_client.Examples.Calls.{openssl, tls_client}

abbrev with_certificates : TlsClient
with_certificates = record tls_client {
  derived = record tls_client.derived {
    certificatepath_ca = 97 ∷ [];
    certificatepath_cert = 98 ∷ [];
    certificatepath_key = 99 ∷ [];
  };
}

abbrev with_context : TlsClient
with_context = record with_certificates {
  derived = record with_certificates.derived { client_context = pos 1 };
}

abbrev set_up : List Call
set_up =
    set_verify_depth 1
    ∷ set_verify false
    ∷ set_mode_auto_retry
    ∷ use_private_key_file (99 ∷ [])
    ∷ use_certificate_file (98 ∷ [])
    ∷ access (99 ∷ [])
    ∷ access (98 ∷ [])
    ∷ load_verify_locations (97 ∷ [])
    ∷ access (97 ∷ [])
    ∷ ssl_ctx_new
    ∷ add_ssl_algorithms
    ∷ []

abbrev made : List Call
made = ssl_ctx_new ∷ add_ssl_algorithms ∷ []

abbrev load_of_ca : List Call
load_of_ca = load_verify_locations (97 ∷ []) ∷ access (97 ∷ []) ∷ []

client_init-ok_example :
    (eqb_ℤ (pos 1) (pos 0) ≡ false)
    × (ca_loads openssl with_certificates.derived made ≡ true)
    × (certificate_loads openssl with_certificates.derived (load_of_ca ++ made) ≡ true)
    × (set_up ≡ set_up)
    × (with_context ≡ with_context)
client_init-ok_example =
    client_init-ok openssl (record { self = with_certificates; log = [] })
      (record { self = with_context; log = set_up })
      (unfold init load_ca load_certificate set_authentication require in refl)

abbrev connected : TlsClient
connected = record with_context { running = true; client_socket = some (pos 1) }

tls_send_msg_sends_example :
    let framed = frame connected.framing (97 ∷ []) in
    let asked = to_signed 32 (length framed) in
    Returns
      (λ sent m'.
        (m'.self ≡ connected)
        × (((may_send connected.framing (97 ∷ []) && true) ≡ true)
              × (m'.log ≡ ssl_write (pos 1) framed asked ∷ [])
              × (sent ≡ eqb_ℤ (pos 1) asked)
            ⊎ ((may_send connected.framing (97 ∷ []) && true) ≡ false)
              × (m'.log ≡ [])
              × (sent ≡ false))
        × ((asked ≡ pos (length framed)) ↔ (length framed < 2147483648)))
      (send_msg openssl
        (Client.tls_client openssl)
        (97 ∷ [])
        (record { self = connected; log = [] }))
tls_send_msg_sends_example =
    tls_send_msg_sends openssl (97 ∷ []) (record { self = connected; log = [] })
