-- ===== src/Examples/Calls.antt =====
-- TLS set-ups and handshakes on concrete objects.
use tcp_server_client.Prelude.{true, false, List, [], ◌∷◌, ◌++◌, none, some, ◌≡◌, refl, ◌⊎◌}
use tcp_server_client.Prelude.Int.{ℤ, pos, eqb_ℤ}
use tcp_server_client.Exec.{
  Os, Call, require, add_ssl_algorithms, ssl_ctx_new, access, load_verify_locations,
  set_client_ca_list, use_certificate_file, use_private_key_file, set_mode_auto_retry, set_verify,
  set_verify_depth, set_ciphersuites, ssl_new, ssl_set_fd, ssl_accept, ssl_connect, ssl_free,
}
use tcp_server_client.Exec.Runs.{Returns}
use tcp_server_client.TlsServer.{
  TlsServer, fragmented_tls_server, init, load_ca, load_certificate, set_authentication,
  connection_init, tls_server,
}
use tcp_server_client.TlsServer.Closing.{end_calls, close_connection-calls}
use tcp_server_client.Workers.Prune.{Worker, vectors}
use tcp_server_client.Server.Receive.{close_connection}
use tcp_server_client.TlsServer.Setup.{ca_loads, certificate_loads, init-ok}
use tcp_server_client.TlsServer.Laws.{IsHungUp, connection_init-Returns}
use tcp_server_client.TlsClient as Client
use tcp_server_client.TlsClient.Laws.{client_connection_init-Returns}

-- Files are found, and OpenSSL succeeds at everything; its objects are number 1.
abbrev openssl_result : Call → ℤ
openssl_result (access _) = pos 0
openssl_result _ = pos 1

abbrev pub openssl : Os
openssl = record { result = λ log c. openssl_result c; bytes = λ log c. [] }

abbrev with_certificates : TlsServer
with_certificates =
    let s = fragmented_tls_server 124 [] 10 in
    record s {
      derived = record s.derived {
        certificatepath_ca = 97 ∷ [];
        certificatepath_cert = 98 ∷ [];
        certificatepath_key = 99 ∷ [];
      };
    }

abbrev with_context : TlsServer
with_context = record with_certificates {
  derived = record with_certificates.derived { server_context = pos 1 };
}

abbrev set_up : List Call
set_up =
    set_verify_depth 1
    ∷ set_verify true
    ∷ set_mode_auto_retry
    ∷ use_private_key_file (99 ∷ [])
    ∷ use_certificate_file (98 ∷ [])
    ∷ access (99 ∷ [])
    ∷ access (98 ∷ [])
    ∷ set_client_ca_list (97 ∷ [])
    ∷ load_verify_locations (97 ∷ [])
    ∷ access (97 ∷ [])
    ∷ ssl_ctx_new
    ∷ add_ssl_algorithms
    ∷ []

abbrev made : List Call
made = ssl_ctx_new ∷ add_ssl_algorithms ∷ []

abbrev load_of_ca : List Call
load_of_ca = set_client_ca_list (97 ∷ []) ∷ load_verify_locations (97 ∷ []) ∷ access (97 ∷ []) ∷ []

init-ok_example :
    (eqb_ℤ (pos 1) (pos 0) ≡ false)
    × (ca_loads openssl with_certificates.derived made ≡ true)
    × (certificate_loads openssl with_certificates.derived (load_of_ca ++ made) ≡ true)
    × (set_up
        ≡ (set_verify_depth 1 ∷ set_verify true ∷ [])
          ++ set_mode_auto_retry
            ∷ use_private_key_file (99 ∷ [])
            ∷ use_certificate_file (98 ∷ [])
            ∷ access (99 ∷ [])
            ∷ access (98 ∷ [])
            ∷ set_client_ca_list (97 ∷ [])
            ∷ load_verify_locations (97 ∷ [])
            ∷ access (97 ∷ [])
            ∷ ssl_ctx_new
            ∷ add_ssl_algorithms
            ∷ [])
    × (with_context ≡ with_context)
init-ok_example =
    init-ok openssl (record { self = with_certificates; log = [] })
      (record { self = with_context; log = set_up })
      (unfold init load_ca load_certificate set_authentication require in refl)

connection_init-Returns_example :
    Returns
      (λ connection m'. (m'.self ≡ with_context) × (elim connection [
        | none ↦ IsHungUp openssl (pos 5) [] m'.log
        | some ssl ↦
            (m'.log ≡ ssl_accept ssl ∷ ssl_set_fd ssl (pos 5) ∷ ssl_new ∷ set_ciphersuites ∷ [])
            × (ssl ≡ pos 1)
            × (eqb_ℤ (pos 1) (pos 0) ≡ false)
            × (eqb_ℤ ssl (pos 0) ≡ false)
            × (eqb_ℤ (pos 1) (pos 0) ≡ false)
            × (pos 1 ≡ pos 1)
      ]))
      (connection_init openssl (pos 5) (record { self = with_context; log = [] }))
connection_init-Returns_example =
    connection_init-Returns openssl (pos 5) (record { self = with_context; log = [] })

abbrev pub tls_client : Client.TlsClient
tls_client = Client.fragmented_tls_client (pos 7) 124 [] 10

abbrev bound : List Call
bound = ssl_set_fd (pos 1) (pos 7) ∷ ssl_new ∷ set_ciphersuites ∷ []

client_connection_init-Returns_example :
    Returns
      (λ connection m'. (m'.self ≡ tls_client) × (elim connection [
        | none ↦
            (m'.log ≡ set_ciphersuites ∷ []) × (eqb_ℤ (pos 1) (pos 0) ≡ true)
            ⊎ (m'.log ≡ ssl_new ∷ set_ciphersuites ∷ []) × (eqb_ℤ (pos 1) (pos 0) ≡ true)
            ⊎ (m'.log ≡ ssl_free (pos 1) ∷ bound) × (eqb_ℤ (pos 1) (pos 0) ≡ true)
            ⊎ (m'.log ≡ ssl_free (pos 1) ∷ ssl_connect (pos 1) ∷ bound)
              × (eqb_ℤ (pos 1) (pos 1) ≡ false)
        | some ssl' ↦
            (ssl' ≡ pos 1)
            × (eqb_ℤ (pos 1) (pos 0) ≡ false)
            × (eqb_ℤ (pos 1) (pos 0) ≡ false)
            × (eqb_ℤ (pos 1) (pos 0) ≡ false)
            × (m'.log ≡ ssl_connect (pos 1) ∷ bound)
            × (pos 1 ≡ pos 1)
      ]))
      (Client.connection_init openssl (record { self = tls_client; log = [] }))
client_connection_init-Returns_example =
    client_connection_init-Returns openssl (record { self = tls_client; log = [] })

-- A server with one connection, whose object is number 1 on socket 5.
abbrev connected_server : TlsServer
connected_server = record with_context { active_connections = (pos 5, pos 1) ∷ [] }

abbrev one_worker : List Worker
one_worker = (record { thread = record { handle = pos 3; joinable = true }; flag = pos 3 }) ∷ []

close_connection-calls_example :
    Returns
      (λ _ m'. m'.log ≡ end_calls openssl (pos 5) (pos 1) one_worker connected_server [])
      (close_connection openssl
        (tls_server openssl)
        (pos 5)
        (pos 1)
        (vectors one_worker)
        (record { self = connected_server; log = [] }))
close_connection-calls_example =
    close_connection-calls openssl (pos 5) (pos 1) one_worker
      (record { self = connected_server; log = [] }) (refl, tt)
