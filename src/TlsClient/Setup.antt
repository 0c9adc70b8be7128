-- ===== src/TlsClient/Setup.antt =====
-- The calls of `init` of `TlsClient`.
use tcp_server_client.Prelude.{
  ap, ◌∙◌, Bool, true, false, not, ◌&&◌, ◌||◌, ◌≡◌, refl, List, [], ◌∷◌, ◌++◌, arith, if◌then◌else◌,
}
use tcp_server_client.Prelude.Int.{ℤ, pos, nonzero, eqb_ℤ}
use tcp_server_client.Exec.{
  Os, Machine, ok, Call, access, add_ssl_algorithms, ssl_ctx_new, load_verify_locations,
  use_certificate_file, use_private_key_file, set_mode_auto_retry, set_verify, set_verify_depth,
}
use tcp_server_client.Exec.Succeeds.{NeverOk, NeverOk-pure, if-ok, require-ok}
use tcp_server_client.Client.{fail, stop}
use tcp_server_client.TlsServer.{empty}
use tcp_server_client.TlsClient.{
  Tls, TlsClient, valid_cert, verifies, connection_deinit, set_authentication, load_certificate,
  load_ca, init, set_context_error, wrong_ca_path, wrong_ca, wrong_cert_path, wrong_key_path,
  wrong_cert, wrong_key,
}

module _ (os : Os) where
  -- The calls that make the context ask the server for a certificate of the CA, latest first.
  abbrev authentication_calls : Tls → List Call
  authentication_calls d = if verifies d then set_verify_depth 1 ∷ set_verify false ∷ [] else []

  -- What loading the CA certificate, if one is set, adds to a log.
  abbrev ca_calls : Tls → List Call → List Call
  ca_calls d log =
      if empty d.certificatepath_ca
      then log
      else load_verify_locations d.certificatepath_ca ∷ access d.certificatepath_ca ∷ log

  -- What loading the certificate and the key of the client, if both are set, adds to a log.
  abbrev certificate_calls : Tls → List Call → List Call
  certificate_calls d log =
      if not (valid_cert d)
      then log
      else use_private_key_file d.certificatepath_key
        ∷ use_certificate_file d.certificatepath_cert
        ∷ access d.certificatepath_key
        ∷ access d.certificatepath_cert
        ∷ log

  -- The CA certificate, if one is set, is found and loaded, by the answers after this log.
  abbrev pub ca_loads : Tls → List Call → Bool
  ca_loads d log =
      let ca = d.certificatepath_ca in
      empty ca
      || not (nonzero (os.result log (access ca)))
        && eqb_ℤ (pos 1) (os.result (access ca ∷ log) (load_verify_locations ca))

  -- The certificate and the key of the client, if both are set, are found and loaded, by the answers
  -- after this log.
  abbrev pub certificate_loads : Tls → List Call → Bool
  certificate_loads d log =
      let cert = d.certificatepath_cert in
      let key = d.certificatepath_key in
      not (valid_cert d)
      || not (nonzero (os.result log (access cert)))
        && not (nonzero (os.result (access cert ∷ log) (access key)))
        && eqb_ℤ (pos 1) (os.result (access key ∷ access cert ∷ log) (use_certificate_file cert))
        && eqb_ℤ (pos 1) (
            os.result (use_certificate_file cert ∷ access key ∷ access cert ∷ log)
              (use_private_key_file key))

  fail-NeverOk : (code : ℤ) → nonzero code ≡ true → NeverOk (fail os (connection_deinit os) code)
  fail-NeverOk code e = NeverOk-pure (stop os (connection_deinit os)) code e

  set_authentication-ok :
      (d : Tls) (m m' : Machine TlsClient)
      → set_authentication os d m ≡ (ok (pos 0), m')
      → m' ≡ record m { log = authentication_calls d ++ set_mode_auto_retry ∷ m.log }
  unfolding set_authentication
  set_authentication-ok d m m' h = ground arith

  load_certificate-ok :
      (has_none : Bool) (d : Tls) (m m' : Machine TlsClient)
      → not (valid_cert d) ≡ has_none
      → load_certificate os d m ≡ (ok (pos 0), m')
      → (certificate_loads d m.log ≡ true)
        × (m' ≡ record m {
          log = authentication_calls d ++ set_mode_auto_retry ∷ certificate_calls d m.log;
        })
  unfolding load_certificate
  load_certificate-ok true d m m' e h = (rw e refl, rw e (set_authentication-ok d m m' (rw e at h)))
  load_certificate-ok false d m m' e h =
      let (found_cert, h1) =
        require-ok os _ _ _ _ m m' (fail-NeverOk wrong_cert_path refl) (rw e at h) in
      let (found_key, h2) = require-ok os _ _ _ _ _ m' (fail-NeverOk wrong_key_path refl) h1 in
      let (took_cert, h3) = require-ok os _ _ _ _ _ m' (fail-NeverOk wrong_cert refl) h2 in
      let (took_key, h4) = require-ok os _ _ _ _ _ m' (fail-NeverOk wrong_key refl) h3 in
      (
        rw e (ground (arith, found_cert, found_key, took_cert, took_key)),
        rw e (set_authentication-ok d _ m' h4),
      )

  load_ca-ok :
      (has_none : Bool) (d : Tls) (m m' : Machine TlsClient)
      → empty d.certificatepath_ca ≡ has_none
      → load_ca os d m ≡ (ok (pos 0), m')
      → (ca_loads d m.log ≡ true)
        × (certificate_loads d (ca_calls d m.log) ≡ true)
        × (m' ≡ record m {
          log =
              authentication_calls d
              ++ set_mode_auto_retry ∷ certificate_calls d (ca_calls d m.log);
        })
  unfolding load_ca
  load_ca-ok true d m m' e h =
      let loaded = load_certificate-ok (not (valid_cert d)) d m m' refl (rw e at h) in
      (rw e refl, rw e (loaded.0), loaded.1 ∙ rw e refl)
  load_ca-ok false d m m' e h =
      let (found, h1) = require-ok os _ _ _ _ m m' (fail-NeverOk wrong_ca_path refl) (rw e at h) in
      let (took, h2) = require-ok os _ _ _ _ _ m' (fail-NeverOk wrong_ca refl) h1 in
      let loaded = load_certificate-ok (not (valid_cert d)) d _ m' refl h2 in
      (ground (arith, found, took), rw e (loaded.0), loaded.1 ∙ rw e refl)

  -- If `init` of a client returns 0, exactly these calls were made in this order: the context was
  -- made, the CA certificate was loaded, if one is set, the certificate and the key of the client
  -- were loaded, if both are set, and the server was made to show a certificate of the CA exactly if
  -- that is required and a CA certificate is set. The context is not null, every file was found, and
  -- every loading of one answered 1. Nothing but the context of the client has changed.
  pub client_init-ok :
      (m m' : Machine TlsClient)
      → init os m ≡ (ok (pos 0), m')
      → let ctx = os.result (add_ssl_algorithms ∷ m.log) ssl_ctx_new in
        let made = ssl_ctx_new ∷ add_ssl_algorithms ∷ m.log in
        (eqb_ℤ ctx (pos 0) ≡ false)
        × (ca_loads m.self.derived made ≡ true)
        × (certificate_loads m.self.derived (ca_calls m.self.derived made) ≡ true)
        × (m'.log
            ≡ authentication_calls m.self.derived
              ++ set_mode_auto_retry
                ∷ certificate_calls m.self.derived (ca_calls m.self.derived made))
        × (m'.self ≡ record m.self { derived = record m.self.derived { client_context = ctx } })
  unfolding init
  client_init-ok m m' e =
      let opened =
        if-ok (eqb_ℤ (os.result (add_ssl_algorithms ∷ m.log) ssl_ctx_new) (pos 0)) _ _ _ m'
          (fail-NeverOk set_context_error refl) e in
      let (ca, certificate, same) =
        load_ca-ok (empty m.self.derived.certificatepath_ca) _ _ m' refl opened.1 in
      (
        opened.0,
        ca,
        certificate,
        ap (λ (x : Machine TlsClient). x.log) same,
        ap (λ (x : Machine TlsClient). x.self) same,
      )
