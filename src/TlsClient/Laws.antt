-- ===== src/TlsClient/Laws.antt =====
-- `TlsClient` as a supplier of what `Client` relies on; `init` and `connectionInit`.
use tcp_server_client.Prelude.{
  Bool, true, false, not, ◌≡◌, refl, ap, ◌∙◌, ◌∷◌, none, some, Option, arith, ◌⊎◌,
}
use tcp_server_client.Prelude.Int.{ℤ, pos, eqb_ℤ}
use tcp_server_client.Exec.{
  Os, Machine, Call, Exec, require, add_ssl_algorithms, ssl_ctx_new, set_ciphersuites, ssl_new,
  ssl_set_fd, ssl_connect, ssl_shutdown, ssl_free, ssl_read,
}
use tcp_server_client.Exec.Runs.{Returns, Returns-weaken, Runs-if, Runs-bind, Runs-require}
use tcp_server_client.Exec.Trace.{IsQuiet, IsQuiet-refl, IsQuiet-call}
use tcp_server_client.ReadMsg.{maximum_receive_package_size}
use tcp_server_client.Client.Service.{Unseen}
use tcp_server_client.Client.Transport.{Transport}
use tcp_server_client.Client.{stop, fail}
use tcp_server_client.Client.Lifecycle.{Lifecycle, IsIdle, stop-IsIdle}
use tcp_server_client.TlsServer.{empty}
use tcp_server_client.TlsClient.{
  Tls, TlsClient, valid_cert, set_authentication, load_certificate, load_ca, init, handshake,
  connection_init, connection_deinit, tls_client, shut_ssl_down, read_msg, write_msg, delete_socket,
  ssl_of,
}

module _ (os : Os) where
  deinit-same :
      (m : Machine TlsClient) → Returns (λ _ m'. m'.self ≡ m.self) (connection_deinit os m)
  unfolding connection_deinit shut_ssl_down
  deinit-same m = ground arith

-- A property of the client that `stop` keeps, and that is not about what TLS adds, is kept by `init`.
module _ (os : Os) (IsKept : TlsClient → Type 0)
    (stop_law : (m : Machine TlsClient)
      → IsKept m.self
      → Returns (λ _ m'. IsKept m'.self) (stop os (connection_deinit os) m))
    (derived_law : (s : TlsClient) (d : Tls) → IsKept s → IsKept (record s { derived = d })) where
  abbrev Kept : ℤ → Machine TlsClient → Type 0
  Kept _ m = IsKept m.self

  fail-IsKept :
      (code : ℤ) (m : Machine TlsClient)
      → IsKept m.self
      → Returns Kept (fail os (connection_deinit os) code m)
  fail-IsKept code m h =
      Runs-bind Kept (λ _. ⊥) (stop os (connection_deinit os)) _ m (stop_law m h) (λ _ m' k. k)

  -- A call of `init` that must succeed.
  require-IsKept :
      (c : Call) (failed : ℤ → Bool) (code : ℤ) (next : Exec TlsClient ℤ) (m : Machine TlsClient)
      → IsKept m.self
      → Returns Kept (next (record m { log = c ∷ m.log }))
      → Returns Kept (require os c failed (fail os (connection_deinit os) code) next m)
  require-IsKept c failed code next m k h =
      Runs-require Kept (λ _. ⊥) os c failed (fail os (connection_deinit os) code) next m
        (fail-IsKept code (record m { log = c ∷ m.log }) k) h

  set_authentication-IsKept :
      (d : Tls) (m : Machine TlsClient) → IsKept m.self → Returns Kept (set_authentication os d m)
  unfolding set_authentication
  set_authentication-IsKept d m idle = ground arith

  load_certificate-IsKept :
      (d : Tls) (m : Machine TlsClient) → IsKept m.self → Returns Kept (load_certificate os d m)
  unfolding load_certificate
  load_certificate-IsKept d m idle =
      Runs-if Kept (λ _. ⊥) (not (valid_cert d)) _ _ m (λ _. set_authentication-IsKept d m idle)
        (λ _. require-IsKept _ _ _ _ _ idle (
          require-IsKept _ _ _ _ _ idle (
            require-IsKept _ _ _ _ _ idle
              (require-IsKept _ _ _ _ _ idle (set_authentication-IsKept d _ idle)))))

  load_ca-IsKept : (d : Tls) (m : Machine TlsClient) → IsKept m.self → Returns Kept (load_ca os d m)
  unfolding load_ca
  load_ca-IsKept d m idle =
      Runs-if Kept (λ _. ⊥) (empty d.certificatepath_ca) _ _ m
        (λ _. load_certificate-IsKept d m idle)
        (λ _.
          require-IsKept _ _ _ _ _ idle
            (require-IsKept _ _ _ _ _ idle (load_certificate-IsKept d _ idle)))

  init-IsKept : (m : Machine TlsClient) → IsKept m.self → Returns Kept (init os m)
  unfolding init
  init-IsKept m idle =
      Runs-if Kept (λ _. ⊥) (eqb_ℤ (os.result (add_ssl_algorithms ∷ m.log) ssl_ctx_new) (pos 0)) _ _
        _ (λ _. fail-IsKept _ _ (derived_law m.self _ idle))
        (λ _. load_ca-IsKept _ _ (derived_law m.self _ idle))

module _ (os : Os) where
  init-IsIdle :
      (m : Machine TlsClient) → IsIdle m.self → Returns (λ _ m'. IsIdle m'.self) (init os m)
  init-IsIdle m idle =
      init-IsKept os IsIdle (λ m _. stop-IsIdle os (connection_deinit os) m (deinit-same os))
        (λ s d idle. idle) m idle

  stop_framing :
      (m : Machine TlsClient)
      → Returns (λ _ m'. m'.self.framing ≡ m.self.framing) (stop os (connection_deinit os) m)
  unfolding stop connection_deinit shut_ssl_down
  stop_framing m = ground arith

  init-framing :
      (m : Machine TlsClient) → Returns (λ _ m'. m'.self.framing ≡ m.self.framing) (init os m)
  init-framing m =
      init-IsKept os (λ s. s.framing ≡ m.self.framing)
        (λ m1 same.
          Returns-weaken (λ _ m'. m'.self.framing ≡ m.self.framing)
            (stop os (connection_deinit os) m1) (λ _ m' h. h ∙ same) (stop_framing m1))
        (λ s d same. same) m refl

  -- `connectionInit` leaves the client as it is and throws nothing. The TLS object that it hands over
  -- is not null, was bound to the socket of the client and has done the handshake, after cipher suites
  -- were set, each of these calls having succeeded. It hands over none exactly after the first of
  -- these calls that failed, and then a TLS object that was made is freed by the last call.
  pub client_connection_init-Returns :
      (m : Machine TlsClient)
      → let ssl = os.result (set_ciphersuites ∷ m.log) ssl_new in
        let made = ssl_new ∷ set_ciphersuites ∷ m.log in
        let bound = ssl_set_fd ssl m.self.tcp_socket ∷ made in
        Returns
          (λ connection m'. (m'.self ≡ m.self) × (elim connection [
            | none ↦
                (m'.log ≡ set_ciphersuites ∷ m.log)
                  × (eqb_ℤ (os.result m.log set_ciphersuites) (pos 0) ≡ true)
                ⊎ (m'.log ≡ made) × (eqb_ℤ ssl (pos 0) ≡ true)
                ⊎ (m'.log ≡ ssl_free ssl ∷ bound)
                  × (eqb_ℤ (os.result made (ssl_set_fd ssl m.self.tcp_socket)) (pos 0) ≡ true)
                ⊎ (m'.log ≡ ssl_free ssl ∷ ssl_connect ssl ∷ bound)
                  × (eqb_ℤ (pos 1) (os.result bound (ssl_connect ssl)) ≡ false)
            | some ssl' ↦
                (ssl' ≡ ssl)
                × (eqb_ℤ (os.result m.log set_ciphersuites) (pos 0) ≡ false)
                × (eqb_ℤ ssl (pos 0) ≡ false)
                × (eqb_ℤ (os.result made (ssl_set_fd ssl m.self.tcp_socket)) (pos 0) ≡ false)
                × (m'.log ≡ ssl_connect ssl ∷ bound)
                × (os.result bound (ssl_connect ssl) ≡ pos 1)
          ]))
          (connection_init os m)
  unfolding connection_init handshake
  client_connection_init-Returns m = ground arith

  connection_init-IsIdle :
      (m : Machine TlsClient)
      → IsIdle m.self
      → Returns (λ _ m'. IsIdle m'.self) (connection_init os m)
  unfolding connection_init handshake
  connection_init-IsIdle m idle = ground arith

pub tls_client-Unseen : (os : Os) → Unseen (tls_client os)
unfolding write_msg
tls_client-Unseen os = record {
  init_unseen = λ m. init-framing os m;
  connection_unseen = λ m.
      Returns-weaken (λ _ m'. m'.self.framing ≡ m.self.framing) (connection_init os m)
        (λ _ m' h. ap (λ (s : TlsClient). s.framing) h.0) (client_connection_init-Returns os m);
  write_unseen = λ msg m. (refl, refl, refl);
}

pub tls_client-Lifecycle : (os : Os) → Lifecycle (tls_client os)
unfolding delete_socket
tls_client-Lifecycle os = record {
  init_law = λ m idle. init-IsIdle os m idle;
  connection_law = λ m idle. connection_init-IsIdle os m idle;
  deinit_law = λ m. deinit-same os m;
  delete_law = λ s m. refl;
}

module _ (os : Os) where
  deinit-IsQuiet :
      (connection : Option ℤ) (m : Machine TlsClient)
      → Returns (λ _ m'. IsQuiet os m m') (shut_ssl_down os connection m)
  unfolding shut_ssl_down
  deinit-IsQuiet none m = IsQuiet-refl os m
  deinit-IsQuiet (some ssl) m = IsQuiet-call os m (ssl_shutdown ssl) refl refl (λ _. refl)

  pub tls_client-Transport : Transport os (tls_client os)
  unfolding read_msg connection_deinit
  tls_client-Transport = record {
    read_call = λ s. ssl_read (ssl_of s.client_socket) maximum_receive_package_size;
    reads = λ s. refl;
    hands_on_nothing = λ s. refl;
    forwards_nothing = λ s out. refl;
    read_law = λ m. refl;
    deinit_law = λ m. deinit-IsQuiet m.self.client_socket m;
  }
