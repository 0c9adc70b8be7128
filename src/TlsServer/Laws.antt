-- ===== src/TlsServer/Laws.antt =====
-- `TlsServer` as a supplier of what `Server` relies on; `init` and `connectionInit`.
use tcp_server_client.Prelude.{
  Bool, true, false, ◌≡◌, refl, List, [], ◌∷◌, ◌++◌, ◌∙◌, none, some, arith, ◌⊎◌, if◌then◌else◌,
}
use tcp_server_client.Prelude.Int.{ℤ, pos, eqb_ℤ}
use tcp_server_client.Exec.{
  Bytes, Os, Machine, Call, Exec, require, ssl_accept, ssl_new, ssl_set_fd, set_ciphersuites,
  shutdown, shut_rdwr, add_ssl_algorithms, ssl_ctx_new, ssl_shutdown, ssl_read, close, ssl_free,
}
use tcp_server_client.Exec.Runs.{Returns, Returns-weaken, Runs-if, Runs-bind, Runs-require}
use tcp_server_client.Exec.Trace.{IsQuiet-call}
use tcp_server_client.ReadMsg.{maximum_receive_package_size}
use tcp_server_client.Server.{stop}
use tcp_server_client.Server.Lifecycle.{Lifecycle, IsConsistent, IsIdle, stop-IsIdle}
use tcp_server_client.Server.Service.{Unseen}
use tcp_server_client.Server.Service.Refinement.{stop-framing}
use tcp_server_client.Server.Transport.{Transport}
use tcp_server_client.TlsServer.{
  Tls, TlsServer, empty, fail, set_authentication, load_certificate, load_ca, init, hang_up,
  handshake, connection_init, connection_deinit, connection_of, read_msg, write_msg, delete_socket,
  tls_server, set_context_error,
}

-- A property of the server that `stop` keeps, and that is not about what TLS adds, is kept by `init`.
module _ (os : Os) (IsKept : TlsServer → Type 0)
    (stop_law : (m : Machine TlsServer)
      → IsKept m.self
      → Returns (λ _ m'. IsKept m'.self) (stop os m))
    (derived_law : (s : TlsServer) (d : Tls) → IsKept s → IsKept (record s { derived = d })) where
  fail-IsKept :
      (code : ℤ) (m : Machine TlsServer)
      → IsKept m.self
      → Returns (λ _ m'. IsKept m'.self) (fail os code m)
  fail-IsKept code m h =
      Runs-bind (λ _ m'. IsKept m'.self) (λ _. ⊥) (stop os) _ m (stop_law m h) (λ _ m' k. k)

  -- A step of `init`, which fails by its test.
  step-IsKept :
      (failed : Bool) (code : ℤ) (next : Exec TlsServer ℤ) (m : Machine TlsServer)
      → IsKept m.self
      → Returns (λ _ m'. IsKept m'.self) (next m)
      → Returns (λ _ m'. IsKept m'.self) ((if failed then fail os code else next) m)
  step-IsKept true code next m k h = fail-IsKept code m k
  step-IsKept false code next m k h = h

  set_authentication-IsKept :
      (d : Tls) (m : Machine TlsServer)
      → IsKept m.self
      → Returns (λ _ m'. IsKept m'.self) (set_authentication os d m)
  unfolding set_authentication
  set_authentication-IsKept d m idle = ground arith

  -- A call of `init` that must succeed.
  require-IsKept :
      (c : Call) (failed : ℤ → Bool) (code : ℤ) (next : Exec TlsServer ℤ) (m : Machine TlsServer)
      → IsKept m.self
      → Returns (λ _ m'. IsKept m'.self) (next (record m { log = c ∷ m.log }))
      → Returns (λ _ m'. IsKept m'.self) (require os c failed (fail os code) next m)
  require-IsKept c failed code next m k h =
      Runs-require (λ _ m'. IsKept m'.self) (λ _. ⊥) os c failed (fail os code) next m
        (fail-IsKept code (record m { log = c ∷ m.log }) k) h

  load_certificate-IsKept :
      (d : Tls) (m : Machine TlsServer)
      → IsKept m.self
      → Returns (λ _ m'. IsKept m'.self) (load_certificate os d m)
  unfolding load_certificate
  load_certificate-IsKept d m idle = require-IsKept _ _ _ _ _ idle (
      require-IsKept _ _ _ _ _ idle (
        require-IsKept _ _ _ _ _ idle
          (require-IsKept _ _ _ _ _ idle (set_authentication-IsKept d _ idle))))

  load_ca-IsKept :
      (d : Tls) (m : Machine TlsServer)
      → IsKept m.self
      → Returns (λ _ m'. IsKept m'.self) (load_ca os d m)
  unfolding load_ca
  load_ca-IsKept d m idle =
      Runs-if (λ _ m'. IsKept m'.self) (λ _. ⊥) (empty d.certificatepath_ca) _ _ m
        (λ _. load_certificate-IsKept d m idle)
        (λ _.
          require-IsKept _ _ _ _ _ idle
            (require-IsKept _ _ _ _ _ idle (load_certificate-IsKept d _ idle)))

  init-IsKept :
      (m : Machine TlsServer) → IsKept m.self → Returns (λ _ m'. IsKept m'.self) (init os m)
  unfolding init
  init-IsKept m idle =
      step-IsKept (eqb_ℤ (os.result (add_ssl_algorithms ∷ m.log) ssl_ctx_new) (pos 0))
        set_context_error _ _ (derived_law m.self _ idle)
        (load_ca-IsKept _ _ (derived_law m.self _ idle))

module _ (os : Os) where
  -- `init` never leaves the server running: it throws nothing, and whatever it returns, the server is
  -- idle after it if it was before.
  init-IsIdle :
      (m : Machine TlsServer) → IsIdle m.self → Returns (λ _ m'. IsIdle m'.self) (init os m)
  init-IsIdle m idle = init-IsKept os IsIdle (λ m _. stop-IsIdle os m) (λ s d idle. idle) m idle

  init-framing :
      (m : Machine TlsServer) → Returns (λ _ m'. m'.self.framing ≡ m.self.framing) (init os m)
  init-framing m =
      init-IsKept os (λ s. s.framing ≡ m.self.framing)
        (λ m1 same.
          Returns-weaken (λ _ m'. m'.self.framing ≡ m.self.framing) (stop os m1)
            (λ _ m' h. h ∙ same) (stop-framing os m1))
        (λ s d same. same) m refl

  write_msg-same :
      (client : ℤ) (msg : Bytes) (m : Machine TlsServer)
      → IsConsistent m.self
      → Returns (λ _ m'. IsConsistent m'.self) (write_msg os client msg m)
  unfolding write_msg connection_of
  write_msg-same client msg m same = ground arith

  write_msg-unseen :
      (client : ℤ) (msg : Bytes) (m : Machine TlsServer)
      → Returns
          (λ _ m'. (m'.self.framing ≡ m.self.framing) × (m'.self.running ≡ m.self.running))
          (write_msg os client msg m)
  unfolding write_msg connection_of
  write_msg-unseen client msg m = ground arith

pub tls_server-Lifecycle : (os : Os) → Lifecycle (tls_server os)
unfolding delete_socket
tls_server-Lifecycle os = record {
  init_law = λ m idle. init-IsIdle os m idle;
  write_law = λ client msg m same. write_msg-same os client msg m same;
  delete_law = λ fd m. refl;
}

pub tls_server-Unseen : (os : Os) → Unseen (tls_server os)
tls_server-Unseen os = record {
  init_unseen = λ m. init-framing os m;
  write_unseen = λ client msg m. write_msg-unseen os client msg m;
}

pub tls_server-Transport : (os : Os) → Transport os (tls_server os)
unfolding read_msg connection_deinit delete_socket
tls_server-Transport os = record {
  read_call = λ s. ssl_read s maximum_receive_package_size;
  reads = λ s. refl;
  hands_on_nothing = λ s. refl;
  forwards_nothing = λ s out. refl;
  read_law = λ s m. refl;
  delete_law = λ s m. IsQuiet-call os m (ssl_free s) refl refl (λ _. refl);
  deinit_law = λ s m. IsQuiet-call os m (ssl_shutdown s) refl refl (λ _. refl);
}

module _ (os : Os) where
  -- The socket of the client is shut down and then closed, and the TLS object, if there is one by
  -- then, is shut down before and freed after that.
  abbrev pub IsHungUp : ℤ → List Call → List Call → Type 0
  IsHungUp client log log' =
      let ssl = os.result (set_ciphersuites ∷ log) ssl_new in
      let closed = close client ∷ shutdown client shut_rdwr ∷ [] in
      (log' ≡ closed ++ set_ciphersuites ∷ log)
      ⊎ (log' ≡ ssl_free ssl ∷ closed ++ ssl_new ∷ set_ciphersuites ∷ log)
      ⊎ (log'
          ≡ ssl_free ssl ∷ closed
            ++ ssl_shutdown ssl ∷ ssl_set_fd ssl client ∷ ssl_new ∷ set_ciphersuites ∷ log)
      ⊎ (log'
          ≡ ssl_free ssl ∷ closed
            ++ ssl_shutdown ssl
              ∷ ssl_accept ssl
              ∷ ssl_set_fd ssl client
              ∷ ssl_new
              ∷ set_ciphersuites
              ∷ log)

  -- `connectionInit` leaves the server as it is and throws nothing. Unless it hands over a
  -- connection, its last calls shut the socket of the client down and close it, and free the TLS
  -- object, unless no cipher suite could be set. The connection that it hands over is a TLS object
  -- that is not null, was bound to the socket of the client and has done the handshake, after cipher
  -- suites were set, each of these calls having succeeded.
  pub connection_init-Returns :
      (client : ℤ) (m : Machine TlsServer)
      → Returns
          (λ connection m'. (m'.self ≡ m.self) × (elim connection [
            | none ↦ IsHungUp client m.log m'.log
            | some ssl ↦
                (m'.log
                  ≡ ssl_accept ssl ∷ ssl_set_fd ssl client ∷ ssl_new ∷ set_ciphersuites ∷ m.log)
                × (ssl ≡ os.result (set_ciphersuites ∷ m.log) ssl_new)
                × (eqb_ℤ (os.result m.log set_ciphersuites) (pos 0) ≡ false)
                × (eqb_ℤ ssl (pos 0) ≡ false)
                × (eqb_ℤ
                      (os.result (ssl_new ∷ set_ciphersuites ∷ m.log) (ssl_set_fd ssl client))
                      (pos 0)
                    ≡ false)
                × (os.result
                      (ssl_set_fd ssl client ∷ ssl_new ∷ set_ciphersuites ∷ m.log)
                      (ssl_accept ssl)
                    ≡ pos 1)
          ]))
          (connection_init os client m)
  unfolding connection_init handshake hang_up
  connection_init-Returns client m = ground arith
