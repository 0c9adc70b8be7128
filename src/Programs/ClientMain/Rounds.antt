-- ===== src/Programs/ClientMain/Rounds.antt =====
-- The clients of example/client.cpp from round to round.
use tcp_server_client.Prelude.{◌||◌, Option, none, some, ◌∷◌, ◌≡◌, ◌⊎◌, inl, inr, refl, sym, subst}
use tcp_server_client.Prelude.Int.{ℤ, pos, minus_one, nonzero}
use tcp_server_client.Exec.{Bytes, Os, Machine, Exec, sleep, pure, ◌>>◌}
use tcp_server_client.Exec.Runs.{Returns, Returns-weaken, Runs-bind, Runs-if}
use tcp_server_client.Client.{Client, Protocol, start, send_msg}
use tcp_server_client.Client.Lifecycle.{IsIdle, Lifecycle, IsFound, client_start-IsStarted}
use tcp_server_client.TcpClient.{TcpClient, tcp_client}
use tcp_server_client.TcpClient.Laws.{tcp_client-Lifecycle, client_send_msg_sends}
use tcp_server_client.TlsClient.{TlsClient, tls_client, set_certificates}
use tcp_server_client.TlsClient.Laws.{tls_client-Lifecycle}
use tcp_server_client.TlsClient.Sending.{tls_send_msg_sends}
use tcp_server_client.Programs.{codes, within, Returns-within}
use tcp_server_client.Programs.ClientMain.{
  Clients, tcpf, tcpc, tlsf, tlsc, localhost, Decision, continuous_mode, fragmented_mode, quit,
  continuous_case, fragmented_case, run_case,
}

-- The receive thread is joinable exactly when the client runs.
abbrev pub IsSteady : {D : Type 0} → Client D → Type 0
IsSteady s = s.rec_handler ≡ s.running

abbrev pub AllSteady : Clients → Type 0
AllSteady w =
    IsSteady w.tcp_fragmented
    × IsSteady w.tcp_continuous
    × IsSteady w.tls_fragmented
    × IsSteady w.tls_continuous

-- No client runs, and none has a receive thread.
abbrev pub AllIdle : Clients → Type 0
AllIdle w =
    IsIdle w.tcp_fragmented
    × IsIdle w.tcp_continuous
    × IsIdle w.tls_fragmented
    × IsIdle w.tls_continuous

module _ {D A : Type 0} (get : Clients → Client D) (put : Client D → Clients → Clients)
    (puts : (s : Client D) (w : Clients) → AllSteady w → IsSteady s → AllSteady (put s w)) where
  within-AllSteady :
      (x : Exec (Client D) A) (m : Machine Clients)
      → AllSteady m.self
      → Returns (λ _ o. IsSteady o.self) (x (record { self = get m.self; log = m.log }))
      → Returns (λ _ m'. AllSteady m'.self) (within get put x m)
  within-AllSteady x m h steady =
      Returns-weaken (λ _ m'. AllSteady m'.self) (within get put x m)
        (λ _ m' k. let (o, still, same) = k in rw same (puts o.self m.self h still))
        (Returns-within put (λ _ o. IsSteady o.self) get x m steady)

module _ {D : Type 0} (os : Os) {p : Protocol D} (l : Lifecycle p)
    (found : IsFound os l localhost) where
  start-IsSteady :
      (port : ℤ) (m : Machine (Client D))
      → IsSteady m.self
      → Returns (λ _ m'. IsSteady m'.self) (start os p localhost port m)
  start-IsSteady port m h =
      Returns-weaken (λ _ m'. IsSteady m'.self) (start os p localhost port m) (λ _ m' k. k.0)
        (client_start-IsStarted os l localhost port m found h)

module _ {A : Type 0} where
  tcpf-AllSteady :
      (x : Exec TcpClient A) (m : Machine Clients)
      → AllSteady m.self
      → ((o : Machine TcpClient) → IsSteady o.self → Returns (λ _ o'. IsSteady o'.self) (x o))
      → Returns (λ _ m'. AllSteady m'.self) (tcpf x m)
  tcpf-AllSteady x m h keeps =
      within-AllSteady (λ w. w.tcp_fragmented) (λ s w. record w { tcp_fragmented = s })
        (λ s w k st. (st, k.1, k.2, k.3)) x m h
        (keeps (record { self = m.self.tcp_fragmented; log = m.log }) h.0)

  tcpc-AllSteady :
      (x : Exec TcpClient A) (m : Machine Clients)
      → AllSteady m.self
      → ((o : Machine TcpClient) → IsSteady o.self → Returns (λ _ o'. IsSteady o'.self) (x o))
      → Returns (λ _ m'. AllSteady m'.self) (tcpc x m)
  tcpc-AllSteady x m h keeps =
      within-AllSteady (λ w. w.tcp_continuous) (λ s w. record w { tcp_continuous = s })
        (λ s w k st. (k.0, st, k.2, k.3)) x m h
        (keeps (record { self = m.self.tcp_continuous; log = m.log }) h.1)

  tlsf-AllSteady :
      (x : Exec TlsClient A) (m : Machine Clients)
      → AllSteady m.self
      → ((o : Machine TlsClient) → IsSteady o.self → Returns (λ _ o'. IsSteady o'.self) (x o))
      → Returns (λ _ m'. AllSteady m'.self) (tlsf x m)
  tlsf-AllSteady x m h keeps =
      within-AllSteady (λ w. w.tls_fragmented) (λ s w. record w { tls_fragmented = s })
        (λ s w k st. (k.0, k.1, st, k.3)) x m h
        (keeps (record { self = m.self.tls_fragmented; log = m.log }) h.2)

  tlsc-AllSteady :
      (x : Exec TlsClient A) (m : Machine Clients)
      → AllSteady m.self
      → ((o : Machine TlsClient) → IsSteady o.self → Returns (λ _ o'. IsSteady o'.self) (x o))
      → Returns (λ _ m'. AllSteady m'.self) (tlsc x m)
  tlsc-AllSteady x m h keeps =
      within-AllSteady (λ w. w.tls_continuous) (λ s w. record w { tls_continuous = s })
        (λ s w k st. (k.0, k.1, k.2, st)) x m h
        (keeps (record { self = m.self.tls_continuous; log = m.log }) h.3)

module _ (os : Os) where
  tcp_send-IsSteady :
      (msg : Bytes) (m : Machine TcpClient)
      → IsSteady m.self
      → Returns (λ _ o. IsSteady o.self) (send_msg os (tcp_client os) msg m)
  tcp_send-IsSteady msg m h =
      Returns-weaken (λ _ o. IsSteady o.self) (send_msg os (tcp_client os) msg m)
        (λ _ o k. subst IsSteady (sym k.0) h) (client_send_msg_sends os msg m)

  tls_send-IsSteady :
      (msg : Bytes) (m : Machine TlsClient)
      → IsSteady m.self
      → Returns (λ _ o. IsSteady o.self) (send_msg os (tls_client os) msg m)
  tls_send-IsSteady msg m h =
      Returns-weaken (λ _ o. IsSteady o.self) (send_msg os (tls_client os) msg m)
        (λ _ o k. subst IsSteady (sym k.0) h) (tls_send_msg_sends os msg m)

-- What a `switch` hands over: nothing, or a code that `main` returns.
abbrev pub Decides : Option ℤ → Type 0
Decides none = Unit
Decides (some r) = (r ≡ pos 0) ⊎ (r ≡ minus_one)

abbrev pub Done : Option ℤ → Machine Clients → Type 0
Done r m = Decides r × AllSteady m.self

module _ (os : Os) (decimal : ℤ → Bytes)
    (found : IsFound os (tcp_client-Lifecycle os) localhost) where
  continuous_sends :
      (tcp tls : Bytes) (m : Machine Clients)
      → AllSteady m.self
      → Returns Done (
          (tcpc (send_msg os (tcp_client os) tcp)
              >> (tlsc (send_msg os (tls_client os) tls) >> pure none))
            m)
  continuous_sends tcp tls m h =
      Runs-bind Done (λ _. ⊥) (tcpc (send_msg os (tcp_client os) tcp)) _ m
        (tcpc-AllSteady (send_msg os (tcp_client os) tcp) m h (tcp_send-IsSteady os tcp))
        (λ _ m1 h1.
          Runs-bind Done (λ _. ⊥) (tlsc (send_msg os (tls_client os) tls)) _ m1
            (tlsc-AllSteady (send_msg os (tls_client os) tls) m1 h1 (tls_send-IsSteady os tls))
            (λ _ m2 h2. (tt, h2)))

  fragmented_sends :
      (tcp tls : Bytes) (m : Machine Clients)
      → AllSteady m.self
      → Returns Done (
          (tcpf (send_msg os (tcp_client os) tcp)
              >> (tlsf (send_msg os (tls_client os) tls) >> pure none))
            m)
  fragmented_sends tcp tls m h =
      Runs-bind Done (λ _. ⊥) (tcpf (send_msg os (tcp_client os) tcp)) _ m
        (tcpf-AllSteady (send_msg os (tcp_client os) tcp) m h (tcp_send-IsSteady os tcp))
        (λ _ m1 h1.
          Runs-bind Done (λ _. ⊥) (tlsf (send_msg os (tls_client os) tls)) _ m1
            (tlsf-AllSteady (send_msg os (tls_client os) tls) m1 h1 (tls_send-IsSteady os tls))
            (λ _ m2 h2. (tt, h2)))

  continuous_case-Returns :
      (m : Machine Clients) → AllSteady m.self → Returns Done (continuous_case os decimal m)
  unfolding continuous_case set_certificates
  continuous_case-Returns m h =
      Runs-bind Done (λ _. ⊥) (tcpc (start os (tcp_client os) localhost (pos 8082))) _ _
        (tcpc-AllSteady (start os (tcp_client os) localhost (pos 8082)) _ h
          (start-IsSteady os (tcp_client-Lifecycle os) found (pos 8082)))
        (λ a m1 h1.
          Runs-bind Done (λ _. ⊥) (tlsc (start os (tls_client os) localhost (pos 8084))) _ m1
            (tlsc-AllSteady (start os (tls_client os) localhost (pos 8084)) m1 h1
              (start-IsSteady os (tls_client-Lifecycle os) found (pos 8084)))
            (λ b m2 h2.
              Runs-if Done (λ _. ⊥) (nonzero a || nonzero b) _ _ m2 (λ _. (inr refl, h2))
                (λ _.
                  continuous_sends (codes "Hello TCP server! - continuous mode")
                    (codes "Hello TLS server! - continuous mode")
                    (record m2 { log = sleep 50 ∷ m2.log }) h2)))

  fragmented_case-Returns :
      (m : Machine Clients) → AllSteady m.self → Returns Done (fragmented_case os decimal m)
  unfolding fragmented_case set_certificates
  fragmented_case-Returns m h =
      Runs-bind Done (λ _. ⊥) (tcpf (start os (tcp_client os) localhost (pos 8081))) _ _
        (tcpf-AllSteady (start os (tcp_client os) localhost (pos 8081)) _ h
          (start-IsSteady os (tcp_client-Lifecycle os) found (pos 8081)))
        (λ a m1 h1.
          Runs-bind Done (λ _. ⊥) (tlsf (start os (tls_client os) localhost (pos 8083))) _ m1
            (tlsf-AllSteady (start os (tls_client os) localhost (pos 8083)) m1 h1
              (start-IsSteady os (tls_client-Lifecycle os) found (pos 8083)))
            (λ b m2 h2.
              Runs-if Done (λ _. ⊥) (nonzero a || nonzero b) _ _ m2 (λ _. (inr refl, h2))
                (λ _.
                  fragmented_sends (codes "Hello TCP server! - fragmented mode")
                    (codes "Hello TLS server! - fragmented mode")
                    (record m2 { log = sleep 50 ∷ m2.log }) h2)))

  pub run_case-Returns :
      (d : Decision) (m : Machine Clients)
      → AllSteady m.self
      → Returns Done (run_case os decimal d m)
  unfolding run_case
  run_case-Returns continuous_mode m h = continuous_case-Returns m h
  run_case-Returns fragmented_mode m h = fragmented_case-Returns m h
  run_case-Returns quit m h = (inl refl, h)
