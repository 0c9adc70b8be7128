-- ===== src/Programs/ServerMain/Codes.antt =====
-- The code that example/server.cpp returns.
use tcp_server_client.Prelude.{
  Bool, false, not, ◌&&◌, [], ◌≡◌, refl, sym, ◌∙◌, arith, if◌then◌else◌,
}
use tcp_server_client.Prelude.Int.{ℤ, pos, minus_one, nonzero}
use tcp_server_client.Exec.{Bytes, Os, Machine}
use tcp_server_client.Exec.Runs.{Returns, Returns-weaken, Runs-bind}
use tcp_server_client.Server.{
  Server, Protocol, start, set_work_on_established, set_work_on_message, set_work_on_closed,
  set_create_forward_stream,
}
use tcp_server_client.Server.Lifecycle.{Lifecycle, IsIdle, start-IsStarted}
use tcp_server_client.TcpServer.{tcp_server}
use tcp_server_client.TcpServer.Laws.{tcp_server-Lifecycle}
use tcp_server_client.TlsServer.{set_certificates, tls_server}
use tcp_server_client.TlsServer.Laws.{tls_server-Lifecycle}
use tcp_server_client.Programs.{Returns-within}
use tcp_server_client.Programs.ServerMain.{
  Servers, servers, tcpf, tcpc, tlsf, tlsc, link_workers, define_certificates, finish, main,
}

-- Which servers run, and that a server which does not run has no accept thread.
abbrev pub RunsAs : Bool → Bool → Bool → Bool → Servers → Type 0
RunsAs a b c d w =
    (w.tcp_fragmented.running ≡ a)
    × (w.tcp_fragmented.acc_handler ≡ a)
    × (w.tcp_continuous.running ≡ b)
    × (w.tcp_continuous.acc_handler ≡ b)
    × (w.tls_fragmented.running ≡ c)
    × (w.tls_fragmented.acc_handler ≡ c)
    × (w.tls_continuous.running ≡ d)
    × (w.tls_continuous.acc_handler ≡ d)

abbrev pub all_run : Servers → Bool
all_run w =
    w.tcp_fragmented.running && w.tcp_continuous.running && w.tls_fragmented.running
    && w.tls_continuous.running

-- What the code of a start says of a server that was idle.
abbrev IsStartedAs : {D : Type 0} → ℤ → Server D → Type 0
IsStartedAs r s = (s.running ≡ not (nonzero r)) × (s.acc_handler ≡ not (nonzero r))

module _ {D : Type 0} (os : Os) {p : Protocol D} (l : Lifecycle p) where
  start-IsStartedAs :
      (port : ℤ) (m : Machine (Server D))
      → IsIdle m.self
      → Returns (λ r m'. IsStartedAs r m'.self) (start os p port m)
  start-IsStartedAs port m idle =
      Returns-weaken (λ r m'. IsStartedAs r m'.self) (start os p port m)
        (λ r m' h. ground (arith, h, idle)) (start-IsStarted os l port m (idle.1 ∙ sym idle.0))

module _ (os : Os) (decimal : ℤ → Bytes) where
  -- `main` says by its code whether all servers run.
  abbrev pub IsTold : ℤ → Machine Servers → Type 0
  IsTold r m = r ≡ (if all_run m.self then pos 0 else minus_one)

  link_workers-IsIdle :
      (m : Machine Servers)
      → RunsAs false false false false m.self
      → Returns (λ _ m'. RunsAs false false false false m'.self) (link_workers os decimal m)
  unfolding link_workers set_work_on_established set_work_on_message set_work_on_closed
      set_create_forward_stream
  link_workers-IsIdle m h = h

  define_certificates-IsIdle :
      (m : Machine Servers)
      → RunsAs false false false false m.self
      → Returns (λ _ m'. RunsAs false false false false m'.self) (define_certificates os decimal m)
  unfolding define_certificates set_certificates
  define_certificates-IsIdle m h = h

  finish-IsTold :
      (a b c d : ℤ) (m : Machine Servers)
      → RunsAs (not (nonzero a)) (not (nonzero b)) (not (nonzero c)) (not (nonzero d)) m.self
      → Returns IsTold (finish os decimal a b c d m)
  unfolding finish
  finish-IsTold a b c d m h = ground arith

  start-tcpf :
      (b c d : Bool) (m : Machine Servers)
      → RunsAs false b c d m.self
      → Returns
          (λ r m'. RunsAs (not (nonzero r)) b c d m'.self)
          (tcpf (start os (tcp_server os) (pos 8081)) m)
  start-tcpf b c d m h =
      Returns-weaken (λ r m'. RunsAs (not (nonzero r)) b c d m'.self)
        (tcpf (start os (tcp_server os) (pos 8081)) m)
        (λ r m' k. let (o, told, same) = k in rw same (ground (arith, told)))
        (Returns-within (λ s (w : Servers). record w { tcp_fragmented = s })
          (λ r o. IsStartedAs r o.self) (λ w. w.tcp_fragmented)
          (start os (tcp_server os) (pos 8081)) m
          (start-IsStartedAs os (tcp_server-Lifecycle os) (pos 8081)
            (record { self = m.self.tcp_fragmented; log = m.log }) (h.0, h.1)))

  start-tcpc :
      (a c d : Bool) (m : Machine Servers)
      → RunsAs a false c d m.self
      → Returns
          (λ r m'. RunsAs a (not (nonzero r)) c d m'.self)
          (tcpc (start os (tcp_server os) (pos 8082)) m)
  start-tcpc a c d m h =
      Returns-weaken (λ r m'. RunsAs a (not (nonzero r)) c d m'.self)
        (tcpc (start os (tcp_server os) (pos 8082)) m)
        (λ r m' k. let (o, told, same) = k in rw same (ground (arith, told)))
        (Returns-within (λ s (w : Servers). record w { tcp_continuous = s })
          (λ r o. IsStartedAs r o.self) (λ w. w.tcp_continuous)
          (start os (tcp_server os) (pos 8082)) m
          (start-IsStartedAs os (tcp_server-Lifecycle os) (pos 8082)
            (record { self = m.self.tcp_continuous; log = m.log }) (h.2, h.3)))

  start-tlsf :
      (a b d : Bool) (m : Machine Servers)
      → RunsAs a b false d m.self
      → Returns
          (λ r m'. RunsAs a b (not (nonzero r)) d m'.self)
          (tlsf (start os (tls_server os) (pos 8083)) m)
  start-tlsf a b d m h =
      Returns-weaken (λ r m'. RunsAs a b (not (nonzero r)) d m'.self)
        (tlsf (start os (tls_server os) (pos 8083)) m)
        (λ r m' k. let (o, told, same) = k in rw same (ground (arith, told)))
        (Returns-within (λ s (w : Servers). record w { tls_fragmented = s })
          (λ r o. IsStartedAs r o.self) (λ w. w.tls_fragmented)
          (start os (tls_server os) (pos 8083)) m
          (start-IsStartedAs os (tls_server-Lifecycle os) (pos 8083)
            (record { self = m.self.tls_fragmented; log = m.log }) (h.4, h.5)))

  start-tlsc :
      (a b c : Bool) (m : Machine Servers)
      → RunsAs a b c false m.self
      → Returns
          (λ r m'. RunsAs a b c (not (nonzero r)) m'.self)
          (tlsc (start os (tls_server os) (pos 8084)) m)
  start-tlsc a b c m h =
      Returns-weaken (λ r m'. RunsAs a b c (not (nonzero r)) m'.self)
        (tlsc (start os (tls_server os) (pos 8084)) m)
        (λ r m' k. let (o, told, same) = k in rw same (ground (arith, told)))
        (Returns-within (λ s (w : Servers). record w { tls_continuous = s })
          (λ r o. IsStartedAs r o.self) (λ w. w.tls_continuous)
          (start os (tls_server os) (pos 8084)) m
          (start-IsStartedAs os (tls_server-Lifecycle os) (pos 8084)
            (record { self = m.self.tls_continuous; log = m.log }) (h.6, h.7)))

  -- Whatever the outside answers, `main` of the server program throws nothing, and returns 0 if all
  -- four servers run then, and -1 otherwise.
  pub main-IsTold : Returns IsTold (main os decimal (record { self = servers; log = [] }))
  unfolding main
  main-IsTold =
      Runs-bind IsTold (λ _. ⊥) (link_workers os decimal) _ _
        (link_workers-IsIdle (record { self = servers; log = [] })
          (refl, refl, refl, refl, refl, refl, refl, refl))
        (λ _ m1 h1.
          Runs-bind IsTold (λ _. ⊥) (define_certificates os decimal) _ m1
            (define_certificates-IsIdle m1 h1)
            (λ _ m2 h2.
              Runs-bind IsTold (λ _. ⊥) (tcpf (start os (tcp_server os) (pos 8081))) _ m2
                (start-tcpf false false false m2 h2)
                (λ a m3 h3.
                  Runs-bind IsTold (λ _. ⊥) (tcpc (start os (tcp_server os) (pos 8082))) _ m3
                    (start-tcpc _ false false m3 h3)
                    (λ b m4 h4.
                      Runs-bind IsTold (λ _. ⊥) (tlsf (start os (tls_server os) (pos 8083))) _ m4
                        (start-tlsf _ _ false m4 h4)
                        (λ c m5 h5.
                          Runs-bind IsTold (λ _. ⊥) (tlsc (start os (tls_server os) (pos 8084))) _
                            m5 (start-tlsc _ _ _ m5 h5)
                            (λ d m6 h6. finish-IsTold a b c d m6 h6))))))
