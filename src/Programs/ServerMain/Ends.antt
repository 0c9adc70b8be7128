-- ===== src/Programs/ServerMain/Ends.antt =====
-- How the program of example/server.cpp ends.
use tcp_server_client.Prelude.{false, [], ◌≡◌}
use tcp_server_client.Prelude.Int.{ℤ}
use tcp_server_client.Exec.{Bytes, Os, Machine, ok}
use tcp_server_client.Exec.Runs.{Returns, Returns-weaken, Returns-itself, Runs-bind}
use tcp_server_client.Server.Lifecycle.{IsIdle, destroy-IsIdle}
use tcp_server_client.TcpServer.{destroy_tcp_server}
use tcp_server_client.TcpServer.Laws.{tcp_server-Lifecycle}
use tcp_server_client.TlsServer.Laws.{tls_server-Lifecycle}
use tcp_server_client.TlsServer.{destroy_tls_server}
use tcp_server_client.Programs.{Returns-within, Returns-within-then}
use tcp_server_client.Programs.ServerMain.{Servers, servers, tcpf, destroy_servers, main, program}
use tcp_server_client.Programs.ServerMain.Codes.{RunsAs, IsTold, main-IsTold}

-- No server runs, or has an accept thread to be joined.
abbrev pub AllIdle : Servers → Type 0
AllIdle = RunsAs false false false false

module _ (os : Os) (decimal : ℤ → Bytes) where
  destroy_servers-AllIdle :
      (m : Machine Servers) → Returns (λ _ m'. AllIdle m'.self) (destroy_servers os decimal m)
  unfolding destroy_servers
  destroy_servers-AllIdle m =
      Returns-within-then (λ _ m'. AllIdle m'.self)
        (λ s (w : Servers). record w { tls_continuous = s }) (λ _ o. IsIdle o.self)
        (λ w. w.tls_continuous) (destroy_tls_server os) _ _
        (destroy-IsIdle os (tls_server-Lifecycle os) _)
        (λ _ a idle_a.
          Returns-within-then (λ _ m'. AllIdle m'.self)
            (λ s (w : Servers). record w { tls_fragmented = s }) (λ _ o. IsIdle o.self)
            (λ w. w.tls_fragmented) (destroy_tls_server os) _ _
            (destroy-IsIdle os (tls_server-Lifecycle os) _)
            (λ _ b idle_b.
              Returns-within-then (λ _ m'. AllIdle m'.self)
                (λ s (w : Servers). record w { tcp_continuous = s }) (λ _ o. IsIdle o.self)
                (λ w. w.tcp_continuous) (destroy_tcp_server os) _ _
                (destroy-IsIdle os (tcp_server-Lifecycle os) _)
                (λ _ c idle_c.
                  Returns-weaken (λ _ m'. AllIdle m'.self) (tcpf (destroy_tcp_server os) _)
                    (λ _ m' k.
                      let (d, idle_d, same) = k in
                      rw same (
                        idle_d.0, idle_d.1, idle_c.0, idle_c.1, idle_b.0, idle_b.1, idle_a.0,
                        idle_a.1,
                      ))
                    (Returns-within (λ s (w : Servers). record w { tcp_fragmented = s })
                      (λ _ o. IsIdle o.self) (λ w. w.tcp_fragmented) (destroy_tcp_server os) _
                      (destroy-IsIdle os (tcp_server-Lifecycle os) _)))))

  -- What the program returns is what `main` returned, in a state of the servers that the code tells;
  -- in the end no server runs.
  abbrev pub Ended : ℤ → Machine Servers → Type 0
  Ended r m' =
      (m : Machine Servers) × (main os decimal (record { self = servers; log = [] }) ≡ (ok r, m))
      × IsTold os decimal r m
      × AllIdle m'.self

  -- Whatever the outside answers, the server program throws nothing. It returns what `main` returns,
  -- which is 0 if all four servers run when `main` returns, and -1 otherwise; after the destructors no
  -- server runs, and none has an accept thread that is still to be joined.
  pub program-Ended : Returns Ended (program os decimal (record { self = servers; log = [] }))
  unfolding program
  program-Ended =
      Runs-bind Ended (λ _. ⊥) (main os decimal) _ _
        (Returns-itself (IsTold os decimal) _ (main-IsTold os decimal))
        (λ r m h.
          Runs-bind Ended (λ _. ⊥) (destroy_servers os decimal) _ m (destroy_servers-AllIdle m)
            (λ _ m' idle. (m, h.0, h.1, idle)))
