-- ===== src/Programs/ClientMain/Ends.antt =====
-- The end of each round of example/client.cpp, and of the program.
use tcp_server_client.Prelude.{
  ℕ, zero, suc, Option, none, some, List, [], ◌∷◌, ◌++◌, ◌≡◌, ◌⊎◌, refl, sym, subst,
}
use tcp_server_client.Prelude.Int.{ℤ, pos, minus_one}
use tcp_server_client.Exec.{Call, print, read_char, Bytes, Os, Machine, Exec}
use tcp_server_client.Exec.Runs.{Runs, Returns, Returns-weaken, Runs-weaken, Runs-bind}
use tcp_server_client.Client.{set_work_on_message, stop, delete_old}
use tcp_server_client.Client.Lifecycle.{IsIdle, IsFound, stop-IsIdle, delete_old-same}
use tcp_server_client.TcpClient.{connection_deinit, TcpClient, tcp_client, destroy_tcp_client}
use tcp_server_client.TcpClient.Laws.{tcp_client-Lifecycle}
use tcp_server_client.TlsClient.{TlsClient, tls_client, set_certificates, destroy_tls_client}
use tcp_server_client.TlsClient as Tls
use tcp_server_client.TlsClient.Laws.{tls_client-Lifecycle}
use tcp_server_client.Programs.{codes, Returns-within, Returns-within-then}
use tcp_server_client.Programs.ClientMain.{
  Clients, Indeterminate, tcpf, localhost, decide, link_workers, get_decision, run_case,
  destroy_clients, round, returned, main,
}
use tcp_server_client.Programs.ClientMain.Rounds.{Decides, AllIdle, run_case-Returns}

module _ (os : Os) (decimal : ℤ → Bytes)
    (found : IsFound os (tcp_client-Lifecycle os) localhost) where
  tcp_destroyed : (m : Machine TcpClient) → Returns (λ _ o. IsIdle o.self) (destroy_tcp_client os m)
  unfolding destroy_tcp_client
  tcp_destroyed m =
      Runs-bind (λ _ o. IsIdle o.self) (λ _. ⊥) (stop os (connection_deinit os)) _ m
        (stop-IsIdle os (connection_deinit os) m (tcp_client-Lifecycle os).deinit_law)
        (λ _ m1 idle.
          Returns-weaken (λ _ o. IsIdle o.self)
            (delete_old os (tcp_client os) m1.self.client_socket m1)
            (λ _ m2 same. subst IsIdle (sym same) idle)
            (delete_old-same os (tcp_client-Lifecycle os) m1.self.client_socket m1))

  tls_destroyed : (m : Machine TlsClient) → Returns (λ _ o. IsIdle o.self) (destroy_tls_client os m)
  unfolding destroy_tls_client
  tls_destroyed m =
      Runs-bind (λ _ o. IsIdle o.self) (λ _. ⊥) (stop os (Tls.connection_deinit os)) _ m
        (stop-IsIdle os (Tls.connection_deinit os) m (tls_client-Lifecycle os).deinit_law)
        (λ _ m1 idle.
          Returns-weaken (λ _ o. IsIdle o.self)
            (delete_old os (tls_client os) m1.self.client_socket m1)
            (λ _ m2 same. subst IsIdle (sym same) idle)
            (delete_old-same os (tls_client-Lifecycle os) m1.self.client_socket m1))

  destroy_clients-AllIdle :
      (m : Machine Clients) → Returns (λ _ m'. AllIdle m'.self) (destroy_clients os decimal m)
  unfolding destroy_clients
  destroy_clients-AllIdle m =
      Returns-within-then (λ _ m'. AllIdle m'.self)
        (λ s (w : Clients). record w { tls_continuous = s }) (λ _ o. IsIdle o.self)
        (λ w. w.tls_continuous) (destroy_tls_client os) _ _ (tls_destroyed _)
        (λ _ a idle_a.
          Returns-within-then (λ _ m'. AllIdle m'.self)
            (λ s (w : Clients). record w { tls_fragmented = s }) (λ _ o. IsIdle o.self)
            (λ w. w.tls_fragmented) (destroy_tls_client os) _ _ (tls_destroyed _)
            (λ _ b idle_b.
              Returns-within-then (λ _ m'. AllIdle m'.self)
                (λ s (w : Clients). record w { tcp_continuous = s }) (λ _ o. IsIdle o.self)
                (λ w. w.tcp_continuous) (destroy_tcp_client os) _ _ (tcp_destroyed _)
                (λ _ c idle_c.
                  Returns-weaken (λ _ m'. AllIdle m'.self) (tcpf (destroy_tcp_client os) _)
                    (λ _ m' k.
                      let (d, idle_d, same) = k in rw same (idle_d, idle_c, idle_b, idle_a))
                    (Returns-within (λ s (w : Clients). record w { tcp_fragmented = s })
                      (λ _ o. IsIdle o.self) (λ w. w.tcp_fragmented) (destroy_tcp_client os) _
                      (tcp_destroyed _)))))

  -- `main` has returned.
  abbrev pub Ended : ℤ → Machine Clients → Type 0
  Ended r m = ((r ≡ pos 0) ⊎ (r ≡ minus_one)) × AllIdle m.self

  -- What holds after a round.
  abbrev RoundDone : Option ℤ → Machine Clients → Type 0
  RoundDone r m = Decides r × AllIdle m.self

  round-Returns :
      (v : Indeterminate) (m : Machine Clients) → Returns RoundDone (round os decimal v m)
  unfolding round link_workers get_decision set_work_on_message
  round-Returns v m =
      Runs-bind RoundDone (λ _. ⊥) (run_case os decimal (decide (os.result asked read_char))) _ _
        (run_case-Returns os decimal found (decide (os.result asked read_char)) _
          (refl, refl, refl, refl))
        (λ r m1 h.
          Runs-bind RoundDone (λ _. ⊥) (destroy_clients os decimal) _ m1
            (destroy_clients-AllIdle m1) (λ _ m2 k. (h.0, k)))
    where
      asked : List Call
      asked =
          print (codes "    q: Quit" ++ 10 ∷ [])
          ∷ print (codes "    f: Fragmented mode" ++ 10 ∷ [])
          ∷ print (codes "    c: Continuous mode" ++ 10 ∷ [])
          ∷ print (codes "What mode shall be used to send messages?" ++ 10 ∷ [])
          ∷ m.log

  returned-Runs :
      (next : Exec Clients ℤ) (r : Option ℤ) (m : Machine Clients)
      → RoundDone r m
      → ((m' : Machine Clients) → AllIdle m'.self → Runs Ended (λ m''. AllIdle m''.self) (next m'))
      → Runs Ended (λ m''. AllIdle m''.self) (returned os decimal next r m)
  unfolding returned
  returned-Runs next none m h ih = ih m h.1
  returned-Runs next (some r) m h ih = h

  -- If "localhost" is found, `main` of the client program throws nothing, whatever the user chooses
  -- and the outside answers; it returns 0 or -1, and no client runs then or has a receive thread to be
  -- joined. This holds after every round too, if no client ran at first.
  pub main-AllIdle :
      (v : ℕ → Indeterminate) (fuel : ℕ) (m : Machine Clients)
      → AllIdle m.self
      → Runs Ended (λ m'. AllIdle m'.self) (main os decimal v fuel m)
  unfolding main
  main-AllIdle v zero m idle = idle
  main-AllIdle v (suc fuel) m idle =
      Runs-bind Ended (λ m'. AllIdle m'.self) (round os decimal (v fuel)) _ m
        (Runs-weaken {R' = λ m'. AllIdle m'.self} (round os decimal (v fuel) m) (λ _ _ h. h)
          (λ _ e. absurd e) (round-Returns (v fuel) m))
        (λ r m1 h. returned-Runs (main os decimal v fuel) r m1 h (λ m' k. main-AllIdle v fuel m' k))
