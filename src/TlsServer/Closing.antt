-- ===== src/TlsServer/Closing.antt =====
-- The calls at the end of a TLS connection.
use tcp_server_client.Prelude.{
  true, false, Bool, Option, none, some, List, [], ◌∷◌, ◌++◌, ◌≡◌, refl, sym, ap, ◌∙◌, append_assoc,
  if◌then◌else◌, arith,
}
use tcp_server_client.Prelude.Int.{ℤ, pos, eqb_ℤ}
use tcp_server_client.Exec.{
  Os, Machine, Call, call_if, shut_rdwr, shutdown, close, work_on_closed, join_worker, ssl_shutdown,
  ssl_free,
}
use tcp_server_client.Exec.Runs.{Returns, Returns-weaken, Runs-bind}
use tcp_server_client.Maps.{find}
use tcp_server_client.Workers.{join_thread, join_all}
use tcp_server_client.Workers.Prune.{Worker, vectors}
use tcp_server_client.Workers.Total.{AllJoinable}
use tcp_server_client.Server.{delete_entry}
use tcp_server_client.Server.Receive.{erase_connection, close_connection}
use tcp_server_client.TlsServer.{TlsServer, tls_server, connection_deinit, delete_socket}

-- The joins of the workers, latest first.
abbrev pub join_calls : List Worker → List Call
join_calls [] = []
join_calls (w ∷ ws) = join_calls ws ++ join_worker w.thread.handle ∷ []

-- What the end of an entry frees: its object, if there is one.
abbrev pub free_calls : Option ℤ → List Call
free_calls none = []
free_calls (some ssl) = if eqb_ℤ ssl (pos 0) then [] else ssl_free ssl ∷ []

abbrev pub closed_calls : ℤ → Bool → List Call
closed_calls client worker = if worker then work_on_closed client ∷ [] else []

module _ (os : Os) where
  join_all-calls :
      (ws : List Worker) (m : Machine TlsServer)
      → AllJoinable ws
      → Returns
          (λ _ m'. (m'.self ≡ m.self) × (m'.log ≡ join_calls ws ++ m.log))
          (join_all os (vectors ws).handlers m)
  unfolding join_all join_thread
  join_all-calls [] m all = (refl, refl)
  join_all-calls (w ∷ ws) m all = rw all.0 (
      Returns-weaken (λ _ m'. (m'.self ≡ m.self) × (m'.log ≡ join_calls (w ∷ ws) ++ m.log))
        (join_all os (vectors ws).handlers (record m { log = join_worker w.thread.handle ∷ m.log }))
        (λ _ m' h.
          (h.0, h.1 ∙ sym (append_assoc (join_calls ws) (join_worker w.thread.handle ∷ []) m.log)))
        (join_all-calls ws (record m { log = join_worker w.thread.handle ∷ m.log }) all.1))

  delete_entry-calls :
      (entry : Option ℤ) (m : Machine TlsServer)
      → Returns
          (λ _ m'. (m'.self ≡ m.self) × (m'.log ≡ free_calls entry ++ m.log))
          (delete_entry (tls_server os) entry m)
  unfolding delete_entry delete_socket
  delete_entry-calls none m = (refl, refl)
  delete_entry-calls (some ssl) m = ground arith

  call_if-calls :
      (worker : Bool) (client : ℤ) (m : Machine TlsServer)
      → Returns
          (λ _ m'. (m'.self ≡ m.self) × (m'.log ≡ closed_calls client worker ++ m.log))
          (call_if os worker (work_on_closed client) m)
  unfolding call_if
  call_if-calls true client m = (refl, refl)
  call_if-calls false client m = (refl, refl)

  -- All that the end of a connection calls, latest first.
  abbrev pub end_calls : ℤ → ℤ → List Worker → TlsServer → List Call → List Call
  end_calls client connection ws s log =
      join_calls ws
      ++ (close client ∷ closed_calls client s.work_on_closed
          ++ (free_calls (find client s.active_connections)
              ++ shutdown client shut_rdwr ∷ ssl_shutdown connection ∷ log))

  -- When a TLS connection is broken and its workers are joinable, these calls are made, in this order and
  -- no others: its TLS channel is shut down, then its socket; the TLS object that the map holds for
  -- the client, if there is one, is freed, once; the callback is run, if it is set; only then is the
  -- number of the socket given back, and the workers are joined last.
  pub close_connection-calls :
      (client connection : ℤ) (ws : List Worker) (m : Machine TlsServer)
      → AllJoinable ws
      → Returns
          (λ _ m'. m'.log ≡ end_calls client connection ws m.self m.log)
          (close_connection os (tls_server os) client connection (vectors ws) m)
  unfolding close_connection erase_connection connection_deinit
  close_connection-calls client connection ws m all =
      Runs-bind Q (λ _. ⊥) (delete_entry (tls_server os) (find client m.self.active_connections)) _
        _ (delete_entry-calls (find client m.self.active_connections) _)
        (λ _ m1 h1.
          Runs-bind Q (λ _. ⊥) (call_if os m1.self.work_on_closed (work_on_closed client)) _ m1
            (call_if-calls m1.self.work_on_closed client m1)
            (λ _ m2 h2.
              Runs-bind Q (λ _. ⊥) (join_all os (vectors ws).handlers) _ _ (join_all-calls ws _ all)
                (λ _ m3 h3.
                  h3.1
                  ∙ ap (λ log. join_calls ws ++ (close client ∷ log))
                      (h2.1
                        ∙ ap (λ log. closed_calls client m1.self.work_on_closed ++ log) h1.1
                        ∙ ap (λ (s : TlsServer). closed_calls client s.work_on_closed ++ freed)
                            h1.0))))
    where
      Q : Unit {0} → Machine TlsServer → Type 0
      Q _ m' = m'.log ≡ end_calls client connection ws m.self m.log

      freed : List Call
      freed =
          free_calls (find client m.self.active_connections)
          ++ shutdown client shut_rdwr ∷ ssl_shutdown connection ∷ m.log
