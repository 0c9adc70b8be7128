-- ===== src/Client/Restart.antt =====
-- A client that is started again after it has lost its connection.
use tcp_server_client.Prelude.{false, List, ◌∷◌, map, ◌≡◌, refl, subst, sym, ap, ◌∙◌}
use tcp_server_client.Prelude.Int.{ℤ, nonzero}
use tcp_server_client.Exec.{shutdown, shut_rdwr, Os, Machine, Exec, throws, system_error, ◌>>=◌}
use tcp_server_client.Exec.Runs.{bind-throws, Returns, Runs-bind, Runs-if}
use tcp_server_client.Exec.Trace.{IsQuiet}
use tcp_server_client.Workers.{Thread, Workers, join_thread, join_all}
use tcp_server_client.Workers.Prune.{Worker, vectors}
use tcp_server_client.Workers.Total.{AllJoinable, join_all-Returns}
use tcp_server_client.Client.{Client, Protocol}
use tcp_server_client.Client.Transport.{Transport}
use tcp_server_client.Client.Receive.{joined, join_workers, lose_connection}

module _ (D : Type 0) (os : Os) where
  -- The first worker is one that has been joined.
  abbrev HasJoined : Client D → Type 0
  HasJoined s = (t : Thread) × (ts : List Thread) × (s.work.handlers ≡ joined t ∷ ts)

  lose_connection-throws :
      (p : Protocol D) (m : Machine (Client D))
      → HasJoined m.self
      → (lose_connection os p m).0 ≡ throws system_error
  unfolding lose_connection join_workers join_all join_thread
  lose_connection-throws p m (t, ts, e) = rw (e, join_all) (refl)

  join_workers-HasJoined :
      (w : Worker) (ws : List Worker) (m : Machine (Client D))
      → m.self.work ≡ vectors (w ∷ ws)
      → AllJoinable (w ∷ ws)
      → Returns (λ _ m'. HasJoined m'.self) (join_workers os m)
  unfolding join_workers
  join_workers-HasJoined w ws m e all =
      Runs-bind (λ _ m'. HasJoined m'.self) (λ _. ⊥) (join_all os m.self.work.handlers) _ m
        (subst (λ v. Returns (λ _ m'. IsQuiet os m m') (join_all os v.handlers m)) (sym e)
          (join_all-Returns (Client D) os (w ∷ ws) m all))
        (λ _ m1 q. (
          w.thread,
          map joined (vectors ws).handlers,
          ap (λ (s : Client D). map joined s.work.handlers) q.same_self
              ∙ ap (λ (v : Workers). map joined v.handlers) e,
        ))

  lose_connection-HasJoined :
      {p : Protocol D} (l : Transport os p) (w : Worker) (ws : List Worker) (m : Machine (Client D))
      → m.self.work ≡ vectors (w ∷ ws)
      → AllJoinable (w ∷ ws)
      → Returns (λ _ m'. HasJoined m'.self) (lose_connection os p m)
  unfolding lose_connection
  lose_connection-HasJoined {p} l w ws m e all =
      Runs-bind (λ _ m'. HasJoined m'.self) (λ _. ⊥) (join_workers os) _ _
        (join_workers-HasJoined w ws (record m { self = record m.self { running = false } }) e all)
        (λ _ m1 h.
          Runs-bind (λ _ m'. HasJoined m'.self) (λ _. ⊥) p.connection_deinit _ m1 (l.deinit_law m1)
            (λ _ m2 q.
              let still = subst HasJoined (sym q.same_self) h in
              Runs-if (λ _ m'. HasJoined m'.self) (λ _. ⊥)
                (nonzero (os.result m2.log (shutdown m2.self.tcp_socket shut_rdwr))) _ _ _
                (λ _. still) (λ _. still)))

  -- A client that loses its connection with workers left, whose threads it joins, and loses it once
  -- more after it was started again, joins the first of them a second time, which throws in its
  -- receive thread. Whatever happens in between that leaves the vector of workers alone.
  pub restart_throws :
      {p : Protocol D} (l : Transport os p) (between : Exec (Client D) ℤ) (w : Worker)
      (ws : List Worker) (m : Machine (Client D))
      → ((m' : Machine (Client D)) → Returns (λ _ m''. m''.self.work ≡ m'.self.work) (between m'))
      → m.self.work ≡ vectors (w ∷ ws)
      → AllJoinable (w ∷ ws)
      → ((lose_connection os p >>= λ _. between >>= λ _. lose_connection os p) m).0
        ≡ throws system_error
  restart_throws {p} l between w ws m keeps e all =
      bind-throws system_error (lose_connection os p m).0 _ (lose_connection os p m).1
        (lose_connection-HasJoined l w ws m e all)
        (λ _ m1 h. bind-throws system_error (between m1).0 _ (between m1).1 (keeps m1) (λ _ m2 same.
          let (t, ts, e') = h in
          lose_connection-throws p m2 (t, ts, ap (λ (v : Workers). v.handlers) same ∙ e')))
