-- ===== src/Server/Stream.antt =====
-- The receive thread of a connection in fragmented mode: a round, and the end of the connection.
use Prim.Native.Nat.{◌≤◌}
use tcp_server_client.Prelude.{
  ℕ, ◌+◌, ◌<◌, true, Option, none, some, List, [], ◌∷◌, ◌++◌, length, append-nil, ◌≡◌, refl, sym,
  ap, ◌∙◌, arith,
}
use tcp_server_client.Prelude.Int.{ℤ, pos, eqb_ℤ}
use tcp_server_client.Exec.{Bytes, Call, call_if, work_on_closed, Os, Machine, Exec}
use tcp_server_client.Exec.Runs.{Runs, Returns, Runs-weaken, Runs-bind, Runs-if}
use tcp_server_client.Exec.Trace.{
  stream_of, spawned, written, IsQuiet, IsQuiet-refl, IsQuiet-call_if,
}
use tcp_server_client.Framing.{Framing, size_mod}
use tcp_server_client.Framing.Scan.{Scanned, scan}
use tcp_server_client.Workers.{Workers, join_all}
use tcp_server_client.Workers.Prune.{Worker, vectors}
use tcp_server_client.Workers.Total.{AllJoinable, join_all-Returns}
use tcp_server_client.Maps.{find, erase}
use tcp_server_client.ReadMsg.{maximum_receive_package_size}
use tcp_server_client.Server.Chunk.{Received, handle_chunk-Returns}
use tcp_server_client.Server.{Server, Protocol, delete_entry}
use tcp_server_client.Server.Transport.{Transport, ReadsAtMost}
use tcp_server_client.Server.Receive.{
  handle_chunk, erase_connection, close_connection, receive_round,
}

module _ (D : Type 0) (os : Os) (client : ℤ) where
  -- The messages handed on are those that the bytes read complete.
  abbrev pub IsFaithful : Framing → Machine (Server D) → Type 0
  IsFaithful cfg m =
      spawned m.log ≡ (scan cfg.delimiter cfg.max_length [] (stream_of os m.log)).messages

  pub Received-IsFaithful :
      (cfg : Framing) (buffer : Bytes) (m : Machine (Server D))
      → Received D os client cfg buffer m
      → IsFaithful cfg m
  Received-IsFaithful cfg buffer m r = sym (ap (λ (x : Scanned). x.messages) r.1)

  pub IsQuiet-IsFaithful :
      (cfg : Framing) {m m' : Machine (Server D)}
      → IsQuiet os m m'
      → IsFaithful cfg m
      → IsFaithful cfg m'
  IsQuiet-IsFaithful cfg q h = rw (q.same_spawned, q.same_stream) h

  -- After the end of a connection: it is in neither map, and the rest of the object is as it was.
  abbrev pub IsClosed : Machine (Server D) → Machine (Server D) → Type 0
  IsClosed m m' =
      (m'.self ≡ record m.self {
        active_connections = erase client m.self.active_connections;
        forward_streams = erase client m.self.forward_streams;
      })
      × (stream_of os m'.log ≡ stream_of os m.log)
      × (spawned m'.log ≡ spawned m.log)
      × ((out : ℤ) → written out m'.log ≡ written out m.log)

  module _ {p : Protocol D} (t : Transport os p) where
    -- What is deleted with an entry goes unseen by the trace.
    delete_entry-IsQuiet :
        (entry : Option ℤ) (m : Machine (Server D))
        → Returns (λ _ m'. IsQuiet os m m') (delete_entry p entry m)
    unfolding delete_entry
    delete_entry-IsQuiet none m = IsQuiet-refl os m
    delete_entry-IsQuiet (some fd) m =
        Runs-if (λ _ m'. IsQuiet os m m') (λ _. ⊥) (eqb_ℤ fd (pos 0)) _ _ m (λ _. IsQuiet-refl os m)
          (λ _. t.delete_law fd m)

    -- The end of a connection returns, whatever the outside answers, if its workers are joinable. It
    -- takes the client, and nothing else, out of the two maps, reads nothing, hands on nothing and
    -- forwards nothing.
    pub close_connection-Returns :
        (connection : ℤ) (ws : List Worker) (m : Machine (Server D))
        → AllJoinable ws
        → Returns (λ _ m'. IsClosed m m') (close_connection os p client connection (vectors ws) m)
    unfolding close_connection erase_connection stream_of spawned written
    close_connection-Returns connection ws m all =
        Runs-bind (λ _ m'. IsClosed m m') (λ _. ⊥) (p.connection_deinit connection) _ m
          (t.deinit_law connection m)
          (λ _ m1 q.
            Runs-bind (λ _ m'. IsClosed m m') (λ _. ⊥) (erase_connection os p client) _ _
              (delete_entry-IsQuiet (find client m1.self.active_connections) _)
              (λ _ mx x.
                Runs-bind (λ _ m'. IsClosed m m') (λ _. ⊥)
                  (call_if os mx.self.work_on_closed (work_on_closed client)) _ _
                  (IsQuiet-call_if os mx.self.work_on_closed _ (work_on_closed client) refl refl
                    (λ _. refl))
                  (λ _ m2 k.
                    Runs-bind (λ _ m'. IsClosed m m') (λ _. ⊥) (join_all os (vectors ws).handlers) _
                      _ (join_all-Returns (Server D) os ws _ all)
                      (λ _ m3 j. (
                        ap
                              (λ (s : Server D). record s {
                                forward_streams = erase client s.forward_streams;
                              })
                              (j.same_self ∙ k.same_self ∙ x.same_self)
                            ∙ ap left q.same_self,
                        j.same_stream ∙ k.same_stream ∙ x.same_stream ∙ q.same_stream,
                        j.same_spawned
                            ∙ append-nil (spawned m2.log)
                            ∙ k.same_spawned
                            ∙ x.same_spawned
                            ∙ append-nil (spawned m1.log)
                            ∙ q.same_spawned,
                        λ out.
                            j.same_written out
                            ∙ append-nil (written out m2.log)
                            ∙ k.same_written out
                            ∙ x.same_written out
                            ∙ append-nil (written out m1.log)
                            ∙ q.same_written out,
                      )))))
      where
        left : Server D → Server D
        left s = record s {
          active_connections = erase client s.active_connections;
          forward_streams = erase client s.forward_streams;
        }

    module _ (cfg : Framing) (on : cfg.enabled ≡ true) (most : ReadsAtMost os) where
      -- One round, if the rounds after it are as they should be.
      pub receive_round-Runs :
          (R : Machine (Server D) → Type 0) (next : Workers → Bytes → Exec (Server D) (Unit {0}))
          (left : ℕ) (connection : ℤ) (ws : List Worker) (buffer msg : Bytes) (log : List Call)
          (m : Machine (Server D))
          → ((vs : List Worker) (buffer' : Bytes) (m' : Machine (Server D))
              → 1 ≤ length msg
              → AllJoinable vs
              → length vs + left < size_mod
              → length buffer' + left < size_mod
              → stream_of os m'.log ≡ stream_of os m.log
              → Received D os client cfg buffer' m'
              → Runs (λ _. IsFaithful cfg) R (next (vectors vs) buffer' m'))
          → AllJoinable ws
          → length msg ≤ maximum_receive_package_size
          → length ws + (maximum_receive_package_size + left) < size_mod
          → length buffer + (maximum_receive_package_size + left) < size_mod
          → m.self.framing ≡ cfg
          → scan cfg.delimiter cfg.max_length [] (stream_of os log)
            ≡ record { messages = spawned log; buffer = buffer }
          → stream_of os m.log ≡ stream_of os log ++ msg
          → spawned m.log ≡ spawned log
          → Runs
              (λ _. IsFaithful cfg)
              R
              (receive_round os p next client connection (vectors ws) buffer msg m)
      unfolding receive_round
      receive_round-Runs R next left connection ws buffer [] log m ih all short few small same
            before read quiet =
          Runs-weaken {Q' = λ _. IsFaithful cfg} {R' = R}
            (close_connection os p client connection (vectors ws) m)
            (λ _ m' c.
              rw (c.2, c.1, read, quiet)
                (rw (append-nil (stream_of os log))
                  (sym (ap (λ (x : Scanned). x.messages) before))))
            (λ _ e. absurd e) (close_connection-Returns connection ws m all)
      receive_round-Runs R next left connection ws buffer (c ∷ cs) log m ih all short few small same
            before read quiet =
          Runs-bind (λ _. IsFaithful cfg) R (handle_chunk os client (vectors ws) buffer (c ∷ cs)) _
            m
            (Runs-weaken {R' = R} (handle_chunk os client (vectors ws) buffer (c ∷ cs) m)
              (λ _ _ h. h) (λ _ e. absurd e)
              (handle_chunk-Returns D os client cfg ws buffer (c ∷ cs) log m on all (omega arith)
                (omega arith) same before read quiet))
            (λ locals m' h.
              let (vs, e, all', fewer, size, stream, got) = h in
              rw e (ih vs locals.0 m' (omega arith) all' (omega arith) (omega arith) stream got))
