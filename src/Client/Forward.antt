-- ===== src/Client/Forward.antt =====
-- `Client::receive` in continuous mode: what is written to the stream of the client.
use Prim.Native.Nat.{◌≤◌}
use tcp_server_client.Prelude.{
  ℕ, zero, suc, ◌+◌, false, List, [], ◌∷◌, ◌++◌, length, length-append, append-nil, ◌≡◌, refl, sym,
  ap, ◌∙◌, arith,
}
use tcp_server_client.Prelude.Int.{pos}
use tcp_server_client.Exec.{Bytes, Call, write_stream, Os, Machine, ok, Exec}
use tcp_server_client.Exec.Runs.{Runs, Runs-weaken}
use tcp_server_client.Exec.Trace.{stream_of, spawned, written}
use tcp_server_client.Workers.Prune.{Worker, vectors}
use tcp_server_client.Workers.Total.{AllJoinable}
use tcp_server_client.ReadMsg.{received}
use tcp_server_client.Client.{Client, Protocol}
use tcp_server_client.Client.Transport.{Transport}
use tcp_server_client.Client.Receive.{
  handle_chunk, lose_connection, receive_round, receive_loop, receive,
}
use tcp_server_client.Client.Faithful.{IsLost, lose_connection-Returns}

module _ (D : Type 0) (os : Os) (ws : List Worker) (all : AllJoinable ws) where
  -- The stream has got the bytes read, and no worker was started.
  abbrev pub IsForwarded : Machine (Client D) → Type 0
  IsForwarded m = (written (pos 0) m.log ≡ stream_of os m.log) × (spawned m.log ≡ [])

  -- It ended well.
  abbrev pub IsDone : Machine (Client D) → Type 0
  IsDone m = IsForwarded m × IsLost D os m.self

  -- Out of fuel, at least `n` bytes were read.
  abbrev pub IsLong : ℕ → Machine (Client D) → Type 0
  IsLong n m = IsForwarded m × (n ≤ length (stream_of os m.log))

  -- The object between two rounds.
  abbrev Forwards : Client D → Type 0
  Forwards s = (s.framing.enabled ≡ false) × (s.work ≡ vectors ws)

  -- A chunk goes to the stream, whole and at once.
  handle_chunk-Forwards :
      (buffer msg : Bytes) (m : Machine (Client D))
      → Forwards m.self
      → handle_chunk os buffer msg m
        ≡ (ok (buffer, tt), record m { log = write_stream (pos 0) msg ∷ m.log })
  unfolding handle_chunk
  handle_chunk-Forwards buffer msg m h = rw (h.0) refl

  write_stream-IsForwarded :
      (msg : Bytes) (log : List Call) (m : Machine (Client D))
      → written (pos 0) m.log ≡ stream_of os log
      → spawned m.log ≡ []
      → stream_of os m.log ≡ stream_of os log ++ msg
      → IsForwarded (record m { log = write_stream (pos 0) msg ∷ m.log })
  unfolding written stream_of spawned
  write_stream-IsForwarded msg log m before none_handed read =
      (rw (before, read) refl, append-nil (spawned m.log) ∙ none_handed)

  module _ {p : Protocol D} (t : Transport os p) where
    -- One round, if the rounds after it are as they should be.
    receive_round-Runs :
        (R : Machine (Client D) → Type 0) (next : Bytes → Exec (Client D) (Unit {0})) (msg : Bytes)
        (log : List Call) (m : Machine (Client D))
        → ((m' : Machine (Client D))
            → 1 ≤ length msg
            → Forwards m'.self
            → IsForwarded m'
            → stream_of os m'.log ≡ stream_of os m.log
            → Runs (λ _. IsDone) R (next [] m'))
        → Forwards m.self
        → written (pos 0) m.log ≡ stream_of os log
        → spawned m.log ≡ []
        → stream_of os m.log ≡ stream_of os log ++ msg
        → Runs (λ _. IsDone) R (receive_round os p next [] msg m)
    unfolding receive_round
    receive_round-Runs R next [] log m ih h before none_handed read =
        Runs-weaken {Q' = λ _. IsDone} {R' = R} (lose_connection os p m)
          (λ _ m' c. (
            (
              c.3 (pos 0) ∙ before ∙ sym (append-nil (stream_of os log)) ∙ sym read ∙ sym c.1,
              c.2 ∙ none_handed,
            ),
            c.0,
          ))
          (λ _ e. absurd e) (lose_connection-Returns D os t ws m h.1 all)
    receive_round-Runs R next (c ∷ cs) log m ih h before none_handed read =
        rw (handle_chunk-Forwards [] (c ∷ cs) m h) (
          ih (record m { log = write_stream (pos 0) (c ∷ cs) ∷ m.log }) (omega arith) h
            (write_stream-IsForwarded (c ∷ cs) log m before none_handed read)
            (unfold stream_of in refl))

    receive_loop-Runs :
        (fuel n : ℕ) (m : Machine (Client D))
        → Forwards m.self
        → IsForwarded m
        → n ≤ length (stream_of os m.log) + fuel
        → Runs (λ _. IsDone) (IsLong n) (receive_loop os p fuel [] m)
    unfolding receive_loop
    receive_loop-Runs zero n m h done far = (done, omega arith)
    receive_loop-Runs (suc fuel) n m h done far = rw (t.read_law m) (
        receive_round-Runs (IsLong n) (receive_loop os p fuel) msg m.log
          (record m { log = c ∷ m.log })
          (λ m' some_read h' done' same.
            receive_loop-Runs fuel n m' h' done'
              (omega (arith, ap length (same ∙ longer), length-append (stream_of os m.log) msg)))
          h
          (unfold written in
            rw (t.forwards_nothing m.self (pos 0)) (append-nil (written (pos 0) m.log) ∙ done.0))
          (unfold spawned in rw (t.hands_on_nothing m.self) (append-nil (spawned m.log) ∙ done.1))
          longer)
      where
        c : Call
        c = t.read_call m.self

        msg : Bytes
        msg = received (os.result m.log c) (os.bytes m.log c)

        longer : stream_of os (c ∷ m.log) ≡ stream_of os m.log ++ msg
        longer = unfold stream_of in rw (t.reads m.self, stream_of) refl

    -- The receive thread of a client in continuous mode, which has joinable workers only, throws
    -- nothing and starts no worker. However the bytes are cut into reads and whatever the outside
    -- answers, what it has written to the stream of the client when it ends, or after `fuel` reads if
    -- it has not ended, is all the bytes read, in order and unchanged. If it has ended, the client
    -- does not run and every worker has been joined; if it has not, it has read at least `fuel`
    -- bytes.
    pub receive-IsForwarded :
        (fuel : ℕ) (s : Client D)
        → s.framing.enabled ≡ false
        → s.work ≡ vectors ws
        → Runs (λ _. IsDone) (IsLong fuel) (receive os p fuel (record { self = s; log = [] }))
    unfolding receive stream_of spawned written
    receive-IsForwarded fuel s off e =
        receive_loop-Runs fuel fuel (record { self = s; log = [] }) (off, e) (refl, refl)
          (omega arith)
