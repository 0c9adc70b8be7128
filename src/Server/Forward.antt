-- ===== src/Server/Forward.antt =====
-- `Server::listenMessage` in continuous mode: what is written to the stream of a connection.
use Prim.Native.Nat.{◌≤◌}
use tcp_server_client.Prelude.{
  ℕ, zero, suc, ◌+◌, true, false, Option, none, some, List, [], ◌∷◌, ◌++◌, length, length-append,
  append-nil, ◌≡◌, refl, sym, ap, ◌∙◌, arith, if-true,
}
use tcp_server_client.Prelude.Int.{ℤ, pos, eqb_ℤ, eqb_ℤ-refl}
use tcp_server_client.Exec.{
  Bytes, Call, clear_flag, create_stream, write_stream, work_on_established, call_if, Os, Machine,
  ok, Exec,
}
use tcp_server_client.Exec.Runs.{Runs, Returns, Returns-weaken, Runs-weaken, Runs-bind}
use tcp_server_client.Exec.Trace.{stream_of, spawned, written, IsQuiet-call_if}
use tcp_server_client.Maps.{find, find-set}
use tcp_server_client.Workers.{Workers, no_workers}
use tcp_server_client.ReadMsg.{received}
use tcp_server_client.Server.{Server, Protocol}
use tcp_server_client.Server.Transport.{Transport}
use tcp_server_client.Server.Receive.{
  handle_chunk, receive_round, receive_loop, add_forward_stream, open_connection, close_connection,
  serve_connection, listen_message,
}
use tcp_server_client.Server.Stream.{close_connection-Returns}
use tcp_server_client.Server.Faithful.{running_manager-Runs}

module _ (D : Type 0) (os : Os) (client out : ℤ) where
  -- The stream has got the bytes read, and no worker was started.
  abbrev pub IsForwarded : Machine (Server D) → Type 0
  IsForwarded m = (written out m.log ≡ stream_of os m.log) × (spawned m.log ≡ [])

  -- Out of fuel, at least `n` bytes were read.
  abbrev pub IsLong : ℕ → Machine (Server D) → Type 0
  IsLong n m = IsForwarded m × (n ≤ length (stream_of os m.log))

  -- The object between two rounds.
  abbrev Forwards : Server D → Type 0
  Forwards s =
      (s.framing.enabled ≡ false)
      × (find client s.forward_streams ≡ some out)
      × (eqb_ℤ out (pos 0) ≡ false)

  -- A chunk goes to the stream of the client, whole and at once.
  handle_chunk-Forwards :
      (buffer msg : Bytes) (m : Machine (Server D))
      → Forwards m.self
      → handle_chunk os client no_workers buffer msg m
        ≡ (ok (buffer, no_workers), record m { log = write_stream out msg ∷ m.log })
  unfolding handle_chunk
  handle_chunk-Forwards buffer msg m h = rw (h.0, h.1, h.2) refl

  write_stream-IsForwarded :
      (msg : Bytes) (log : List Call) (m : Machine (Server D))
      → written out m.log ≡ stream_of os log
      → spawned m.log ≡ []
      → stream_of os m.log ≡ stream_of os log ++ msg
      → IsForwarded (record m { log = write_stream out msg ∷ m.log })
  unfolding written stream_of spawned
  write_stream-IsForwarded msg log m before none_handed read =
      (rw (eqb_ℤ-refl out) (rw (before, read) refl), append-nil (spawned m.log) ∙ none_handed)

  module _ {p : Protocol D} (t : Transport os p) where
    -- One round, if the rounds after it are as they should be.
    receive_round-Runs :
        (R : Machine (Server D) → Type 0) (next : Workers → Bytes → Exec (Server D) (Unit {0}))
        (connection : ℤ) (msg : Bytes) (log : List Call) (m : Machine (Server D))
        → ((m' : Machine (Server D))
            → 1 ≤ length msg
            → Forwards m'.self
            → IsForwarded m'
            → stream_of os m'.log ≡ stream_of os m.log
            → Runs (λ _. IsForwarded) R (next no_workers [] m'))
        → Forwards m.self
        → written out m.log ≡ stream_of os log
        → spawned m.log ≡ []
        → stream_of os m.log ≡ stream_of os log ++ msg
        → Runs (λ _. IsForwarded) R (receive_round os p next client connection no_workers [] msg m)
    unfolding receive_round
    receive_round-Runs R next connection [] log m ih h before none_handed read =
        Runs-weaken {Q' = λ _. IsForwarded} {R' = R}
          (close_connection os p client connection no_workers m)
          (λ _ m' c. (
            c.3 out ∙ before ∙ sym (append-nil (stream_of os log)) ∙ sym read ∙ sym c.1,
            c.2 ∙ none_handed,
          ))
          (λ _ e. absurd e) (close_connection-Returns D os client t connection [] m tt)
    receive_round-Runs R next connection (c ∷ cs) log m ih h before none_handed read =
        rw (handle_chunk-Forwards [] (c ∷ cs) m h) (
          ih (record m { log = write_stream out (c ∷ cs) ∷ m.log }) (omega arith) h
            (write_stream-IsForwarded (c ∷ cs) log m before none_handed read)
            (unfold stream_of in refl))

    receive_loop-Runs :
        (fuel n : ℕ) (connection : ℤ) (m : Machine (Server D))
        → Forwards m.self
        → IsForwarded m
        → n ≤ length (stream_of os m.log) + fuel
        → Runs
            (λ _. IsForwarded)
            (IsLong n)
            (receive_loop os p fuel client connection no_workers [] m)
    unfolding receive_loop
    receive_loop-Runs zero n connection m h done far = (done, omega arith)
    receive_loop-Runs (suc fuel) n connection m h done far = rw (t.read_law connection m) (
        receive_round-Runs (IsLong n) (receive_loop os p fuel client connection) connection msg
          m.log (record m { log = c ∷ m.log })
          (λ m' some_read h' done' same.
            receive_loop-Runs fuel n connection m' h' done'
              (omega (arith, ap length (same ∙ longer), length-append (stream_of os m.log) msg)))
          h
          (unfold written in
            rw (t.forwards_nothing connection out) (append-nil (written out m.log) ∙ done.0))
          (unfold spawned in
            rw (t.hands_on_nothing connection) (append-nil (spawned m.log) ∙ done.1))
          longer)
      where
        c : Call
        c = t.read_call connection

        msg : Bytes
        msg = received (os.result m.log c) (os.bytes m.log c)

        longer : stream_of os (c ∷ m.log) ≡ stream_of os m.log ++ msg
        longer = unfold stream_of in rw (t.reads connection, stream_of) refl

module _ (D : Type 0) (os : Os) (client : ℤ) where
  -- The stream that `generateNewForwardStream` makes for the connection, before anything else.
  abbrev pub new_stream : ℤ
  new_stream = os.result [] (create_stream client)

  -- The object and the trace once the connection has its stream, on which nothing is written yet.
  abbrev HasStream : Machine (Server D) → Type 0
  HasStream m =
      (m.self.framing.enabled ≡ false)
      × (find client m.self.forward_streams ≡ some new_stream)
      × IsForwarded D os client new_stream m

  add_forward_stream-HasStream :
      (s : Server D)
      → s.framing.enabled ≡ false
      → s.generate_new_forward_stream ≡ true
      → Returns (λ _. HasStream) (add_forward_stream os client (record { self = s; log = [] }))
  unfolding add_forward_stream stream_of spawned written
  add_forward_stream-HasStream s off creates =
      rw (creates, add_forward_stream)
        (
          off,
          find-set client client new_stream s.forward_streams
              ∙ if-true (eqb_ℤ client client) (some new_stream) (find client s.forward_streams)
                  (eqb_ℤ-refl client),
          (refl, refl),
        )

  open_connection-HasStream :
      (s : Server D)
      → s.framing.enabled ≡ false
      → s.generate_new_forward_stream ≡ true
      → Returns (λ _. HasStream) (open_connection os client (record { self = s; log = [] }))
  unfolding open_connection
  open_connection-HasStream s off creates =
      Runs-bind (λ _. HasStream) (λ _. ⊥) (add_forward_stream os client) _
        (record { self = s; log = [] }) (add_forward_stream-HasStream s off creates)
        (λ _ m h.
          Returns-weaken (λ _. HasStream)
            (call_if os m.self.work_on_established (work_on_established client) m)
            (λ _ m' q. (
              ap (λ (r : Server D). r.framing.enabled) q.same_self ∙ h.0,
              ap (λ (r : Server D). find client r.forward_streams) q.same_self ∙ h.1,
              (q.same_written new_stream ∙ h.2.0 ∙ sym q.same_stream, q.same_spawned ∙ h.2.1),
            ))
            (IsQuiet-call_if os m.self.work_on_established m (work_on_established client) refl refl
              (λ _. refl)))

  module _ {p : Protocol D} (t : Transport os p) where
    served-Runs :
        (fuel : ℕ) (connection : Option ℤ) (s : Server D)
        → s.framing.enabled ≡ false
        → s.generate_new_forward_stream ≡ true
        → eqb_ℤ new_stream (pos 0) ≡ false
        → Runs
            (λ _. IsForwarded D os client new_stream)
            (IsLong D os client new_stream fuel)
            (serve_connection os p fuel client connection (record { self = s; log = [] }))
    unfolding serve_connection
    served-Runs fuel none s off creates exists = unfold written stream_of spawned in (refl, refl)
    served-Runs fuel (some connection) s off creates exists =
        Runs-bind (λ _. IsForwarded D os client new_stream) (IsLong D os client new_stream fuel)
          (open_connection os client) _ _
          (Runs-weaken {R' = IsLong D os client new_stream fuel}
            (open_connection os client (record { self = s; log = [] })) (λ _ _ h. h)
            (λ _ e. absurd e) (open_connection-HasStream s off creates))
          (λ _ m h.
            receive_loop-Runs D os client new_stream t fuel fuel connection m (h.0, h.1, exists) h.2
              (omega arith))

    cleared-IsForwarded :
        (flag : ℤ) (m : Machine (Server D))
        → IsForwarded D os client new_stream m
        → IsForwarded D os client new_stream (record m { log = clear_flag flag ∷ m.log })
    cleared-IsForwarded flag m h =
        unfold stream_of spawned written in
        (append-nil (written new_stream m.log) ∙ h.0, append-nil (spawned m.log) ∙ h.1)

    -- The receive thread of a connection in continuous mode, with a function that makes streams and
    -- that does not answer null for this connection, throws nothing and starts no worker. However the
    -- bytes are cut into reads and whatever else the outside answers, what it has written to the
    -- stream made for the connection when it ends, or after `fuel` reads if it has not ended, is all
    -- the bytes read, in order and unchanged; and if it has not ended, it has read at least `fuel`
    -- bytes.
    pub listen_message-IsForwarded :
        (fuel : ℕ) (flag : ℤ) (s : Server D)
        → s.framing.enabled ≡ false
        → s.generate_new_forward_stream ≡ true
        → eqb_ℤ new_stream (pos 0) ≡ false
        → Runs
            (λ _. IsForwarded D os client new_stream)
            (IsLong D os client new_stream fuel)
            (listen_message os p fuel client flag (record { self = s; log = [] }))
    unfolding listen_message
    listen_message-IsForwarded fuel flag s off creates exists =
        running_manager-Runs os (IsForwarded D os client new_stream)
          (IsLong D os client new_stream fuel) flag _ _ (cleared-IsForwarded flag)
          (λ m h. (cleared-IsForwarded flag m h.0, unfold stream_of in h.1))
          (served-Runs fuel (find client s.active_connections) s off creates exists)
