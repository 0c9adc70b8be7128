-- ===== src/Client/Faithful.antt =====
-- `Client::receive` in fragmented mode as a whole: what it hands on, and its end.
use Prim.Native.Nat.{◌≤◌}
use tcp_server_client.Prelude.{
  ℕ, zero, suc, ◌+◌, ◌*◌, ◌<◌, true, false, List, [], ◌∷◌, ◌++◌, map, length, length-append,
  append-nil, ◌≡◌, refl, subst, sym, ap, ◌∙◌, arith,
}
use tcp_server_client.Prelude.Int.{ℤ, nonzero}
use tcp_server_client.Exec.{Bytes, Call, shutdown, shut_rdwr, Os, Machine, Exec}
use tcp_server_client.Exec.Runs.{Runs, Returns, Runs-weaken, Runs-bind, Runs-if}
use tcp_server_client.Exec.Trace.{stream_of, spawned, written, IsQuiet}
use tcp_server_client.Framing.{Framing, size_mod}
use tcp_server_client.Framing.Scan.{Scanned, scan}
use tcp_server_client.Workers.{Thread, join_all}
use tcp_server_client.Workers.Prune.{Worker, vectors}
use tcp_server_client.Workers.Total.{AllJoinable, join_all-Returns}
use tcp_server_client.ReadMsg.{maximum_receive_package_size, received}
use tcp_server_client.Client.{Client, Protocol}
use tcp_server_client.Client.Transport.{Transport}
use tcp_server_client.Client.Receive.{
  joined, handle_chunk, join_workers, lose_connection, receive_round, receive_loop, receive,
}
use tcp_server_client.Client.Stream.{Received, handle_chunk-Returns}
use tcp_server_client.Server.Transport.{ReadsAtMost, length-read}

abbrev pub NoneJoinable : List Thread → Type 0
NoneJoinable [] = Unit
NoneJoinable (w ∷ ws) = (w.joinable ≡ false) × NoneJoinable ws

joined-NoneJoinable : (ws : List Thread) → NoneJoinable (map joined ws)
joined-NoneJoinable [] = tt
joined-NoneJoinable (w ∷ ws) = (refl, joined-NoneJoinable ws)

module _ (D : Type 0) (os : Os) where
  -- The messages handed on are those that the bytes read complete.
  abbrev pub IsFaithful : Framing → Machine (Client D) → Type 0
  IsFaithful cfg m =
      spawned m.log ≡ (scan cfg.delimiter cfg.max_length [] (stream_of os m.log)).messages

  -- The connection is lost: the client does not run, and every worker has been joined, but is still
  -- in the vector.
  abbrev pub IsLost : Client D → Type 0
  IsLost s = (s.running ≡ false) × NoneJoinable s.work.handlers

  -- What losing the connection does to the object and to the trace.
  abbrev pub Lost : Machine (Client D) → Machine (Client D) → Type 0
  Lost m m' =
      IsLost m'.self
      × (stream_of os m'.log ≡ stream_of os m.log)
      × (spawned m'.log ≡ spawned m.log)
      × ((out : ℤ) → written out m'.log ≡ written out m.log)

  join_workers-Returns :
      (ws : List Worker) (m : Machine (Client D))
      → m.self.work ≡ vectors ws
      → m.self.running ≡ false
      → AllJoinable ws
      → Returns (λ _ m'. Lost m m') (join_workers os m)
  unfolding join_workers
  join_workers-Returns ws m e off all =
      Runs-bind (λ _ m'. Lost m m') (λ _. ⊥) (join_all os m.self.work.handlers) _ m
        (subst (λ w. Returns (λ _ m'. IsQuiet os m m') (join_all os w.handlers m)) (sym e)
          (join_all-Returns (Client D) os ws m all))
        (λ _ m' q. (
          (
            ap (λ (s : Client D). s.running) q.same_self ∙ off,
            joined-NoneJoinable m'.self.work.handlers,
          ),
          q.same_stream,
          q.same_spawned,
          q.same_written,
        ))

  module _ {p : Protocol D} (t : Transport os p) where
    -- Losing the connection returns, whatever the outside answers: it reads, hands on
    -- and forwards nothing, the client does not run, and every worker has been joined.
    pub lose_connection-Returns :
        (ws : List Worker) (m : Machine (Client D))
        → m.self.work ≡ vectors ws
        → AllJoinable ws
        → Returns (λ _ m'. Lost m m') (lose_connection os p m)
    unfolding lose_connection stream_of spawned written
    lose_connection-Returns ws m e all =
        Runs-bind (λ _ m'. Lost m m') (λ _. ⊥) (join_workers os) _ _
          (join_workers-Returns ws (record m { self = record m.self { running = false } }) e refl
            all)
          (λ _ m1 h.
            Runs-bind (λ _ m'. Lost m m') (λ _. ⊥) p.connection_deinit _ m1 (t.deinit_law m1)
              (λ _ m2 q.
                let fd = m2.self.tcp_socket in
                let lost = subst IsLost (sym q.same_self) h.0 in
                let stream = q.same_stream ∙ h.1 in
                let handed = append-nil (spawned m2.log) ∙ q.same_spawned ∙ h.2 in
                let forwarded : (out : ℤ)
                    → written out (shutdown fd shut_rdwr ∷ m2.log) ≡ written out m.log =
                  λ out. append-nil (written out m2.log) ∙ q.same_written out ∙ h.3 out in
                Runs-if (λ _ m'. Lost m m') (λ _. ⊥)
                  (nonzero (os.result m2.log (shutdown fd shut_rdwr))) _ _ _
                  (λ _. (lost, stream, handed, forwarded))
                  (λ _. (
                    lost,
                    stream,
                    append-nil (spawned m2.log ++ []) ∙ handed,
                    λ out. append-nil (written out m2.log ++ []) ∙ forwarded out,
                  ))))

    module _ (cfg : Framing) (on : cfg.enabled ≡ true) (most : ReadsAtMost os) where
      -- It ended well: the client does not run, and what it handed on is right.
      abbrev pub IsDone : Machine (Client D) → Type 0
      IsDone m = IsFaithful cfg m × IsLost m.self

      -- Out of fuel, at least `n` bytes were read.
      abbrev pub IsLong : ℕ → Machine (Client D) → Type 0
      IsLong n m = IsFaithful cfg m × (n ≤ length (stream_of os m.log))

      -- One round, if the rounds after it are as they should be.
      receive_round-Runs :
          (R : Machine (Client D) → Type 0) (next : Bytes → Exec (Client D) (Unit {0})) (left : ℕ)
          (ws : List Worker) (buffer msg : Bytes) (log : List Call) (m : Machine (Client D))
          → ((vs : List Worker) (buffer' : Bytes) (m' : Machine (Client D))
              → 1 ≤ length msg
              → m'.self.work ≡ vectors vs
              → AllJoinable vs
              → length vs + left < size_mod
              → length buffer' + left < size_mod
              → stream_of os m'.log ≡ stream_of os m.log
              → Received D os cfg buffer' m'
              → Runs (λ _. IsDone) R (next buffer' m'))
          → m.self.work ≡ vectors ws
          → AllJoinable ws
          → length msg ≤ maximum_receive_package_size
          → length ws + (maximum_receive_package_size + left) < size_mod
          → length buffer + (maximum_receive_package_size + left) < size_mod
          → m.self.framing ≡ cfg
          → scan cfg.delimiter cfg.max_length [] (stream_of os log)
            ≡ record { messages = spawned log; buffer = buffer }
          → stream_of os m.log ≡ stream_of os log ++ msg
          → spawned m.log ≡ spawned log
          → Runs (λ _. IsDone) R (receive_round os p next buffer msg m)
      unfolding receive_round
      receive_round-Runs R next left ws buffer [] log m ih e all short few small same before read
            quiet =
          Runs-weaken {Q' = λ _. IsDone} {R' = R} (lose_connection os p m)
            (λ _ m' c. (
              rw (c.2, c.1, read, quiet)
                  (rw (append-nil (stream_of os log))
                    (sym (ap (λ (x : Scanned). x.messages) before))),
              c.0,
            ))
            (λ _ x. absurd x) (lose_connection-Returns ws m e all)
      receive_round-Runs R next left ws buffer (c ∷ cs) log m ih e all short few small same before
            read quiet =
          Runs-bind (λ _. IsDone) R (handle_chunk os buffer (c ∷ cs)) _ m
            (Runs-weaken {R' = R} (handle_chunk os buffer (c ∷ cs) m) (λ _ _ h. h) (λ _ x. absurd x)
              (handle_chunk-Returns D os cfg ws buffer (c ∷ cs) log m on e all (omega arith)
                (omega arith) same before read quiet))
            (λ locals m' h.
              let (workers, size, stream, got) = h in
              let (vs, e', all', fewer) = workers in
              ih vs locals.0 m' (omega arith) e' all' (omega arith) (omega arith) stream got)

      receive_loop-Runs :
          (fuel n : ℕ) (ws : List Worker) (buffer : Bytes) (m : Machine (Client D))
          → m.self.work ≡ vectors ws
          → AllJoinable ws
          → length ws + maximum_receive_package_size * fuel < size_mod
          → length buffer + maximum_receive_package_size * fuel < size_mod
          → n ≤ length (stream_of os m.log) + fuel
          → Received D os cfg buffer m
          → Runs (λ _. IsDone) (IsLong n) (receive_loop os p fuel buffer m)
      unfolding receive_loop
      receive_loop-Runs zero n ws buffer m e all few small far got =
          (sym (ap (λ x. x.messages) got.1), omega arith)
      receive_loop-Runs (suc fuel) n ws buffer m e all few small far got = rw (t.read_law m) (
          receive_round-Runs (IsLong n) (receive_loop os p fuel)
            (maximum_receive_package_size * fuel) ws buffer msg m.log (record m { log = c ∷ m.log })
            (λ vs buffer' m' some_read e' all' few' small' same got'.
              receive_loop-Runs fuel n vs buffer' m' e' all' few' small'
                (omega (arith, ap length (same ∙ longer), length-append (stream_of os m.log) msg))
                got')
            e all (length-read os most m.log c (t.reads m.self)) (omega arith) (omega arith) got.0
            got.1 longer none_handed)
        where
          c : Call
          c = t.read_call m.self

          msg : Bytes
          msg = received (os.result m.log c) (os.bytes m.log c)

          longer : stream_of os (c ∷ m.log) ≡ stream_of os m.log ++ msg
          longer = unfold stream_of in rw (t.reads m.self, stream_of)

          none_handed : spawned (c ∷ m.log) ≡ spawned m.log
          none_handed =
              unfold spawned in rw (t.hands_on_nothing m.self) (append-nil (spawned m.log))

      -- The receive thread of a client in fragmented mode, which starts with joinable workers only,
      -- never throws, joins no thread twice and leaves no index range. However the bytes are cut
      -- into reads and whatever the outside answers, if no read hands over more than it was asked
      -- for, the messages handed on when it ends, or after `fuel` reads, are those that the byte
      -- machine completes on all the bytes read. If it has ended, the client does not run and every
      -- worker has been joined; if it has not, it has read at least `fuel` bytes. The workers at
      -- the start and the bytes of `fuel` reads of full size are together below 2^64.
      pub receive-IsFaithful :
          (fuel : ℕ) (ws : List Worker) (s : Client D)
          → s.framing ≡ cfg
          → s.work ≡ vectors ws
          → AllJoinable ws
          → length ws + maximum_receive_package_size * fuel < size_mod
          → Runs (λ _. IsDone) (IsLong fuel) (receive os p fuel (record { self = s; log = [] }))
      unfolding receive stream_of spawned scan
      receive-IsFaithful fuel ws s same e all small =
          receive_loop-Runs fuel fuel ws [] (record { self = s; log = [] }) e all small
            (omega arith) (omega arith) (same, refl)

      -- The thread ends, once its connection does: if fewer than `fuel` bytes ever come, it returns
      -- within `fuel` reads, with the messages that they complete handed on and every worker
      -- joined. It starts with joinable workers only, no read hands over more than it was asked
      -- for, and the workers and the bytes of `fuel` reads of full size are together below 2^64.
      pub receive-Returns :
          (fuel : ℕ) (ws : List Worker) (s : Client D)
          → s.framing ≡ cfg
          → s.work ≡ vectors ws
          → AllJoinable ws
          → length ws + maximum_receive_package_size * fuel < size_mod
          → ((log : List Call) → length (stream_of os log) < fuel)
          → Returns (λ _. IsDone) (receive os p fuel (record { self = s; log = [] }))
      receive-Returns fuel ws s same e all small few =
          Runs-weaken {R' = λ _. ⊥} (receive os p fuel (record { self = s; log = [] })) (λ _ _ h. h)
            (λ m h. let short = few m.log in absurd (omega arith))
            (receive-IsFaithful fuel ws s same e all small)
