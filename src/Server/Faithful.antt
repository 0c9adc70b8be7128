-- ===== src/Server/Faithful.antt =====
-- `Server::listenMessage` in fragmented mode as a whole: what it hands on, and its end.
use Prim.Native.Nat.{◌≤◌}
use tcp_server_client.Prelude.{
  ℕ, zero, suc, ◌+◌, ◌*◌, ◌<◌, Bool, true, false, Option, none, some, List, [], ◌∷◌, ◌++◌, length,
  length-append, append-nil, ◌≡◌, refl, sym, ap, ◌∙◌, arith,
}
use tcp_server_client.Prelude.Int.{ℤ}
use tcp_server_client.Exec.{
  Bytes, Call, clear_flag, work_on_established, call_if, Os, Machine, Outcome, ok, throws, diverges,
  Exec,
}
use tcp_server_client.Exec.Runs.{Runs, RunsTo, Returns, Returns-weaken, Runs-weaken, Runs-bind}
use tcp_server_client.Exec.Trace.{stream_of, spawned, IsQuiet-call_if}
use tcp_server_client.Framing.{Framing, size_mod}
use tcp_server_client.Framing.Scan.{scan}
use tcp_server_client.Maps.{find}
use tcp_server_client.Workers.Prune.{Worker, vectors}
use tcp_server_client.Workers.Total.{AllJoinable}
use tcp_server_client.ReadMsg.{maximum_receive_package_size, received}
use tcp_server_client.Server.{Server, Protocol}
use tcp_server_client.Server.Transport.{Transport, ReadsAtMost, length-read}
use tcp_server_client.Server.Receive.{
  receive_loop, add_forward_stream, open_connection, running_manager, serve_connection,
  listen_message,
}
use tcp_server_client.Server.Stream.{IsFaithful, receive_round-Runs}
use tcp_server_client.Server.Chunk.{Received}

module _ {S A : Type 0} (os : Os) (Q R : Machine S → Type 0) (flag : ℤ) where
  manager-RunsTo :
      (r : Outcome A) (m : Machine S)
      → ((m' : Machine S) → Q m' → Q (record m' { log = clear_flag flag ∷ m'.log }))
      → ((m' : Machine S) → R m' → R (record m' { log = clear_flag flag ∷ m'.log }))
      → RunsTo (λ _. Q) R r m
      → RunsTo (λ _. Q) R r (record m { log = clear_flag flag ∷ m.log })
  manager-RunsTo (ok a) m q r h = q m h
  manager-RunsTo (throws e) m q r h = h
  manager-RunsTo diverges m q r h = r m h

  pub running_manager-Runs :
      (body : Exec S A) (m : Machine S)
      → ((m' : Machine S) → Q m' → Q (record m' { log = clear_flag flag ∷ m'.log }))
      → ((m' : Machine S) → R m' → R (record m' { log = clear_flag flag ∷ m'.log }))
      → Runs (λ _. Q) R (body m)
      → Runs (λ _. Q) R (running_manager os flag body m)
  unfolding running_manager
  running_manager-Runs body m q r h = manager-RunsTo (body m).0 (body m).1 q r h

module _ (D : Type 0) (os : Os) (client : ℤ) where
  -- A new connection reads nothing, hands on nothing, and leaves the framing alone.
  abbrev IsOpened : Machine (Server D) → Machine (Server D) → Type 0
  IsOpened m m' =
      (m'.self.framing ≡ m.self.framing)
      × (stream_of os m'.log ≡ stream_of os m.log)
      × (spawned m'.log ≡ spawned m.log)

  add_forward_stream-Returns :
      (creator : Bool) (m : Machine (Server D))
      → m.self.generate_new_forward_stream ≡ creator
      → Returns (λ _. IsOpened m) (add_forward_stream os client m)
  unfolding add_forward_stream stream_of spawned
  add_forward_stream-Returns true m e =
      rw (e, add_forward_stream) (refl, refl, append-nil (spawned m.log))
  add_forward_stream-Returns false m e = rw (e, add_forward_stream) (refl, refl, refl)

  open_connection-Returns :
      (m : Machine (Server D)) → Returns (λ _. IsOpened m) (open_connection os client m)
  unfolding open_connection
  open_connection-Returns m =
      Runs-bind (λ _. IsOpened m) (λ _. ⊥) (add_forward_stream os client) _ m
        (add_forward_stream-Returns m.self.generate_new_forward_stream m refl)
        (λ _ m' h.
          Returns-weaken (λ _. IsOpened m)
            (call_if os m'.self.work_on_established (work_on_established client) m')
            (λ _ m'' q. (
              ap (λ (s : Server D). s.framing) q.same_self ∙ h.0,
              q.same_stream ∙ h.1,
              q.same_spawned ∙ h.2,
            ))
            (IsQuiet-call_if os m'.self.work_on_established m' (work_on_established client) refl
              refl (λ _. refl)))

module _ (D : Type 0) (os : Os) (client : ℤ) {p : Protocol D} (t : Transport os p) (cfg : Framing)
    (on : cfg.enabled ≡ true) (most : ReadsAtMost os) where
  -- Out of fuel, at least `n` bytes were read.
  abbrev pub IsLong : ℕ → Machine (Server D) → Type 0
  IsLong n m = IsFaithful D os client cfg m × (n ≤ length (stream_of os m.log))

  receive_loop-Runs :
      (fuel n : ℕ) (connection : ℤ) (ws : List Worker) (buffer : Bytes) (m : Machine (Server D))
      → AllJoinable ws
      → length ws + maximum_receive_package_size * fuel < size_mod
      → length buffer + maximum_receive_package_size * fuel < size_mod
      → n ≤ length (stream_of os m.log) + fuel
      → Received D os client cfg buffer m
      → Runs
          (λ _. IsFaithful D os client cfg)
          (IsLong n)
          (receive_loop os p fuel client connection (vectors ws) buffer m)
  unfolding receive_loop
  receive_loop-Runs zero n connection ws buffer m all few small far got =
      (sym (ap (λ x. x.messages) got.1), omega arith)
  receive_loop-Runs (suc fuel) n connection ws buffer m all few small far got =
      rw (t.read_law connection m) (
        receive_round-Runs D os client t cfg on most (IsLong n)
          (receive_loop os p fuel client connection) (maximum_receive_package_size * fuel)
          connection ws buffer msg m.log (record m { log = c ∷ m.log })
          (λ vs buffer' m' some_read all' few' small' same got'.
            receive_loop-Runs fuel n connection vs buffer' m' all' few' small'
              (omega (arith, ap length (same ∙ longer), length-append (stream_of os m.log) msg))
              got')
          all (length-read os most m.log c (t.reads connection)) (omega arith) (omega arith) got.0
          got.1 longer none_handed)
    where
      c : Call
      c = t.read_call connection

      msg : Bytes
      msg = received (os.result m.log c) (os.bytes m.log c)

      longer : stream_of os (c ∷ m.log) ≡ stream_of os m.log ++ msg
      longer = unfold stream_of in rw (t.reads connection, stream_of)

      none_handed : spawned (c ∷ m.log) ≡ spawned m.log
      none_handed =
          unfold spawned in rw (t.hands_on_nothing connection) (append-nil (spawned m.log))

  cleared-IsFaithful :
      (flag : ℤ) (m : Machine (Server D))
      → IsFaithful D os client cfg m
      → IsFaithful D os client cfg (record m { log = clear_flag flag ∷ m.log })
  cleared-IsFaithful flag m h = unfold stream_of spawned in append-nil (spawned m.log) ∙ h

  cleared-Long :
      (n : ℕ) (flag : ℤ) (m : Machine (Server D))
      → IsLong n m
      → IsLong n (record m { log = clear_flag flag ∷ m.log })
  cleared-Long n flag m h = (cleared-IsFaithful flag m h.0, unfold stream_of in h.1)

  -- What the thread runs between the setting and the clearing of its flag.
  served-Runs :
      (fuel : ℕ) (connection : Option ℤ) (s : Server D)
      → s.framing ≡ cfg
      → maximum_receive_package_size * fuel < size_mod
      → Runs
          (λ _. IsFaithful D os client cfg)
          (IsLong fuel)
          (serve_connection os p fuel client connection (record { self = s; log = [] }))
  unfolding serve_connection stream_of spawned scan
  served-Runs fuel none s same small = refl
  served-Runs fuel (some connection) s same small =
      Runs-bind (λ _. IsFaithful D os client cfg) (IsLong fuel) (open_connection os client) _ _
        (Runs-weaken {R' = IsLong fuel} (open_connection os client (record { self = s; log = [] }))
          (λ _ _ h. h) (λ _ e. absurd e)
          (open_connection-Returns D os client (record { self = s; log = [] })))
        (λ _ m h.
          receive_loop-Runs fuel fuel connection [] [] m tt (omega arith) (omega arith)
            (omega arith) (h.0 ∙ same, rw (h.1, h.2)))

  -- The receive thread of a connection in fragmented mode never throws, joins no thread twice and
  -- leaves no index range. However the bytes are cut into reads and whatever the outside answers,
  -- if no read hands over more than it was asked for, the messages that it has handed on when it
  -- ends, or after `fuel` reads if it has not ended, are those that the byte machine completes on
  -- all the bytes read; and if it has not ended, it has read at least `fuel` bytes. The bytes of
  -- `fuel` reads of full size are below 2^64.
  pub listen_message-IsFaithful :
      (fuel : ℕ) (flag : ℤ) (s : Server D)
      → s.framing ≡ cfg
      → maximum_receive_package_size * fuel < size_mod
      → Runs
          (λ _. IsFaithful D os client cfg)
          (IsLong fuel)
          (listen_message os p fuel client flag (record { self = s; log = [] }))
  unfolding listen_message
  listen_message-IsFaithful fuel flag s same small =
      running_manager-Runs os (IsFaithful D os client cfg) (IsLong fuel) flag _ _
        (cleared-IsFaithful flag) (cleared-Long fuel flag)
        (served-Runs fuel (find client s.active_connections) s same small)

  -- The thread ends, once its connection does: if fewer than `fuel` bytes ever come, it returns
  -- within `fuel` reads, with the messages that they complete handed on. No read hands over more
  -- than it was asked for, and the bytes of `fuel` reads of full size are below 2^64.
  pub listen_message-Returns :
      (fuel : ℕ) (flag : ℤ) (s : Server D)
      → s.framing ≡ cfg
      → maximum_receive_package_size * fuel < size_mod
      → ((log : List Call) → length (stream_of os log) < fuel)
      → Returns
          (λ _. IsFaithful D os client cfg)
          (listen_message os p fuel client flag (record { self = s; log = [] }))
  listen_message-Returns fuel flag s same small few =
      Runs-weaken {R' = λ _. ⊥}
        (listen_message os p fuel client flag (record { self = s; log = [] })) (λ _ _ h. h)
        (λ m h. let short = few m.log in absurd (omega arith))
        (listen_message-IsFaithful fuel flag s same small)
