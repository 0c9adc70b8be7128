-- ===== src/Client/Stream.antt =====
-- What the receive thread of a client in fragmented mode does with one chunk.
use Prim.Native.Nat.{◌≤◌}
use tcp_server_client.Prelude.{
  ℕ, ◌+◌, ◌<◌, true, List, [], ◌∷◌, ◌++◌, length, length-append, append_assoc, append-nil, ◌≡◌,
  refl, sym, ap, ◌∙◌, arith, if-true,
}
use tcp_server_client.Prelude.Int.{pos}
use tcp_server_client.Exec.{
  Bytes, Call, spawn_worker, Os, Machine, Exec, for_each, for_each-nil, for_each-cons,
}
use tcp_server_client.Exec.Runs.{Returns, Returns-weaken, Runs-bind}
use tcp_server_client.Exec.Trace.{stream_of, spawned}
use tcp_server_client.Framing.{Framing, size_mod, split_chunk}
use tcp_server_client.Framing.Scan.{Scanned, scan, length-messages-scan, length-buffer-scan}
use tcp_server_client.Framing.Split.{split_chunk-scan}
use tcp_server_client.Workers.{Workers, prune}
use tcp_server_client.Workers.Prune.{Worker, vectors}
use tcp_server_client.Workers.Total.{Left, AllJoinable, AllJoinable-concat, prune-Returns}
use tcp_server_client.Client.{Client}
use tcp_server_client.Client.Receive.{handle_message, handle_chunk}
use tcp_server_client.Server.Chunk.{vectors-concat, scan-chunk}

module _ (D : Type 0) (os : Os) where
  -- The messages were handed on, in order, and nothing was read. At most `n` workers are left, all
  -- joinable, and nothing else of the client has changed.
  abbrev pub Handed : Machine (Client D) → List Bytes → ℕ → Machine (Client D) → Type 0
  Handed m msgs n m' =
      (ws : List Worker) × (m'.self ≡ record m.self { work = vectors ws })
      × AllJoinable ws
      × (length ws ≤ n)
      × (stream_of os m'.log ≡ stream_of os m.log)
      × (spawned m'.log ≡ spawned m.log ++ msgs)

  prune-Left :
      (w : Workers) (ws : List Worker) (m : Machine (Client D))
      → w ≡ vectors ws
      → AllJoinable ws
      → length ws < size_mod
      → Returns
          (λ w' m'.
            (rest : List Worker) × (w' ≡ vectors rest) × Left (Client D) os (length ws) m rest m')
          (prune os w m)
  prune-Left w ws m e all fits = rw e (prune-Returns (Client D) os ws m all fits)

  pub handle_message-Returns :
      (ws : List Worker) (text : Bytes) (m : Machine (Client D))
      → m.self.work ≡ vectors ws
      → AllJoinable ws
      → length ws < size_mod
      → Returns (λ _. Handed m (text ∷ []) (length ws + 1)) (handle_message os tt text m)
  unfolding handle_message stream_of spawned
  handle_message-Returns ws text m e all fits =
      Runs-bind (λ _. Handed m (text ∷ []) (length ws + 1)) (λ _. ⊥) (prune os m.self.work) _
        (record m { log = spawn_worker (pos 0) text ∷ m.log })
        (prune-Left m.self.work ws _ e all fits)
        (λ w m' h.
          let (rest, e', left) = h in
          let (joinable, fewer, quiet) = left in
          let new : Worker = record {
            thread = record {
              handle = os.result m.log (spawn_worker (pos 0) text);
              joinable = true;
            };
            flag = os.result m.log (spawn_worker (pos 0) text);
          } in
          (
            rest ++ new ∷ [],
            rw e' (
                rw (vectors-concat rest new)
                  (ap (λ (s : Client D). record s { work = after rest new }) quiet.same_self)),
            AllJoinable-concat rest new joinable refl,
            omega (arith, length-append rest (new ∷ [])),
            quiet.same_stream,
            quiet.same_spawned,
          ))
    where
      after : List Worker → Worker → Workers
      after rest new = record {
        handlers = (vectors rest).handlers ++ new.thread ∷ [];
        running = (vectors rest).running ++ new.flag ∷ [];
      }

  for_each-Returns :
      (msgs : List Bytes) (ws : List Worker) (m : Machine (Client D))
      → m.self.work ≡ vectors ws
      → AllJoinable ws
      → length ws + length msgs < size_mod
      → Returns
          (λ _. Handed m msgs (length ws + length msgs))
          (for_each (handle_message os) tt msgs m)
  for_each-Returns [] ws m e all fits = rw for_each-nil (
    ws,
    ap (λ (w : Workers). record m.self { work = w }) e,
    all,
    omega arith,
    refl,
    sym (append-nil (spawned m.log)),
  )
  for_each-Returns (text ∷ rest) ws m e all fits = rw for_each-cons (
      Runs-bind (λ _. Handed m (text ∷ rest) (length ws + length (text ∷ rest))) (λ _. ⊥)
        (handle_message os tt text) _ m (handle_message-Returns ws text m e all (omega arith))
        (λ _ m' h.
          let (vs, self, all', fewer, stream, handed) = h in
          Returns-weaken (λ _. Handed m (text ∷ rest) (length ws + length (text ∷ rest)))
            (for_each (handle_message os) tt rest m')
            (λ _ m'' k.
              let (us, self', all'', fewer', stream', handed') = k in
              (
                us,
                self' ∙ ap (λ (s : Client D). record s { work = vectors us }) self,
                all'',
                omega arith,
                stream' ∙ stream,
                handed'
                    ∙ ap (λ l. l ++ rest) handed
                    ∙ append_assoc (spawned m.log) (text ∷ []) rest,
              ))
            (for_each-Returns rest vs m' (ap (λ (s : Client D). s.work) self) all' (omega arith))))

  -- What is known between two rounds of the loop: the messages handed on are those that the bytes
  -- read complete, and the buffer holds the bytes of the one that is not complete.
  abbrev pub Received : Framing → Bytes → Machine (Client D) → Type 0
  Received cfg buffer m =
      (m.self.framing ≡ cfg)
      × (scan cfg.delimiter cfg.max_length [] (stream_of os m.log)
          ≡ record { messages = spawned m.log; buffer = buffer })

  -- At most `n` workers, all joinable.
  abbrev pub HasWorkers : ℕ → Machine (Client D) → Type 0
  HasWorkers n m =
      (ws : List Worker) × (m.self.work ≡ vectors ws) × AllJoinable ws × (length ws ≤ n)

  -- After a chunk.
  abbrev pub ChunkDone : Framing → ℕ → ℕ → Bytes → (Bytes × Unit {0}) → Machine (Client D) → Type 0
  ChunkDone cfg n size read locals m =
      HasWorkers n m
      × (length locals.0 ≤ size)
      × (stream_of os m.log ≡ read)
      × Received cfg locals.0 m

  handle_chunk-split_chunk :
      (buffer msg : Bytes) (cfg : Framing) (m : Machine (Client D))
      → m.self.framing ≡ cfg
      → cfg.enabled ≡ true
      → handle_chunk os buffer msg m ≡ split_chunk cfg (handle_message os) tt buffer msg m
  unfolding handle_chunk
  handle_chunk-split_chunk buffer msg cfg m same on =
      ap (λ (x : Exec (Client D) (Bytes × Unit {0})). x m)
        (if-true m.self.framing.enabled _ _ (ap (λ (c : Framing). c.enabled) same ∙ on))
      ∙ ap (λ (c : Framing). split_chunk c (handle_message os) tt buffer msg m) same

  -- A chunk that was read after `log`.
  pub handle_chunk-Returns :
      (cfg : Framing) (ws : List Worker) (buffer msg : Bytes) (log : List Call)
      (m : Machine (Client D))
      → cfg.enabled ≡ true
      → m.self.work ≡ vectors ws
      → AllJoinable ws
      → length ws + length msg < size_mod
      → length buffer + length msg < size_mod
      → m.self.framing ≡ cfg
      → scan cfg.delimiter cfg.max_length [] (stream_of os log)
        ≡ record { messages = spawned log; buffer = buffer }
      → stream_of os m.log ≡ stream_of os log ++ msg
      → spawned m.log ≡ spawned log
      → Returns
          (ChunkDone cfg (length ws + length msg) (length buffer + length msg) (stream_of os m.log))
          (handle_chunk os buffer msg m)
  handle_chunk-Returns cfg ws buffer msg log m on e all fits small same_cfg before read quiet =
      rw
        (handle_chunk-split_chunk buffer msg cfg m same_cfg on
          ∙ split_chunk-scan cfg (handle_message os) tt buffer msg m small)
        (Runs-bind
          (ChunkDone cfg (length ws + length msg) (length buffer + length msg) (stream_of os m.log))
          (λ _. ⊥) (for_each (handle_message os) tt out.messages) _ m
          (for_each-Returns out.messages ws m e all (omega (arith, few)))
          (λ _ m' h.
            let (vs, self, all', fewer, stream, handed) = h in
            (
              (vs, ap (λ (s : Client D). s.work) self, all', omega (arith, few)),
              length-buffer-scan cfg.delimiter cfg.max_length msg buffer,
              stream,
              (
                ap (λ (s : Client D). s.framing) self ∙ same_cfg,
                rw (stream, read, handed, quiet)
                    (scan-chunk cfg.delimiter cfg.max_length (stream_of os log) msg buffer
                      (spawned log) before),
              ),
            )))
    where
      out : Scanned
      out = scan cfg.delimiter cfg.max_length buffer msg

      few : length out.messages ≤ length msg
      few = length-messages-scan cfg.delimiter cfg.max_length msg buffer
