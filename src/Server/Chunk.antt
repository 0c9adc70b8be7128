-- ===== src/Server/Chunk.antt =====
-- What the receive thread of a connection in fragmented mode does with one chunk.
use Prim.Native.Nat.{◌≤◌}
use tcp_server_client.Prelude.{
  ℕ, ◌+◌, ◌<◌, true, List, [], ◌∷◌, ◌++◌, length, length-append, append_assoc, append-nil, ◌≡◌,
  refl, sym, ap, ◌∙◌, arith, if-true,
}
use tcp_server_client.Prelude.Int.{ℤ}
use tcp_server_client.Exec.{
  Bytes, Call, spawn_worker, Os, Machine, Exec, for_each, for_each-nil, for_each-cons,
}
use tcp_server_client.Exec.Runs.{Returns, Returns-weaken, Runs-bind}
use tcp_server_client.Exec.Trace.{stream_of, spawned}
use tcp_server_client.Framing.{Framing, size_mod, split_chunk}
use tcp_server_client.Framing.Scan.{
  Scanned, scan, prepend, scan-append, length-messages-scan, length-buffer-scan,
}
use tcp_server_client.Framing.Split.{split_chunk-scan}
use tcp_server_client.Workers.{Workers, prune}
use tcp_server_client.Workers.Prune.{Worker, vectors}
use tcp_server_client.Workers.Total.{AllJoinable, AllJoinable-concat, prune-Returns}
use tcp_server_client.Server.{Server}
use tcp_server_client.Server.Receive.{handle_message, handle_chunk}

pub vectors-concat :
    (ws : List Worker) (w : Worker)
    → vectors (ws ++ w ∷ []) ≡ record {
      handlers = (vectors ws).handlers ++ w.thread ∷ [];
      running = (vectors ws).running ++ w.flag ∷ [];
    }
vectors-concat [] w = refl
vectors-concat (v ∷ ws) w =
    ap (λ (x : Workers). record { handlers = v.thread ∷ x.handlers; running = v.flag ∷ x.running })
      (vectors-concat ws w)

-- One more chunk, for the byte machine.
pub scan-chunk :
    (d max : ℕ) (before msg buffer : Bytes) (messages : List Bytes)
    → scan d max [] before ≡ record { messages = messages; buffer = buffer }
    → scan d max [] (before ++ msg) ≡ record {
      messages = messages ++ (scan d max buffer msg).messages;
      buffer = (scan d max buffer msg).buffer;
    }
scan-chunk d max before msg buffer messages e =
    scan-append d max before msg []
    ∙ ap (λ (r : Scanned). prepend r.messages (scan d max r.buffer msg)) e

module _ (D : Type 0) (os : Os) (client : ℤ) where
  -- The messages were handed on, in order, and nothing was read. At most `n` workers are left, all
  -- joinable.
  abbrev pub Handed : Machine (Server D) → List Bytes → ℕ → Workers → Machine (Server D) → Type 0
  Handed m msgs n w m' =
      (ws : List Worker) × (w ≡ vectors ws)
      × AllJoinable ws
      × (length ws ≤ n)
      × (m'.self ≡ m.self)
      × (stream_of os m'.log ≡ stream_of os m.log)
      × (spawned m'.log ≡ spawned m.log ++ msgs)

  pub handle_message-Returns :
      (ws : List Worker) (text : Bytes) (m : Machine (Server D))
      → AllJoinable ws
      → length ws < size_mod
      → Returns
          (Handed m (text ∷ []) (length ws + 1))
          (handle_message os client (vectors ws) text m)
  unfolding handle_message stream_of spawned
  handle_message-Returns ws text m all fits =
      Runs-bind (Handed m (text ∷ []) (length ws + 1)) (λ _. ⊥) (prune os (vectors ws)) _
        (record m { log = spawn_worker client text ∷ m.log })
        (prune-Returns (Server D) os ws _ all fits)
        (λ w m' h.
          let (rest, e, left) = h in
          let (joinable, fewer, quiet) = left in
          let new : Worker = record {
            thread = record {
              handle = os.result m.log (spawn_worker client text);
              joinable = true;
            };
            flag = os.result m.log (spawn_worker client text);
          } in
          (
            rest ++ new ∷ [],
            rw e (sym (vectors-concat rest new)),
            AllJoinable-concat rest new joinable refl,
            omega (arith, length-append rest (new ∷ [])),
            quiet.same_self,
            quiet.same_stream,
            quiet.same_spawned,
          ))

  for_each-Returns :
      (msgs : List Bytes) (ws : List Worker) (m : Machine (Server D))
      → AllJoinable ws
      → length ws + length msgs < size_mod
      → Returns
          (Handed m msgs (length ws + length msgs))
          (for_each (handle_message os client) (vectors ws) msgs m)
  for_each-Returns [] ws m all fits =
      rw for_each-nil (ws, refl, all, omega arith, refl, refl, sym (append-nil (spawned m.log)))
  for_each-Returns (text ∷ rest) ws m all fits = rw for_each-cons (
      Runs-bind (Handed m (text ∷ rest) (length ws + length (text ∷ rest))) (λ _. ⊥)
        (handle_message os client (vectors ws) text) _ m
        (handle_message-Returns ws text m all (omega arith))
        (λ w m' h.
          let (vs, e, all', fewer, self, stream, handed) = h in
          rw e (
            Returns-weaken (Handed m (text ∷ rest) (length ws + length (text ∷ rest)))
              (for_each (handle_message os client) (vectors vs) rest m')
              (λ w' m'' k.
                let (us, e', all'', fewer', self', stream', handed') = k in
                (
                  us,
                  e',
                  all'',
                  omega arith,
                  self' ∙ self,
                  stream' ∙ stream,
                  handed'
                      ∙ ap (λ l. l ++ rest) handed
                      ∙ append_assoc (spawned m.log) (text ∷ []) rest,
                ))
              (for_each-Returns rest vs m' all' (omega arith)))))

  -- What is known between two rounds of the loop: the messages handed on are those that the bytes
  -- read complete, and the buffer holds the bytes of the one that is not complete.
  abbrev pub Received : Framing → Bytes → Machine (Server D) → Type 0
  Received cfg buffer m =
      (m.self.framing ≡ cfg)
      × (scan cfg.delimiter cfg.max_length [] (stream_of os m.log)
          ≡ record { messages = spawned m.log; buffer = buffer })

  -- The local variables after a chunk.
  abbrev pub ChunkDone : Framing → ℕ → ℕ → Bytes → (Bytes × Workers) → Machine (Server D) → Type 0
  ChunkDone cfg n size read locals m =
      (ws : List Worker) × (locals.1 ≡ vectors ws)
      × AllJoinable ws
      × (length ws ≤ n)
      × (length locals.0 ≤ size)
      × (stream_of os m.log ≡ read)
      × Received cfg locals.0 m

  handle_chunk-split_chunk :
      (w : Workers) (buffer msg : Bytes) (cfg : Framing) (m : Machine (Server D))
      → m.self.framing ≡ cfg
      → cfg.enabled ≡ true
      → handle_chunk os client w buffer msg m
        ≡ split_chunk cfg (handle_message os client) w buffer msg m
  unfolding handle_chunk
  handle_chunk-split_chunk w buffer msg cfg m same on =
      ap (λ (x : Exec (Server D) (Bytes × Workers)). x m)
        (if-true m.self.framing.enabled _ _ (ap (λ (c : Framing). c.enabled) same ∙ on))
      ∙ ap (λ (c : Framing). split_chunk c (handle_message os client) w buffer msg m) same

  -- A chunk that was read after `log`.
  pub handle_chunk-Returns :
      (cfg : Framing) (ws : List Worker) (buffer msg : Bytes) (log : List Call)
      (m : Machine (Server D))
      → cfg.enabled ≡ true
      → AllJoinable ws
      → length ws + length msg < size_mod
      → length buffer + length msg < size_mod
      → m.self.framing ≡ cfg
      → scan cfg.delimiter cfg.max_length [] (stream_of os log)
        ≡ record { messages = spawned log; buffer = buffer }
      → stream_of os m.log ≡ stream_of os log ++ msg
      → spawned m.log ≡ spawned log
      → Returns
          (ChunkDone cfg (length ws + length msg) (length buffer + length msg) (stream_of os m.log))
          (handle_chunk os client (vectors ws) buffer msg m)
  handle_chunk-Returns cfg ws buffer msg log m on all fits small same_cfg before read quiet =
      rw
        (handle_chunk-split_chunk (vectors ws) buffer msg cfg m same_cfg on
          ∙ split_chunk-scan cfg (handle_message os client) (vectors ws) buffer msg m small)
        (Runs-bind
          (ChunkDone cfg (length ws + length msg) (length buffer + length msg) (stream_of os m.log))
          (λ _. ⊥) (for_each (handle_message os client) (vectors ws) out.messages) _ m
          (for_each-Returns out.messages ws m all (omega (arith, few)))
          (λ w m' h.
            let (vs, e, all', fewer, self, stream, handed) = h in
            (
              vs,
              e,
              all',
              omega (arith, few),
              length-buffer-scan cfg.delimiter cfg.max_length msg buffer,
              stream,
              (
                ap (λ (s : Server D). s.framing) self ∙ same_cfg,
                rw (stream, read, handed, quiet)
                    (scan-chunk cfg.delimiter cfg.max_length (stream_of os log) msg buffer
                      (spawned log) before),
              ),
            )))
    where
      out : Scanned
      out = scan cfg.delimiter cfg.max_length buffer msg

      few : length out.messages ≤ length msg
      few = length-messages-scan cfg.delimiter cfg.max_length msg buffer
