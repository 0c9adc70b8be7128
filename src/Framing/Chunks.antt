-- ===== src/Framing/Chunks.antt =====
-- A stream that comes in chunks: the loop over each chunk in turn, with the buffer carried over.
use Prim.Native.Nat.{◌≤◌}
use tcp_server_client.Prelude.{
  ◌+◌, ◌<◌, true, false, ◌≡◌, ap, sym, ◌∙◌, List, [], ◌∷◌, ◌++◌, length, length-append, arith,
}
use tcp_server_client.Exec.{
  Bytes, Exec, Machine, pure, ◌>>=◌, bind_assoc, bind_congr, for_each, for_each-nil, for_each-cons,
}
use tcp_server_client.Framing.{Framing, size_mod, split_chunk, contains}
use tcp_server_client.Framing.Scan.{Scanned, scan, scan-append, prepend, concat, length-buffer-scan}
use tcp_server_client.Framing.Split.{split_chunk-scan, deliver}
use tcp_server_client.Framing.RoundTrip.{AllFit, stream, appended, scan-stream}

module _ {S W : Type 0} (cfg : Framing) (work : W → Bytes → Exec S W) where
  -- What the receive loops do with the chunks that they read, one after another.
  unfoldable pub split_chunks : W → Bytes → List Bytes → Exec S (Bytes × W)
  split_chunks w buffer [] = pure (buffer, w)
  split_chunks w buffer (c ∷ cs) = do
    (buffer', w') ← split_chunk cfg work w buffer c
    split_chunks w' buffer' cs

  deliver-append :
      (ms : List Bytes) (w : W) (r : Scanned) (m : Machine S)
      → deliver cfg work w (prepend ms r) m ≡ (for_each work w ms >>= λ w'. deliver cfg work w' r) m
  deliver-append [] w r m = rw for_each-nil
  deliver-append (a ∷ ms) w r m =
      rw (for_each-cons work w a (ms ++ r.messages), for_each-cons work w a ms)
        (bind_assoc (work w a) (λ w'. for_each work w' (ms ++ r.messages))
            (λ w'. pure (r.buffer, w')) m
          ∙ bind_congr (work w a) _ (λ w'. for_each work w' ms >>= λ w''. deliver cfg work w'' r) m
              (λ w' m'. deliver-append ms w' r m')
          ∙ sym (bind_assoc (work w a) (λ w'. for_each work w' ms) (λ w'. deliver cfg work w' r) m))

  -- However a stream is cut into chunks, the loops hand on the messages that the byte machine
  -- completes on the whole stream, in order, and keep the bytes of the one that is not complete,
  -- as long as its size does not wrap around.
  pub split_chunks-scan :
      (chunks : List Bytes) (w : W) (buffer : Bytes) (m : Machine S)
      → length buffer + length (concat chunks) < size_mod
      → split_chunks w buffer chunks m
        ≡ (for_each work w (scan cfg.delimiter cfg.max_length buffer (concat chunks)).messages
              >>= λ w'.
                  pure ((scan cfg.delimiter cfg.max_length buffer (concat chunks)).buffer, w'))
            m
  unfolding split_chunks
  split_chunks-scan [] w buffer m fits = unfold scan in rw for_each-nil
  split_chunks-scan (c ∷ cs) w buffer m fits =
      rw (split_chunk-scan cfg work w buffer c m (omega (arith, length-append c (concat cs)))) (
        bind_assoc (for_each work w first.messages) (λ w'. pure (first.buffer, w'))
          (λ (r : Bytes × W). split_chunks r.1 r.0 cs) m
        ∙ bind_congr (for_each work w first.messages) (λ w'. split_chunks w' first.buffer cs)
            (λ w'. deliver cfg work w' second) m
            (λ w' m'.
              split_chunks-scan cs w' first.buffer m'
                (omega (arith, kept, length-append c (concat cs))))
        ∙ sym (deliver-append first.messages w second m)
        ∙ ap (λ (r : Scanned). deliver cfg work w r m)
            (sym (scan-append cfg.delimiter cfg.max_length c (concat cs) buffer)))
    where
      first : Scanned
      first = scan cfg.delimiter cfg.max_length buffer c

      second : Scanned
      second = scan cfg.delimiter cfg.max_length first.buffer (concat cs)

      kept : length first.buffer ≤ length buffer + length c
      kept = length-buffer-scan cfg.delimiter cfg.max_length c buffer

  -- What one side sends with `sendMsg`, the other side, built with the same arguments, hands on
  -- whole and in order, each message with the appended text, however the stream is cut: if the
  -- appended text holds no delimiter and each message keeps to the maximum together with it, and if
  -- all that is sent is below 2^64 bytes.
  pub round_trip :
      (msgs chunks : List Bytes) (w : W) (m : Machine S)
      → cfg.enabled ≡ true
      → contains cfg.delimiter cfg.append ≡ false
      → AllFit cfg msgs
      → concat chunks ≡ stream cfg msgs
      → length (concat chunks) < size_mod
      → split_chunks w [] chunks m ≡ (for_each work w (appended cfg msgs) >>= λ w'. pure ([], w')) m
  round_trip msgs chunks w m on clean fit cut small =
      split_chunks-scan chunks w [] m (omega arith) ∙ rw (cut, scan-stream cfg msgs on clean fit)
