-- ===== src/Framing/Split.antt =====
-- The loop over a chunk (src/template/Server.hpp, Client.hpp) beside the byte machine of `Scan`.
use tcp_server_client.Prelude.{
  ℕ, zero, suc, ◌+◌, ◌<◌, ◌≡◌, sym, ◌∙◌, none, some, inl, inr, [], ◌∷◌, ◌++◌, length, length-append,
  take, drop, append_assoc, append-nil, ltb, if◌then◌else◌, arith, Bool-cases, Option-cases,
}
use tcp_server_client.Exec.{
  Bytes, Exec, Machine, pure, ◌>>=◌, bind_assoc, bind_congr, for_each, for_each-nil, for_each-cons,
}
use tcp_server_client.Framing.{Framing, size_mod, add_size, find, split_loop, split_chunk}
use tcp_server_client.Framing.Scan.{Scanned, scan, prepend, completed}

pub scan-find-none :
    (d max : ℕ) (msg buffer : Bytes)
    → find d msg ≡ none
    → scan d max buffer msg ≡ record { messages = []; buffer = buffer ++ msg }
unfolding find scan
scan-find-none d max [] buffer e = ground (arith, append-nil buffer)
scan-find-none d max (c ∷ cs) buffer e =
    ground (arith, scan-find-none d max cs (buffer ++ c ∷ []), append_assoc buffer (c ∷ []) cs)

pub scan-find-some :
    (d max : ℕ) (msg buffer : Bytes) (pos : ℕ)
    → find d msg ≡ some pos
    → scan d max buffer msg
      ≡ prepend (completed max (buffer ++ take pos msg)) (scan d max [] (drop (suc pos) msg))
unfolding find scan
scan-find-some d max [] buffer pos e = ground arith
scan-find-some d max (c ∷ cs) buffer zero e = ground (arith, append-nil buffer)
scan-find-some d max (c ∷ cs) buffer (suc pos) e = ground (
  arith,
  scan-find-some d max cs (buffer ++ c ∷ []) pos,
  append_assoc buffer (c ∷ []) (take pos cs),
)

pub length-find-some :
    (d : ℕ) (msg : Bytes) (pos : ℕ)
    → find d msg ≡ some pos
    → length (take pos msg) + suc (length (drop (suc pos) msg)) ≡ length msg
unfolding find
length-find-some d [] pos e = ground arith
length-find-some d (c ∷ cs) zero e = omega arith
length-find-some d (c ∷ cs) (suc pos) e = ground (arith, length-find-some d cs pos)

module _ {S W : Type 0} (cfg : Framing) (work : W → Bytes → Exec S W) where
  abbrev pub scanned : Bytes → Bytes → Scanned
  scanned = scan cfg.delimiter cfg.max_length

  -- What the loop is to do: the work for each message in turn, and then the buffer.
  abbrev pub deliver : W → Scanned → Exec S (Bytes × W)
  deliver w r = for_each work w r.messages >>= λ w'. pure (r.buffer, w')

  deliver-cons :
      (w : W) (a : Bytes) (r : Scanned) (m : Machine S)
      → deliver w (prepend (a ∷ []) r) m ≡ (work w a >>= λ w'. deliver w' r) m
  deliver-cons w a r m =
      rw for_each-cons
        (bind_assoc (work w a) (λ w'. for_each work w' r.messages) (λ w'. pure (r.buffer, w')) m)

  size-append :
      (buffer part : Bytes)
      → length buffer + length part < size_mod
      → add_size (length buffer) (length part) ≡ length (buffer ++ part)
  size-append buffer part h = omega (arith, length-append buffer part)

  -- One round of the loop, at a delimiter, when the rest of the loop is as it should be.
  round-deliver :
      (fuel : ℕ) (w : W) (buffer part rest : Bytes) (m : Machine S)
      → length buffer + length part < size_mod
      → ((w' : W) (m' : Machine S)
          → split_loop cfg work fuel w' [] rest m' ≡ deliver w' (scanned [] rest) m')
      → (if ltb cfg.max_length (add_size (length buffer) (length part))
            then split_loop cfg work fuel w [] rest
            else (work w (buffer ++ part) >>= λ w'. split_loop cfg work fuel w' [] rest))
          m
        ≡ deliver w (prepend (completed cfg.max_length (buffer ++ part)) (scanned [] rest)) m
  round-deliver fuel w buffer part rest m fits ih =
      rw (size-append buffer part fits)
        (elim (Bool-cases (ltb cfg.max_length (length (buffer ++ part)))) [
          | inl long ↦ rw long (ih w m)
          | inr short ↦ rw short (
              bind_congr (work w (buffer ++ part)) _ _ m ih
              ∙ sym (deliver-cons w (buffer ++ part) (scanned [] rest) m))
        ])

  split_loop-scan :
      (fuel : ℕ) (w : W) (buffer msg : Bytes) (m : Machine S)
      → length msg < fuel
      → length buffer + length msg < size_mod
      → split_loop cfg work fuel w buffer msg m ≡ deliver w (scanned buffer msg) m
  unfolding split_loop
  split_loop-scan zero w buffer msg m lt fits = absurd (omega arith)
  split_loop-scan (suc fuel) w buffer msg m lt fits = elim (Option-cases (find cfg.delimiter msg)) [
    | inl e ↦
        rw (e, split_loop)
          (rw (scan-find-none cfg.delimiter cfg.max_length msg buffer e) (rw for_each-nil))
    | inr (pos, e) ↦
        let len = length-find-some cfg.delimiter msg pos e in
        rw (e, split_loop)
          (rw (scan-find-some cfg.delimiter cfg.max_length msg buffer pos e) (
            round-deliver fuel w buffer (take pos msg) (drop (suc pos) msg) m (omega arith)
              (λ w' m'.
                split_loop-scan fuel w' [] (drop (suc pos) msg) m' (omega arith) (omega arith))))
  ]

  -- The loop over a chunk ends, hands every completed message of at most the maximum length to
  -- `work` in order, drops the longer ones, and keeps the rest as the buffer, as long as the sizes
  -- of buffer and chunk add up without wrapping around.
  pub split_chunk-scan :
      (w : W) (buffer msg : Bytes) (m : Machine S)
      → length buffer + length msg < size_mod
      → split_chunk cfg work w buffer msg m
        ≡ (for_each work w (scan cfg.delimiter cfg.max_length buffer msg).messages >>= λ w'.
              pure ((scan cfg.delimiter cfg.max_length buffer msg).buffer, w'))
            m
  unfolding split_chunk
  split_chunk-scan w buffer msg m fits =
      split_loop-scan (suc (length msg)) w buffer msg m (omega arith) fits
