-- ===== src/Framing.antt =====
-- Messages in a byte stream: the constants of `Server` and `Client`, the tests of `sendMsg` and the
-- loop over a received chunk (src/template/Server.hpp, src/template/Client.hpp).
pub mod Scan
pub mod Split
pub mod RoundTrip
pub mod Chunks
use tcp_server_client.Prelude.{
  ℕ, zero, suc, ◌+◌, ◌%◌, ◌^◌, Bool, true, false, Option, none, some, List, [], ◌∷◌, ◌++◌, length,
  take, drop, ltb, ◌==◌, if◌then◌else◌,
}
use mathlib.Core.Option
use tcp_server_client.Exec.{Bytes, Exec, pure, diverge, ◌>>=◌}

-- The values of `size_t` and of the position `npos` of `std::string`.
abbrev pub size_mod : ℕ
size_mod = 2 ^ 64

abbrev pub add_size : ℕ → ℕ → ℕ
add_size a b = (a + b) % size_mod

pub record Framing : Type 0 where
  pub delimiter : ℕ
  pub append : Bytes
  pub append_length : ℕ
  pub max_length : ℕ
  pub enabled : Bool

-- `std::string{0}` is the string of one NUL byte; nothing reads it in continuous mode.
abbrev pub continuous : Framing
continuous = record {
  delimiter = 0;
  append = 0 ∷ [];
  append_length = 0;
  max_length = 0;
  enabled = false;
}

abbrev pub fragmented : ℕ → Bytes → ℕ → Framing
fragmented delimiter append max_length = record {
  delimiter = delimiter;
  append = append;
  append_length = length append;
  max_length = max_length;
  enabled = true;
}

-- `std::string::find`, with `none` for `npos`.
unfoldable pub find : ℕ → Bytes → Option ℕ
find d [] = none
find d (c ∷ cs) = if c == d then some 0 else Option.map suc (find d cs)

module _ {S W : Type 0} (cfg : Framing) (work : W → Bytes → Exec S W) where
  -- The loop `while (npos != delimiter_pos)` over the rest of a chunk, for given local variables and
  -- a given buffer. It hands each message to `work` and returns the buffer after the last
  -- `buffer += msg`. The moved-from buffer is empty. Each round takes a byte off `msg`, which bounds
  -- the fuel.
  unfoldable pub split_loop : ℕ → W → Bytes → Bytes → Exec S (Bytes × W)
  unfolding find
  split_loop zero w buffer msg = diverge
  split_loop (suc fuel) w buffer msg = elim (find cfg.delimiter msg) [
    | none ↦ pure (buffer ++ msg, w)
    | some pos ↦
        let msg_part = take pos msg in
        let rest = drop (suc pos) msg in
        if ltb cfg.max_length (add_size (length buffer) (length msg_part))
        then split_loop fuel w [] rest
        else (work w (buffer ++ msg_part) >>= λ w'. split_loop fuel w' [] rest)
  ]

  unfoldable pub split_chunk : W → Bytes → Bytes → Exec S (Bytes × W)
  unfolding split_loop
  split_chunk w buffer msg = split_loop (suc (length msg)) w buffer msg

-- `msg.find(DELIMITER) != npos`
unfoldable pub contains : ℕ → Bytes → Bool
unfolding find
contains d msg = elim (find d msg) [ none ↦ false | some _ ↦ true ]

-- The two tests of `sendMsg`: may this message be sent?
unfoldable pub may_send : Framing → Bytes → Bool
unfolding contains
may_send cfg msg =
    if cfg.enabled
    then if contains cfg.delimiter msg
      then false
      else if ltb (add_size cfg.max_length cfg.append_length) (length msg)
      then false
      else true
    else true

-- What `sendMsg` hands to `writeMsg`.
unfoldable pub frame : Framing → Bytes → Bytes
frame cfg msg = if cfg.enabled then (msg ++ cfg.append) ++ cfg.delimiter ∷ [] else msg
