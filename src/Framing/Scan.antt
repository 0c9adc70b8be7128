-- ===== src/Framing/Scan.antt =====
-- An independent description of the framing: a machine that reads one byte at a time.
use Prim.Native.Nat.{◌≤◌, ◌+◌}
use tcp_server_client.Prelude.{
  length-append, ap, sym, ◌∙◌, ℕ, ◌≡◌, refl, List, [], ◌∷◌, ◌++◌, length, append_assoc, ltb, ◌==◌,
  if◌then◌else◌, arith,
}
use tcp_server_client.Exec.{Bytes}

-- The messages completed so far, and the bytes of the one that is not.
pub record Scanned : Type 0 where
  pub messages : List Bytes
  pub buffer : Bytes

abbrev pub prepend : List Bytes → Scanned → Scanned
prepend ms r = record r { messages = ms ++ r.messages }

-- What a delimiter completes: a message of at most `max` bytes, or nothing.
abbrev pub completed : ℕ → Bytes → List Bytes
completed max buffer = if ltb max (length buffer) then [] else buffer ∷ []

unfoldable pub scan : ℕ → ℕ → Bytes → Bytes → Scanned
scan d max buffer [] = record { messages = []; buffer = buffer }
scan d max buffer (c ∷ cs) =
    let next = scan d max [] cs in
    let more = scan d max (buffer ++ c ∷ []) cs in
    if c == d then prepend (completed max buffer) next else more

-- The chunks of a stream, put together.
abbrev pub concat : List Bytes → Bytes
concat [] = []
concat (c ∷ cs) = c ++ concat cs

module _ (d max : ℕ) where
  prepend-append :
      (ms ns : List Bytes) (r : Scanned) → prepend (ms ++ ns) r ≡ prepend ms (prepend ns r)
  prepend-append ms ns r = λ i. record r { messages = append_assoc ms ns r.messages i }

  -- Reading a stream in two pieces, with the buffer carried over, is reading it in one.
  pub scan-append :
      (xs ys buffer : Bytes)
      → scan d max buffer (xs ++ ys)
        ≡ prepend (scan d max buffer xs).messages (scan d max (scan d max buffer xs).buffer ys)
  unfolding scan
  scan-append [] ys buffer = refl
  scan-append (c ∷ xs) ys buffer =
      ground (arith, scan-append xs ys [], scan-append xs ys (buffer ++ c ∷ []))

  -- A stream that comes in chunks.
  abbrev pub scan_chunks : Bytes → List Bytes → Scanned
  scan_chunks buffer [] = record { messages = []; buffer = buffer }
  scan_chunks buffer (c ∷ cs) =
      prepend (scan d max buffer c).messages (scan_chunks (scan d max buffer c).buffer cs)

  -- How a stream is cut into chunks makes no difference.
  pub scan_chunks-scan :
      (chunks : List Bytes) (buffer : Bytes)
      → scan_chunks buffer chunks ≡ scan d max buffer (concat chunks)
  unfolding scan
  scan_chunks-scan [] buffer = refl
  scan_chunks-scan (c ∷ cs) buffer =
      ap (prepend (scan d max buffer c).messages) (scan_chunks-scan cs (scan d max buffer c).buffer)
      ∙ sym (scan-append c (concat cs) buffer)

  -- Each message takes its delimiter from the text.
  pub length-messages-scan :
      (text buffer : Bytes) → length (scan d max buffer text).messages ≤ length text
  unfolding scan
  length-messages-scan [] buffer = omega arith
  length-messages-scan (c ∷ cs) buffer =
      ground (arith, length-messages-scan cs [], length-messages-scan cs (buffer ++ c ∷ []))

  pub length-buffer-scan :
      (text buffer : Bytes) → length (scan d max buffer text).buffer ≤ length buffer + length text
  unfolding scan
  length-buffer-scan [] buffer = omega arith
  length-buffer-scan (c ∷ cs) buffer = ground (
    arith,
    length-buffer-scan cs [],
    length-buffer-scan cs (buffer ++ c ∷ []),
    length-append buffer (c ∷ []),
  )
