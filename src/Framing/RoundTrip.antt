-- ===== src/Framing/RoundTrip.antt =====
-- What one side frames in `sendMsg`, and what the byte machine makes of it at the other side.
use tcp_server_client.Prelude.{
  ◌-◌, ◌↔◌, ℕ, ◌+◌, ◌<◌, ◌≤◌, true, false, ◌≡◌, refl, ap, sym, ◌∙◌, List, [], ◌∷◌, ◌++◌, map,
  length, length-append, append_assoc, append-nil, arith,
}
use tcp_server_client.Exec.{Bytes, Exec, Machine, for_each-nil, ok}
use tcp_server_client.Framing.{
  Framing, fragmented, size_mod, add_size, find, contains, may_send, frame, split_chunk,
}
use tcp_server_client.Framing.Scan.{scan, prepend, completed}
use tcp_server_client.Framing.Split.{split_chunk-scan}

-- Text with no delimiter fills the buffer, and the delimiter completes it.
scan-text :
    (d max : ℕ) (text rest buffer : Bytes)
    → contains d text ≡ false
    → scan d max buffer (text ++ d ∷ rest)
      ≡ prepend (completed max (buffer ++ text)) (scan d max [] rest)
unfolding scan contains find
scan-text d max [] rest buffer e = ground (arith, append-nil buffer)
scan-text d max (c ∷ cs) rest buffer e =
    ground (arith, scan-text d max cs rest (buffer ++ c ∷ []), append_assoc buffer (c ∷ []) cs)

contains-append :
    (d : ℕ) (xs ys : Bytes)
    → contains d xs ≡ false
    → contains d ys ≡ false
    → contains d (xs ++ ys) ≡ false
unfolding contains find
contains-append d [] ys hx hy = hy
contains-append d (c ∷ cs) ys hx hy = ground (arith, contains-append d cs ys)

-- The messages that `sendMsg` takes and that keep to the documented limit with the appended text.
abbrev pub AllFit : Framing → List Bytes → Type 0
AllFit cfg [] = Unit
AllFit cfg (msg ∷ rest) =
    (may_send cfg msg ≡ true) × (length msg + length cfg.append ≤ cfg.max_length) × AllFit cfg rest

abbrev pub stream : Framing → List Bytes → Bytes
stream cfg [] = []
stream cfg (msg ∷ rest) = frame cfg msg ++ stream cfg rest

scan-frame :
    (cfg : Framing) (msg rest : Bytes)
    → cfg.enabled ≡ true
    → contains cfg.delimiter cfg.append ≡ false
    → may_send cfg msg ≡ true
    → scan cfg.delimiter cfg.max_length [] (frame cfg msg ++ rest)
      ≡ prepend
          (completed cfg.max_length (msg ++ cfg.append))
          (scan cfg.delimiter cfg.max_length [] rest)
unfolding frame may_send
scan-frame cfg msg rest on clean sent = rw on (
    rw (append_assoc (msg ++ cfg.append) (cfg.delimiter ∷ []) rest) (
      scan-text cfg.delimiter cfg.max_length (msg ++ cfg.append) rest []
        (contains-append cfg.delimiter msg cfg.append (ground arith) clean)))

-- The messages of a list as the other side sees them: each with the appended text.
abbrev pub appended : Framing → List Bytes → List Bytes
appended cfg = map (λ msg. msg ++ cfg.append)

pub scan-stream :
    (cfg : Framing) (msgs : List Bytes)
    → cfg.enabled ≡ true
    → contains cfg.delimiter cfg.append ≡ false
    → AllFit cfg msgs
    → scan cfg.delimiter cfg.max_length [] (stream cfg msgs)
      ≡ record { messages = appended cfg msgs; buffer = [] }
unfolding scan
scan-stream cfg [] on clean fit = refl
scan-stream cfg (msg ∷ rest) on clean fit =
    scan-frame cfg msg (stream cfg rest) on clean fit.0
    ∙ ground (arith, scan-stream cfg rest on clean fit.2, length-append msg cfg.append)

pub scan-frame_oversize :
    (cfg : Framing) (msg : Bytes)
    → cfg.enabled ≡ true
    → contains cfg.delimiter cfg.append ≡ false
    → may_send cfg msg ≡ true
    → cfg.max_length < length msg + length cfg.append
    → scan cfg.delimiter cfg.max_length [] (frame cfg msg) ≡ record { messages = []; buffer = [] }
unfolding scan
scan-frame_oversize cfg msg on clean sent long =
    ap (scan cfg.delimiter cfg.max_length []) (sym (append-nil (frame cfg msg)))
    ∙ scan-frame cfg msg [] on clean sent
    ∙ ground (arith, length-append msg cfg.append)

module _ {S W : Type 0} (cfg : Framing) (work : W → Bytes → Exec S W) where
  -- A message without the delimiter that `sendMsg` takes (a limit that does not wrap around, so that
  -- its length is at most the maximum plus the length of the appended text) although the message
  -- with its appended text is longer than the maximum: the receiver built with the same arguments
  -- drops it, never calls `work`, and reports nothing.
  pub accepted_but_dropped :
      (w : W) (msg : Bytes) (m : Machine S)
      → cfg.enabled ≡ true
      → cfg.append_length ≡ length cfg.append
      → contains cfg.delimiter cfg.append ≡ false
      → contains cfg.delimiter msg ≡ false
      → cfg.max_length + length cfg.append < size_mod
      → cfg.max_length < length msg + length cfg.append
      → length msg ≤ cfg.max_length + length cfg.append
      → length (frame cfg msg) < size_mod
      → (may_send cfg msg ≡ true) × (split_chunk cfg work w [] (frame cfg msg) m ≡ (ok ([], w), m))
  accepted_but_dropped w msg m on sized clean clean_msg fits long short small = (
    sent,
    split_chunk-scan cfg work w [] (frame cfg msg) m (omega arith)
        ∙ rw (scan-frame_oversize cfg msg on clean sent long) (rw for_each-nil),
  )
    where
      sent : may_send cfg msg ≡ true
      sent = unfold may_send in ground arith

abbrev pub default_max_length : ℕ
default_max_length = size_mod - 2

-- With the default maximum and an appended text of two bytes or more the limit of `sendMsg` wraps
-- around: it takes exactly the messages, free of the delimiter, that are at least two bytes shorter
-- than the appended text.
pub may_send-default :
    (d : ℕ) (text msg : Bytes)
    → 2 ≤ length text
    → length text < size_mod
    → contains d msg ≡ false
    → (may_send (fragmented d text default_max_length) msg ≡ true) ↔ (length msg + 2 ≤ length text)
unfolding may_send
may_send-default d text msg two small clean =
    ((λ h. ground (arith, limit)), (λ h. ground (arith, limit)))
  where
    limit : add_size default_max_length (length text) ≡ length text - 2
    limit = omega arith
