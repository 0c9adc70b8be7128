-- ===== src/Exchange/Prefix.antt =====
-- What has arrived of a stream of messages while some of its bytes are still on the way.
use Prim.Native.Nat.{◌≤◌}
use tcp_server_client.Prelude.{◌≡◌, sym, ap, ◌∙◌, true, false, List, [], ◌++◌, length}
use tcp_server_client.Exec.{Bytes}
use tcp_server_client.Framing.{Framing, contains}
use tcp_server_client.Framing.Scan.{Scanned, scan, scan-append, length-messages-scan}
use tcp_server_client.Framing.RoundTrip.{AllFit, stream, appended, scan-stream}

-- The first list is the beginning of the second one, which has at most one more item for each byte.
abbrev pub LacksAtMost : List Bytes → Bytes → List Bytes → Type 0
LacksAtMost got late all =
    (missing : List Bytes) × (all ≡ got ++ missing) × (length missing ≤ length late)

-- The messages that the first bytes of a stream complete are the first messages that were sent, each
-- with the appended text; each one that is missing has a byte on the way.
pub scan-LacksAtMost :
    (cfg : Framing) (msgs : List Bytes) (read late : Bytes)
    → cfg.enabled ≡ true
    → contains cfg.delimiter cfg.append ≡ false
    → AllFit cfg msgs
    → stream cfg msgs ≡ read ++ late
    → LacksAtMost (scan cfg.delimiter cfg.max_length [] read).messages late (appended cfg msgs)
scan-LacksAtMost cfg msgs read late on clean fit e =
    let first = scan cfg.delimiter cfg.max_length [] read in
    (
      (scan cfg.delimiter cfg.max_length first.buffer late).messages,
      sym (ap (λ (r : Scanned). r.messages) (scan-stream cfg msgs on clean fit))
          ∙ ap (λ l. (scan cfg.delimiter cfg.max_length [] l).messages) e
          ∙ ap (λ (r : Scanned). r.messages)
              (scan-append cfg.delimiter cfg.max_length read late []),
      length-messages-scan cfg.delimiter cfg.max_length late first.buffer,
    )
