-- ===== src/Exec/Trace.antt =====
-- What the log of one thread says of the bytes that it read, the messages that it handed on and the
-- bytes that it forwarded.
use tcp_server_client.Prelude.{
  if◌then◌else◌, List, [], ◌∷◌, ◌++◌, Bool, true, false, ◌≡◌, refl, ◌∙◌, append-nil,
}
use tcp_server_client.Prelude.Int.{ℤ, eqb_ℤ}
use tcp_server_client.Exec.{
  write_stream, Bytes, Call, Os, Machine, call_if, recv, ssl_read, spawn_worker,
}
use tcp_server_client.Exec.Runs.{Returns}
use tcp_server_client.ReadMsg.{received}

-- Does the call read from the connection?
abbrev pub is_read : Call → Bool
is_read (recv _ _) = true
is_read (ssl_read _ _) = true
is_read _ = false

-- The text of the message that the call starts a worker for.
abbrev pub spawned_by : Call → List Bytes
spawned_by (spawn_worker _ text) = text ∷ []
spawned_by _ = []

-- The bytes that the call writes to the stream `out`.
abbrev pub written_by : ℤ → Call → Bytes
written_by out (write_stream stream text) = if eqb_ℤ stream out then text else []
written_by out _ = []

-- All bytes read, in order.
unfoldable pub stream_of : Os → List Call → Bytes
stream_of os [] = []
stream_of os (c ∷ log) = elim (is_read c) [
  | true ↦ stream_of os log ++ received (os.result log c) (os.bytes log c)
  | false ↦ stream_of os log
]

-- All messages handed to workers, in order.
unfoldable pub spawned : List Call → List Bytes
spawned [] = []
spawned (c ∷ log) = spawned log ++ spawned_by c

-- All bytes written to the stream `out`, in order.
unfoldable pub written : ℤ → List Call → Bytes
written out [] = []
written out (c ∷ log) = written out log ++ written_by out c

-- Nothing was read, nothing was forwarded, no message was handed on, and the object is as it was.
pub record IsQuiet {S : Type 0} (os : Os) (m m' : Machine S) : Type 0 where
  pub same_self : m'.self ≡ m.self
  pub same_stream : stream_of os m'.log ≡ stream_of os m.log
  pub same_spawned : spawned m'.log ≡ spawned m.log
  pub same_written : (out : ℤ) → written out m'.log ≡ written out m.log

module _ {S : Type 0} (os : Os) where
  pub IsQuiet-trans :
      {m m' m'' : Machine S} → IsQuiet os m m' → IsQuiet os m' m'' → IsQuiet os m m''
  IsQuiet-trans p q = record {
    same_self = q.same_self ∙ p.same_self;
    same_stream = q.same_stream ∙ p.same_stream;
    same_spawned = q.same_spawned ∙ p.same_spawned;
    same_written = λ out. q.same_written out ∙ p.same_written out;
  }

  pub IsQuiet-refl : (m : Machine S) → IsQuiet os m m
  IsQuiet-refl m = record {
    same_self = refl;
    same_stream = refl;
    same_spawned = refl;
    same_written = λ out. refl;
  }

  -- A call that neither reads nor hands on a message nor forwards.
  pub IsQuiet-call :
      (m : Machine S) (c : Call)
      → is_read c ≡ false
      → spawned_by c ≡ []
      → ((out : ℤ) → written_by out c ≡ [])
      → IsQuiet os m (record m { log = c ∷ m.log })
  unfolding stream_of spawned written
  IsQuiet-call m c quiet nothing silent = record {
    same_self = refl;
    same_stream = rw (quiet, stream_of);
    same_spawned = rw nothing (append-nil (spawned m.log));
    same_written = λ out. rw (silent out) (append-nil (written out m.log));
  }

  pub IsQuiet-call_if :
      (b : Bool) (m : Machine S) (c : Call)
      → is_read c ≡ false
      → spawned_by c ≡ []
      → ((out : ℤ) → written_by out c ≡ [])
      → Returns (λ _ m'. IsQuiet os m m') (call_if os b c m)
  unfolding call_if
  IsQuiet-call_if true m c quiet nothing silent = IsQuiet-call m c quiet nothing silent
  IsQuiet-call_if false m c quiet nothing silent = IsQuiet-refl m
