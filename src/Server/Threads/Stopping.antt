-- ===== src/Server/Threads/Stopping.antt =====
-- A server can be stopped, by what its own threads do.
use tcp_server_client.Prelude.{Bool, true, false, ◌≡◌}
use tcp_server_client.Server.Threads.{
  AccPc, looping, waiting, stopping, shutting, joining, finished, System, Goes,
}

-- The accept thread can finish.
abbrev CanFinish : System → Type 0
CanFinish s = (t : System) × Goes s t × (t.acc ≡ finished)

-- Where the accept thread has no new connection in hand.
abbrev pub has_none : AccPc → Bool
has_none looping = true
has_none waiting = true
has_none stopping = true
has_none shutting = true
has_none joining = true
has_none finished = true
has_none _ = false
