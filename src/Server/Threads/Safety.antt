-- ===== src/Server/Threads/Safety.antt =====
-- What the interleaved threads of a server never do.
use tcp_server_client.Prelude.{ℕ, true, false, some, ◌≡◌, ◌≢◌, arith}
use tcp_server_client.Server.Threads.{thread, unlocked, writing, finished, System, Reach}
use tcp_server_client.Server.Threads.Mutex.{Reach-Locked}
use tcp_server_client.Server.Threads.Sockets.{owned, Reach-Owned}
use tcp_server_client.Server.Threads.Handlers.{serves, Reach-Kept}

-- `sendMsg` writes only to an open socket that is in the map, under the mutex: however the threads are
-- interleaved, no socket is closed, or handed to a new client, between the test of the map and the
-- end of the writing.
pub send_to_open :
    {s : System}
    → Reach s
    → (i fd : ℕ) → s.pc i ≡ writing fd
    → (s.lock ≡ thread i) × (s.active fd ≡ true) × (s.is_open fd ≡ true)
send_to_open {s} r i fd e = (
  ground (arith, (Reach-Locked r).by_thread i),
  ground (arith, (Reach-Owned r).thread_listed i fd),
  ground (arith, (Reach-Owned r).thread_listed i fd, (Reach-Owned r).active_open fd),
)

-- No two receive threads use a socket at a time: from the start of its thread to its `close`, a
-- socket has one.
pub one_receiver :
    {s : System}
    → Reach s
    → (i j fd : ℕ) → owned (s.pc i) ≡ some fd
    → owned (s.pc j) ≡ some fd
    → i ≡ j
one_receiver r = (Reach-Owned r).unique

-- A receive thread that is about to close its socket has an open one, so that none is closed twice,
-- and it has taken it out of the map, where nothing finds it again before the system hands it out
-- anew.
pub closes_once :
    {s : System}
    → Reach s
    → (i fd : ℕ) → s.pc i ≡ unlocked fd
    → (s.is_open fd ≡ true) × (s.active fd ≡ false)
closes_once {s} r i fd e = (
  ground (arith, (Reach-Owned r).thread_open i fd),
  ground (arith, (Reach-Owned r).thread_delisted i fd),
)

-- When the accept thread has finished, as `stop` waits for, every receive thread has ended.
pub all_ended : {s : System} → Reach s → s.acc ≡ finished → (i fd : ℕ) → serves (s.pc i) ≢ some fd
all_ended {s} r e i fd q = ground (arith, (Reach-Kept r).kept i fd q, (Reach-Kept r).none_left e fd)
