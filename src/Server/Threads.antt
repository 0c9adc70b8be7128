-- ===== src/Server/Threads.antt =====
-- The threads of a server together (src/template/Server.hpp): the accept thread, the receive
-- threads and the threads in which the user calls `sendMsg` run interleaved in any order, over the
-- mutex `activeConnections_m`, the map that it protects, the map of receive handlers and the flag.
pub mod Mutex
pub mod Sockets
pub mod Handlers
pub mod Safety
pub mod Progress
pub mod Served
pub mod Shut
pub mod Ends
pub mod Stopping
pub mod Reuse
pub mod Shared
use tcp_server_client.Prelude.{
  ℕ, Bool, true, false, not, ◌&&◌, ◌||◌, Option, none, some, ◌≡◌, ◌≢◌, ◌==◌, if◌then◌else◌,
}

-- Who holds the mutex. A thread is a number.
pub data Owner : Type 0 where
  free acceptor : Owner
  thread : ℕ → Owner

-- Where a thread stands, and for which socket. `outside` is a number that no thread has, or a thread
-- of the user outside of `sendMsg`. A callback that calls `sendMsg` is one more thread here.
pub data Pc : Type 0 where
  outside : Pc
  begun looking reading closing down erased unlocked closed : ℕ → Pc  -- listenMessage
  ended : Pc
  calling checking writing : ℕ → Pc  -- sendMsg

-- Where the accept thread stands.
pub data AccPc : Type 0 where
  looping waiting : AccPc
  accepted inserting inserted : ℕ → AccPc
  spawned : ℕ → ℕ → AccPc
  crashed stopping shutting joining finished : AccPc

-- What the threads share. `is_open` is the system's view of the sockets of clients, and `connected` is
-- false for those on which a read does not wait, since the peer or a shutdown has ended the
-- connection. `listening` is false once the listening socket has been shut down, and `refused` is true
-- while the next `accept` fails or `connectionInit` does after it. A handler is the thread of
-- `recHandlers` for a socket, if it is joinable. The last two fields are of the loop over the flags of
-- the handlers: which of them it has still to read, and which handlers it has found to be finished.
pub record System : Type 0 where
  pub running : Bool
  pub lock : Owner
  pub active : ℕ → Bool
  pub is_open : ℕ → Bool
  pub connected : ℕ → Bool
  pub listening : Bool
  pub refused : Bool
  pub handlers : ℕ → Option ℕ
  pub acc : AccPc
  pub pc : ℕ → Pc
  pub unread : ℕ → Bool
  pub to_remove : ℕ → Bool

abbrev pub update {ℓ} : {A : Type ℓ} → (ℕ → A) → ℕ → A → ℕ → A
update f i a j = if i == j then a else f j

-- The accept thread has just been started.
abbrev pub init : System
init = record {
  running = false;
  lock = free;
  active = λ _. false;
  is_open = λ _. false;
  connected = λ _. false;
  listening = true;
  refused = false;
  handlers = λ _. none;
  acc = looping;
  pc = λ _. outside;
  unread = λ _. false;
  to_remove = λ _. false;
}

abbrev pub is_some {ℓ} : {A : Type ℓ} → Option A → Bool
is_some none = false
is_some (some _) = true

-- One step of `listenConnection`.
pub data Accepts (s : System) : System → Type 0 where
  -- The test of `while (running)`.
  goes_on : s.acc ≡ looping → s.running ≡ true → Accepts s (record s { acc = waiting })
  leaves : s.acc ≡ looping → s.running ≡ false → Accepts s (record s { acc = stopping })
  -- `accept` fails, or `connectionInit` closes the new socket and hands over nothing.
  gets_none :
      s.acc ≡ waiting
      → (s.listening && not s.refused) ≡ false
      → Accepts s (record s { acc = looping; refused = false })
  -- `accept` hands over a number that no open socket has, and `connectionInit` succeeds.
  accepts :
      (fd : ℕ)
      → s.acc ≡ waiting
      → s.is_open fd ≡ false
      → s.listening ≡ true
      → Accepts s (record s {
        is_open = update s.is_open fd true;
        connected = update s.connected fd true;
        acc = accepted fd;
      })
  locks_to_insert :
      (fd : ℕ)
      → s.acc ≡ accepted fd
      → s.lock ≡ free
      → Accepts s (record s { lock = acceptor; acc = inserting fd })
  inserts :
      (fd : ℕ)
      → s.acc ≡ inserting fd
      → Accepts s (record s { lock = free; active = update s.active fd true; acc = inserted fd })
  -- The thread for the new connection is started.
  spawns :
      (fd i : ℕ)
      → s.acc ≡ inserted fd
      → s.pc i ≡ outside
      → Accepts s (record s {
        acc = spawned fd i;
        pc = update s.pc i (begun fd);
        unread = λ k. is_some (s.handlers k);
        to_remove = λ _. false;
      })
  -- The flags of the handlers are read one after the other.
  sees_ended :
      (fd i k j : ℕ)
      → s.acc ≡ spawned fd i
      → s.unread k ≡ true
      → s.handlers k ≡ some j
      → s.pc j ≡ ended
      → Accepts s
          (record s { unread = update s.unread k false; to_remove = update s.to_remove k true })
  sees_running :
      (fd i k j : ℕ)
      → s.acc ≡ spawned fd i
      → s.unread k ≡ true
      → s.handlers k ≡ some j
      → s.pc j ≢ ended
      → Accepts s (record s { unread = update s.unread k false })
  -- After all of them: a handler that was found to be finished is joined and removed.
  removes :
      (fd i k j : ℕ)
      → s.acc ≡ spawned fd i
      → s.handlers k ≡ some j
      → s.pc j ≡ ended
      → ((n : ℕ) → s.unread n ≡ false)
      → s.to_remove k ≡ true
      → Accepts s
          (record s { handlers = update s.handlers k none; to_remove = update s.to_remove k false })
  -- After all of those: `recHandlers[newConnection] = std::move(rec_t)`, which ends the program on a
  -- joinable thread.
  registers :
      (fd i : ℕ)
      → s.acc ≡ spawned fd i
      → s.handlers fd ≡ none
      → ((n : ℕ) → (s.unread n || s.to_remove n) ≡ false)
      → Accepts s (record s { handlers = update s.handlers fd (some i); acc = looping })
  terminates :
      (fd i j : ℕ)
      → s.acc ≡ spawned fd i
      → s.handlers fd ≡ some j
      → ((n : ℕ) → (s.unread n || s.to_remove n) ≡ false)
      → Accepts s (record s { acc = crashed })
  -- After the loop: the shutdown of the active connections, under the mutex, and the joins.
  locks_to_shut :
      s.acc ≡ stopping → s.lock ≡ free → Accepts s (record s { lock = acceptor; acc = shutting })
  shuts :
      s.acc ≡ shutting
      → Accepts s (record s {
        lock = free;
        connected = λ k. s.connected k && not (s.active k);
        acc = joining;
      })
  joins :
      (k j : ℕ)
      → s.acc ≡ joining
      → s.handlers k ≡ some j
      → s.pc j ≡ ended
      → Accepts s (record s { handlers = update s.handlers k none })
  finishes :
      s.acc ≡ joining → ((k : ℕ) → s.handlers k ≡ none) → Accepts s (record s { acc = finished })

-- One step of the thread `i` in `listenMessage`, for the socket `fd`.
pub data Receives (s : System) (i fd : ℕ) : System → Type 0 where
  looks_up :
      s.pc i ≡ begun fd
      → s.lock ≡ free
      → Receives s i fd (record s { lock = thread i; pc = update s.pc i (looking fd) })
  finds :
      s.pc i ≡ looking fd
      → s.active fd ≡ true
      → Receives s i fd (record s { lock = free; pc = update s.pc i (reading fd) })
  misses :
      s.pc i ≡ looking fd
      → s.active fd ≡ false
      → Receives s i fd (record s { lock = free; pc = update s.pc i ended })
  -- An empty read, and the taking of the mutex.
  breaks :
      s.pc i ≡ reading fd
      → s.lock ≡ free
      → s.connected fd ≡ false
      → Receives s i fd (record s { lock = thread i; pc = update s.pc i (closing fd) })
  -- `connectionDeinit` and `shutdown`.
  shuts_down :
      s.pc i ≡ closing fd
      → Receives s i fd
          (record s { connected = update s.connected fd false; pc = update s.pc i (down fd) })
  erases :
      s.pc i ≡ down fd
      → Receives s i fd
          (record s { active = update s.active fd false; pc = update s.pc i (erased fd) })
  unlocks :
      s.pc i ≡ erased fd
      → Receives s i fd (record s { lock = free; pc = update s.pc i (unlocked fd) })
  closes :
      s.pc i ≡ unlocked fd
      → Receives s i fd
          (record s { is_open = update s.is_open fd false; pc = update s.pc i (closed fd) })
  -- The work handlers are joined, and the flag of the thread is cleared.
  ends : s.pc i ≡ closed fd → Receives s i fd (record s { pc = update s.pc i ended })

-- One step of the thread `i` in `sendMsg`, for a message that may be sent.
pub data Sends (s : System) (i fd : ℕ) : System → Type 0 where
  calls : s.pc i ≡ outside → Sends s i fd (record s { pc = update s.pc i (calling fd) })
  checks :
      s.pc i ≡ calling fd
      → s.lock ≡ free
      → Sends s i fd (record s { lock = thread i; pc = update s.pc i (checking fd) })
  refuses :
      s.pc i ≡ checking fd
      → s.active fd ≡ false
      → Sends s i fd (record s { lock = free; pc = update s.pc i outside })
  starts_writing :
      s.pc i ≡ checking fd
      → s.active fd ≡ true
      → Sends s i fd (record s { pc = update s.pc i (writing fd) })
  returns :
      s.pc i ≡ writing fd → Sends s i fd (record s { lock = free; pc = update s.pc i outside })

pub data Step (s : System) : System → Type 0 where
  accepting : {t : System} → Accepts s t → Step s t
  receiving : (i fd : ℕ) {t : System} → Receives s i fd t → Step s t
  sending : (i fd : ℕ) {t : System} → Sends s i fd t → Step s t
  -- `running = true` at the end of `start`, and `running = false` in `stop`.
  sets_running : (b : Bool) → Step s (record s { running = b })
  -- After that, `stop` shuts the listening socket down.
  shuts_listener : s.running ≡ false → Step s (record s { listening = false })

-- What can come after a state by steps of these threads alone.
pub data Goes (s : System) : System → Type 0 where
  stays : Goes s s
  goes : {t u : System} → Goes s t → Step t u → Goes s u

-- What can come after a state, in any number of steps, in between which the peers or the network may
-- end a connection, or an attempt at one.
pub data Steps (s : System) : System → Type 0 where
  here : Steps s s
  later : {t u : System} → Steps s t → Step t u → Steps s u
  broken :
      (fd : ℕ) {t : System}
      → Steps s t
      → Steps s (record t { connected = update t.connected fd false })
  turned_away : {t : System} → Steps s t → Steps s (record t { refused = true })

abbrev pub Reach : System → Type 0
Reach = Steps init
