-- ===== src/Client/Threads.antt =====
-- The threads of a client together (src/template/Client.hpp): the user's thread in `start` and `stop`,
-- one in `sendMsg` and the receive thread run interleaved in any order, over the atomic flag and the
-- socket. There is no mutex.
pub mod Races
pub mod Stopping
use tcp_server_client.Prelude.{ℕ, zero, suc, Bool, true, false, ◌≡◌}

-- Where the user's thread stands.
pub data Caller : Type 0 where
  idle : Caller
  connected spawned : Caller  -- start
  stopping : Caller  -- stop
  shut joined : Bool → Caller  -- with what the shutdown came to

-- Where the last receive thread stands.
pub data Receiver : Type 0 where
  absent reading lost closing ended : Receiver

-- Where the thread in `sendMsg` stands: is it between its test of the flag and the end of its write?
pub data Sender : Type 0 where
  silent writing : Sender

-- What they share. `is_connected` is the system's view of the socket of the last `start`: is it
-- connected still, so that a read waits for data? `closes` is how often that socket has been closed.
pub record System : Type 0 where
  pub running : Bool
  pub joinable : Bool
  pub is_connected : Bool
  pub closes : ℕ
  pub caller : Caller
  pub receiver : Receiver
  pub sender : Sender

-- A new client.
abbrev pub init : System
init = record {
  running = false;
  joinable = false;
  is_connected = false;
  closes = 0;
  caller = idle;
  receiver = absent;
  sender = silent;
}

-- One step of `start`, from its test of `running` to a connected socket, and on.
pub data Starts (s : System) : System → Type 0 where
  connects :
      s.caller ≡ idle
      → s.running ≡ false
      → Starts s (record s { caller = connected; is_connected = true; closes = 0 })
  -- An error after the socket was opened: `start` calls `stop`.
  fails : s.caller ≡ connected → Starts s (record s { caller = stopping; running = false })
  spawns :
      s.caller ≡ connected
      → s.joinable ≡ false
      → Starts s (record s { caller = spawned; joinable = true; receiver = reading })
  throws : s.caller ≡ connected → s.joinable ≡ true → Starts s (record s { caller = idle })
  sets_running : s.caller ≡ spawned → Starts s (record s { caller = idle; running = true })

-- One step of `stop`.
pub data Stops (s : System) : System → Type 0 where
  clears : s.caller ≡ idle → Stops s (record s { caller = stopping; running = false })
  shuts : s.caller ≡ stopping → Stops s (record s { caller = shut true; is_connected = false })
  -- The shutdown fails, as it does on a socket that is not connected.
  shuts_none :
      s.caller ≡ stopping → s.is_connected ≡ false → Stops s (record s { caller = shut false })
  joins :
      (success : Bool)
      → s.caller ≡ shut success
      → s.joinable ≡ true
      → s.receiver ≡ ended
      → Stops s (record s { caller = joined success; joinable = false })
  has_none :
      (success : Bool)
      → s.caller ≡ shut success
      → s.joinable ≡ false
      → Stops s (record s { caller = joined success })
  closes_socket :
      s.caller ≡ joined true → Stops s (record s { caller = idle; closes = suc s.closes })
  leaves_socket : s.caller ≡ joined false → Stops s (record s { caller = idle })

-- One step of `receive`.
pub data Receives (s : System) : System → Type 0 where
  -- An empty read: the peer or a shutdown on this side has ended the connection.
  loses :
      s.receiver ≡ reading
      → s.is_connected ≡ false
      → Receives s (record s { receiver = lost; running = false })
  -- The work handlers have been joined, and the socket is shut down.
  shuts_too : s.receiver ≡ lost → Receives s (record s { receiver = closing; is_connected = false })
  shut_fails :
      s.receiver ≡ lost → s.is_connected ≡ false → Receives s (record s { receiver = ended })
  closes_too :
      s.receiver ≡ closing → Receives s (record s { receiver = ended; closes = suc s.closes })

-- One step of `sendMsg`, after the tests of its message.
pub data Sends (s : System) : System → Type 0 where
  sees_running : s.sender ≡ silent → s.running ≡ true → Sends s (record s { sender = writing })
  -- `writeMsg`, on whatever the number of the socket stands for by now.
  writes : s.sender ≡ writing → Sends s (record s { sender = silent })

pub data Step (s : System) : System → Type 0 where
  starting : {t : System} → Starts s t → Step s t
  ending : {t : System} → Stops s t → Step s t
  receiving : {t : System} → Receives s t → Step s t
  sending : {t : System} → Sends s t → Step s t

-- What can come after a state by steps of these threads alone.
pub data Goes (s : System) : System → Type 0 where
  stays : Goes s s
  goes : {t u : System} → Goes s t → Step t u → Goes s u

-- What can come after a state, in any number of steps, in between which the peer or the network may
-- end the connection.
pub data Steps (s : System) : System → Type 0 where
  here : Steps s s
  later : {t u : System} → Steps s t → Step t u → Steps s u
  breaks : {t : System} → Steps s t → Steps s (record t { is_connected = false })

abbrev pub Reach : System → Type 0
Reach = Steps init
