-- ===== src/Server/Threads/Shut.antt =====
-- What the shutdown of the connections at the end of `listenConnection` comes to.
use tcp_server_client.Prelude.{ℕ, Bool, true, false, ◌≡◌, arith}
use tcp_server_client.Server.Threads.{
  AccPc, joining, System, Accepts, goes_on, leaves, gets_none, accepts, locks_to_insert, inserts,
  spawns, sees_ended, sees_running, removes, registers, terminates, locks_to_shut, shuts, joins,
  finishes, Receives, looks_up, finds, misses, breaks, shuts_down, erases, unlocks, closes, ends,
  Sends, calls, checks, refuses, starts_writing, returns, Step, accepting, receiving, sending,
  sets_running, shuts_listener, here, later, broken, turned_away, Reach,
}

-- While the accept thread joins the receive threads, no connection of the map is alive.
abbrev IsShut : AccPc → (ℕ → Bool) → (ℕ → Bool) → Type 0
IsShut acc active connected = acc ≡ joining → (fd : ℕ) → active fd ≡ true → connected fd ≡ false

abbrev Shut : System → Type 0
Shut s = IsShut s.acc s.active s.connected

Accepts-Shut : {s t : System} → Accepts s t → Shut s → Shut t
Accepts-Shut (goes_on _ _) h = λ e fd a. cc
Accepts-Shut (leaves _ _) h = λ e fd a. cc
Accepts-Shut (gets_none _ _) h = λ e fd a. cc
Accepts-Shut (accepts k _ _ _) h = λ e fd a. cc
Accepts-Shut (locks_to_insert k _ _) h = λ e fd a. cc
Accepts-Shut (inserts k _) h = λ e fd a. cc
Accepts-Shut (spawns k i _ _) h = λ e fd a. cc
Accepts-Shut (sees_ended k i n j _ _ _ _) h = h
Accepts-Shut (sees_running k i n j _ _ _ _) h = h
Accepts-Shut (removes k i n j _ _ _ _ _) h = h
Accepts-Shut (registers k i _ _ _) h = λ e fd a. cc
Accepts-Shut (terminates k i j _ _ _) h = λ e fd a. cc
Accepts-Shut (locks_to_shut _ _) h = λ e fd a. cc
Accepts-Shut (shuts _) h = λ e fd a. ground arith
Accepts-Shut (joins k j _ _ _) h = h
Accepts-Shut (finishes _ _) h = λ e fd a. cc

Receives-Shut : (i k : ℕ) {s t : System} → Receives s i k t → Shut s → Shut t
Receives-Shut i k (looks_up _ _) h = h
Receives-Shut i k (finds _ _) h = h
Receives-Shut i k (misses _ _) h = h
Receives-Shut i k (breaks _ _ _) h = h
Receives-Shut i k (shuts_down _) h = λ e fd a. ground (arith, h e fd a)
Receives-Shut i k (erases _) h = λ e fd a. ground (arith, h e fd)
Receives-Shut i k (unlocks _) h = h
Receives-Shut i k (closes _) h = h
Receives-Shut i k (ends _) h = h

Sends-Shut : (i k : ℕ) {s t : System} → Sends s i k t → Shut s → Shut t
Sends-Shut i k (calls _) h = h
Sends-Shut i k (checks _ _) h = h
Sends-Shut i k (refuses _ _) h = h
Sends-Shut i k (starts_writing _ _) h = h
Sends-Shut i k (returns _) h = h

Step-Shut : {s t : System} → Step s t → Shut s → Shut t
Step-Shut (accepting st) h = Accepts-Shut st h
Step-Shut (receiving i k st) h = Receives-Shut i k st h
Step-Shut (sending i k st) h = Sends-Shut i k st h
Step-Shut (sets_running b) h = h
Step-Shut (shuts_listener _) h = h

pub Reach-Shut :
    {s : System}
    → Reach s
    → s.acc ≡ joining
    → (fd : ℕ) → s.active fd ≡ true
    → s.connected fd ≡ false
Reach-Shut here = λ e fd a. cc
Reach-Shut (later r st) = Step-Shut st (Reach-Shut r)
Reach-Shut (broken k r) = λ e fd a. ground (arith, Reach-Shut r e fd a)
Reach-Shut (turned_away r) = Reach-Shut r
