-- ===== src/Server/Threads/Sockets.antt =====
-- The sockets of clients: which thread has the use of one, and which are in `activeConnections`.
use tcp_server_client.Prelude.{ℕ, Bool, true, false, Option, none, some, ◌≡◌, ◌≢◌, arith}
use tcp_server_client.Server.Threads.{
  Pc, outside, begun, looking, reading, closing, down, erased, unlocked, closed, ended, calling,
  checking, writing, AccPc, looping, waiting, accepted, inserting, inserted, spawned, crashed,
  stopping, shutting, joining, finished, System, update, Accepts, goes_on, leaves, gets_none,
  accepts, locks_to_insert, inserts, spawns, sees_ended, sees_running, removes, registers,
  terminates, locks_to_shut, shuts, joins, finishes, Receives, looks_up, finds, misses, breaks,
  shuts_down, erases, unlocks, closes, ends, Sends, calls, checks, refuses, starts_writing, returns,
  Step, accepting, receiving, sending, sets_running, shuts_listener, here, later, broken,
  turned_away, Reach,
}
use tcp_server_client.Server.Threads.Mutex.{Locked, Reach-Locked}

-- The socket that the thread has the use of, until it closes it.
abbrev pub owned : Pc → Option ℕ
owned (begun fd) = some fd
owned (looking fd) = some fd
owned (reading fd) = some fd
owned (closing fd) = some fd
owned (down fd) = some fd
owned (erased fd) = some fd
owned (unlocked fd) = some fd
owned _ = none

-- The socket that the thread counts on to be in the map.
abbrev pub listed : Pc → Option ℕ
listed (begun fd) = some fd
listed (looking fd) = some fd
listed (reading fd) = some fd
listed (closing fd) = some fd
listed (down fd) = some fd
listed (writing fd) = some fd
listed _ = none

-- The socket that the thread has taken out of the map, and has not closed.
abbrev pub delisted : Pc → Option ℕ
delisted (erased fd) = some fd
delisted (unlocked fd) = some fd
delisted _ = none

abbrev pub acc_owned : AccPc → Option ℕ
acc_owned (accepted fd) = some fd
acc_owned (inserting fd) = some fd
acc_owned (inserted fd) = some fd
acc_owned _ = none

abbrev pub acc_listed : AccPc → Option ℕ
acc_listed (inserted fd) = some fd
acc_listed _ = none

-- A socket is used by one thread, or by the accept thread, at a time; what is used or in the map is
-- open; and what a thread counts on is there.
pub record IsOwned (active is_open : ℕ → Bool) (acc : AccPc) (pc : ℕ → Pc) : Type 0 where
  pub unique : (i j fd : ℕ) → owned (pc i) ≡ some fd → owned (pc j) ≡ some fd → i ≡ j
  pub apart : (i fd : ℕ) → acc_owned acc ≡ some fd → owned (pc i) ≢ some fd
  pub thread_open : (i fd : ℕ) → owned (pc i) ≡ some fd → is_open fd ≡ true
  pub acceptor_open : (fd : ℕ) → acc_owned acc ≡ some fd → is_open fd ≡ true
  pub active_open : (fd : ℕ) → active fd ≡ true → is_open fd ≡ true
  pub thread_listed : (i fd : ℕ) → listed (pc i) ≡ some fd → active fd ≡ true
  pub acceptor_listed : (fd : ℕ) → acc_listed acc ≡ some fd → active fd ≡ true
  pub thread_delisted : (i fd : ℕ) → delisted (pc i) ≡ some fd → active fd ≡ false

module _ {active is_open : ℕ → Bool} {acc : AccPc} {pc : ℕ → Pc}
    (h : IsOwned active is_open acc pc) where
  -- A thread moves on, with no more than it had, and counts on nothing that is not there.
  thread_moves :
      (i : ℕ) (p : Pc)
      → ((fd : ℕ) → owned p ≡ some fd → owned (pc i) ≡ some fd)
      → ((fd : ℕ) → listed p ≡ some fd → active fd ≡ true)
      → ((fd : ℕ) → delisted p ≡ some fd → active fd ≡ false)
      → IsOwned active is_open acc (update pc i p)
  thread_moves i p o l d = record {
    unique = λ j k fd a b. ground (arith, h.unique j k fd, h.unique i k fd, h.unique j i fd, o fd);
    apart = λ j fd a b. ground (arith, h.apart j fd, h.apart i fd, o fd);
    thread_open = λ j fd a. ground (arith, h.thread_open j fd, h.thread_open i fd, o fd);
    acceptor_open = h.acceptor_open;
    active_open = h.active_open;
    thread_listed = λ j fd a. ground (arith, h.thread_listed j fd, l fd);
    acceptor_listed = h.acceptor_listed;
    thread_delisted = λ j fd a. ground (arith, h.thread_delisted j fd, d fd);
  }

  -- The accept thread moves on.
  acceptor_moves :
      (a : AccPc)
      → ((fd : ℕ) → acc_owned a ≡ some fd → acc_owned acc ≡ some fd)
      → ((fd : ℕ) → acc_listed a ≡ some fd → active fd ≡ true)
      → IsOwned active is_open a pc
  acceptor_moves a o l = record {
    unique = h.unique;
    apart = λ j fd e. h.apart j fd (o fd e);
    thread_open = h.thread_open;
    acceptor_open = λ fd e. h.acceptor_open fd (o fd e);
    active_open = h.active_open;
    thread_listed = h.thread_listed;
    acceptor_listed = l;
    thread_delisted = h.thread_delisted;
  }

  socket_accepted :
      (fd : ℕ)
      → acc ≡ waiting
      → is_open fd ≡ false
      → IsOwned active (update is_open fd true) (accepted fd) pc
  socket_accepted fd e shut = record {
    unique = h.unique;
    apart = λ j k a b. ground (arith, h.thread_open j k);
    thread_open = λ j k a. ground (arith, h.thread_open j k);
    acceptor_open = λ k a. ground arith;
    active_open = λ k a. ground (arith, h.active_open k);
    thread_listed = h.thread_listed;
    acceptor_listed = λ k a. cc;
    thread_delisted = h.thread_delisted;
  }

  socket_inserted :
      (fd : ℕ) → acc ≡ inserting fd → IsOwned (update active fd true) is_open (inserted fd) pc
  socket_inserted fd e = record {
    unique = h.unique;
    apart = λ j k a. ground (arith, h.apart j k);
    thread_open = h.thread_open;
    acceptor_open = λ k a. ground (arith, h.acceptor_open k);
    active_open = λ k a. ground (arith, h.active_open k, h.acceptor_open k);
    thread_listed = λ j k a. ground (arith, h.thread_listed j k);
    acceptor_listed = λ k a. ground arith;
    thread_delisted =
        λ j k a. ground (arith, h.thread_delisted j k, h.apart j k, delisted_owned (pc j) k a);
  }
    where
      delisted_owned : (p : Pc) (k : ℕ) → delisted p ≡ some k → owned p ≡ some k
      delisted_owned p k a = ground arith

  thread_spawned :
      (fd i : ℕ)
      → acc ≡ inserted fd
      → pc i ≡ outside
      → IsOwned active is_open (spawned fd i) (update pc i (begun fd))
  thread_spawned fd i e q = record {
    unique = λ j k x a b. ground (arith, h.unique j k x, h.apart k x, h.apart j x);
    apart = λ j k a. cc;
    thread_open = λ j k a. ground (arith, h.thread_open j k, h.acceptor_open k);
    acceptor_open = λ k a. cc;
    active_open = h.active_open;
    thread_listed = λ j k a. ground (arith, h.thread_listed j k, h.acceptor_listed k);
    acceptor_listed = λ k a. cc;
    thread_delisted = λ j k a. ground (arith, h.thread_delisted j k);
  }

  socket_erased :
      (fd i : ℕ)
      → pc i ≡ down fd
      → ((j k : ℕ) → pc j ≡ writing k → i ≡ j)
      → IsOwned (update active fd false) is_open acc (update pc i (erased fd))
  socket_erased fd i e alone = record {
    unique = λ j k x a b. ground (arith, h.unique j k x, h.unique i k x, h.unique j i x);
    apart = λ j k a b. ground (arith, h.apart j k, h.apart i k);
    thread_open = λ j k a. ground (arith, h.thread_open j k, h.thread_open i k);
    acceptor_open = h.acceptor_open;
    active_open = λ k a. ground (arith, h.active_open k);
    thread_listed = λ j k a. ground (arith, h.thread_listed j k, h.unique i j k, alone j k);
    acceptor_listed = λ k a. ground (arith, h.acceptor_listed k, h.apart i k);
    thread_delisted = λ j k a. ground (arith, h.thread_delisted j k);
  }

  socket_closed :
      (fd i : ℕ)
      → pc i ≡ unlocked fd
      → IsOwned active (update is_open fd false) acc (update pc i (closed fd))
  socket_closed fd i e = record {
    unique = λ j k x a b. ground (arith, h.unique j k x);
    apart = λ j k a b. ground (arith, h.apart j k);
    thread_open = λ j k a. ground (arith, h.thread_open j k, h.unique i j k);
    acceptor_open = λ k a. ground (arith, h.acceptor_open k, h.apart i k);
    active_open = λ k a. ground (arith, h.active_open k, h.thread_delisted i k);
    thread_listed = λ j k a. ground (arith, h.thread_listed j k);
    acceptor_listed = h.acceptor_listed;
    thread_delisted = λ j k a. ground (arith, h.thread_delisted j k);
  }

abbrev pub Owned : System → Type 0
Owned s = IsOwned s.active s.is_open s.acc s.pc

Accepts-Owned : {s t : System} → Accepts s t → Owned s → Owned t
Accepts-Owned (goes_on e _) h = acceptor_moves h waiting (λ k a. cc) (λ k a. cc)
Accepts-Owned (leaves e _) h = acceptor_moves h stopping (λ k a. cc) (λ k a. cc)
Accepts-Owned (gets_none e _) h = acceptor_moves h looping (λ k a. cc) (λ k a. cc)
Accepts-Owned (accepts fd e q _) h = socket_accepted h fd e q
Accepts-Owned (locks_to_insert fd e _) h =
    acceptor_moves h (inserting fd) (λ k a. ground arith) (λ k a. cc)
Accepts-Owned (inserts fd e) h = socket_inserted h fd e
Accepts-Owned (spawns fd i e q) h = thread_spawned h fd i e q
Accepts-Owned (sees_ended fd i k j _ _ _ _) h = h
Accepts-Owned (sees_running fd i k j _ _ _ _) h = h
Accepts-Owned (removes fd i k j e _ _ _ _) h = h
Accepts-Owned (registers fd i e _ _) h = acceptor_moves h looping (λ k a. cc) (λ k a. cc)
Accepts-Owned (terminates fd i j e _ _) h = acceptor_moves h crashed (λ k a. cc) (λ k a. cc)
Accepts-Owned (locks_to_shut e _) h = acceptor_moves h shutting (λ k a. cc) (λ k a. cc)
Accepts-Owned (shuts e) h = acceptor_moves h joining (λ k a. cc) (λ k a. cc)
Accepts-Owned (joins k j e _ _) h = h
Accepts-Owned (finishes e _) h = acceptor_moves h finished (λ k a. cc) (λ k a. cc)

-- Between the test of the map and the end of the writing, no other thread takes a socket out of it.
erases_alone :
    (i fd : ℕ) (s : System) → s.pc i ≡ down fd → Locked s → (j k : ℕ) → s.pc j ≡ writing k → i ≡ j
erases_alone i fd s e l j k w = ground (arith, l.by_thread i, l.by_thread j)

Receives-Owned : (i fd : ℕ) {s t : System} → Receives s i fd t → Locked s → Owned s → Owned t
Receives-Owned i fd (looks_up e _) l h =
    thread_moves h i (looking fd) (λ k a. ground arith) (λ k a. ground (arith, h.thread_listed i k))
      (λ k a. cc)
Receives-Owned i fd (finds e _) l h =
    thread_moves h i (reading fd) (λ k a. ground arith) (λ k a. ground (arith, h.thread_listed i k))
      (λ k a. cc)
Receives-Owned i fd (misses e _) l h = thread_moves h i ended (λ k a. cc) (λ k a. cc) (λ k a. cc)
Receives-Owned i fd (breaks e _ _) l h =
    thread_moves h i (closing fd) (λ k a. ground arith) (λ k a. ground (arith, h.thread_listed i k))
      (λ k a. cc)
Receives-Owned i fd (shuts_down e) l h =
    thread_moves h i (down fd) (λ k a. ground arith) (λ k a. ground (arith, h.thread_listed i k))
      (λ k a. cc)
Receives-Owned i fd {s = s} (erases e) l h = socket_erased h fd i e (erases_alone i fd s e l)
Receives-Owned i fd (unlocks e) l h =
    thread_moves h i (unlocked fd) (λ k a. ground arith) (λ k a. cc)
      (λ k a. ground (arith, h.thread_delisted i k))
Receives-Owned i fd (closes e) l h = socket_closed h fd i e
Receives-Owned i fd (ends e) l h = thread_moves h i ended (λ k a. cc) (λ k a. cc) (λ k a. cc)

Sends-Owned : (i fd : ℕ) {s t : System} → Sends s i fd t → Owned s → Owned t
Sends-Owned i fd (calls e) h = thread_moves h i (calling fd) (λ k a. cc) (λ k a. cc) (λ k a. cc)
Sends-Owned i fd (checks e _) h = thread_moves h i (checking fd) (λ k a. cc) (λ k a. cc) (λ k a. cc)
Sends-Owned i fd (refuses e _) h = thread_moves h i outside (λ k a. cc) (λ k a. cc) (λ k a. cc)
Sends-Owned i fd (starts_writing e q) h =
    thread_moves h i (writing fd) (λ k a. cc) (λ k a. ground arith) (λ k a. cc)
Sends-Owned i fd (returns e) h = thread_moves h i outside (λ k a. cc) (λ k a. cc) (λ k a. cc)

Step-Owned : {s t : System} → Step s t → Locked s → Owned s → Owned t
Step-Owned (accepting st) l h = Accepts-Owned st h
Step-Owned (receiving i fd st) l h = Receives-Owned i fd st l h
Step-Owned (sending i fd st) l h = Sends-Owned i fd st h
Step-Owned (sets_running b) l h = h
Step-Owned (shuts_listener _) l h = h

pub Reach-Owned : {s : System} → Reach s → Owned s
Reach-Owned here = record {
  unique = λ i j fd a b. cc;
  apart = λ i fd a. cc;
  thread_open = λ i fd a. cc;
  acceptor_open = λ fd a. cc;
  active_open = λ fd a. cc;
  thread_listed = λ i fd a. cc;
  acceptor_listed = λ fd a. cc;
  thread_delisted = λ i fd a. cc;
}
Reach-Owned (later r st) = Step-Owned st (Reach-Locked r) (Reach-Owned r)
Reach-Owned (broken fd r) = Reach-Owned r
Reach-Owned (turned_away r) = Reach-Owned r
