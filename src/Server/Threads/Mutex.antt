-- ===== src/Server/Threads/Mutex.antt =====
-- The mutex `activeConnections_m`: who holds it.
use tcp_server_client.Prelude.{ℕ, Bool, true, false, ◌≡◌, refl, ◌∙◌, ◌==◌, arith}
use tcp_server_client.Server.Threads.{
  Owner, free, acceptor, thread, Pc, outside, begun, looking, reading, closing, down, erased,
  unlocked, closed, ended, calling, checking, writing, AccPc, looping, waiting, accepted, inserting,
  inserted, spawned, crashed, stopping, shutting, joining, finished, System, update, Accepts,
  goes_on, leaves, gets_none, accepts, locks_to_insert, inserts, spawns, sees_ended, sees_running,
  removes, registers, terminates, locks_to_shut, shuts, joins, finishes, Receives, looks_up, finds,
  misses, breaks, shuts_down, erases, unlocks, closes, ends, Sends, calls, checks, refuses,
  starts_writing, returns, Step, accepting, receiving, sending, sets_running, shuts_listener, here,
  later, broken, turned_away, Reach,
}

-- Does the thread hold the mutex?
abbrev pub holds : Pc → Bool
holds (looking fd) = true
holds (closing fd) = true
holds (down fd) = true
holds (erased fd) = true
holds (checking fd) = true
holds (writing fd) = true
holds _ = false

abbrev pub acc_holds : AccPc → Bool
acc_holds (inserting fd) = true
acc_holds shutting = true
acc_holds _ = false

abbrev pub is_thread : ℕ → Owner → Bool
is_thread i (thread j) = i == j
is_thread i _ = false

abbrev pub is_acceptor : Owner → Bool
is_acceptor acceptor = true
is_acceptor _ = false

-- Who holds the mutex is who stands between the taking and the giving back.
pub record IsLocked (lock : Owner) (acc : AccPc) (pc : ℕ → Pc) : Type 0 where
  pub by_thread : (i : ℕ) → holds (pc i) ≡ is_thread i lock
  pub by_acceptor : acc_holds acc ≡ is_acceptor lock

module _ {lock : Owner} {acc : AccPc} {pc : ℕ → Pc} (h : IsLocked lock acc pc) where
  thread_keeps : (i : ℕ) (p : Pc) → holds p ≡ holds (pc i) → IsLocked lock acc (update pc i p)
  thread_keeps i p e = record {
    by_thread = λ j. ground (arith, h.by_thread j, h.by_thread i);
    by_acceptor = h.by_acceptor;
  }

  thread_takes :
      (i : ℕ) (p : Pc) → lock ≡ free → holds p ≡ true → IsLocked (thread i) acc (update pc i p)
  thread_takes i p e q = record {
    by_thread = λ j. ground (arith, h.by_thread j, h.by_thread i);
    by_acceptor = ground (arith, h.by_acceptor);
  }

  thread_gives :
      (i : ℕ) (p : Pc) → holds (pc i) ≡ true → holds p ≡ false → IsLocked free acc (update pc i p)
  thread_gives i p e q = record {
    by_thread = λ j. ground (arith, h.by_thread j, h.by_thread i);
    by_acceptor = ground (arith, h.by_acceptor, h.by_thread i);
  }

  acceptor_keeps : (a : AccPc) → acc_holds a ≡ acc_holds acc → IsLocked lock a pc
  acceptor_keeps a e = record { by_thread = h.by_thread; by_acceptor = e ∙ h.by_acceptor }

  acceptor_takes : (a : AccPc) → lock ≡ free → acc_holds a ≡ true → IsLocked acceptor a pc
  acceptor_takes a e q = record { by_thread = λ j. ground (arith, h.by_thread j); by_acceptor = q }

  acceptor_gives : (a : AccPc) → acc_holds acc ≡ true → acc_holds a ≡ false → IsLocked free a pc
  acceptor_gives a e q = record {
    by_thread = λ j. ground (arith, h.by_thread j, h.by_acceptor);
    by_acceptor = q;
  }

abbrev pub Locked : System → Type 0
Locked s = IsLocked s.lock s.acc s.pc

Accepts-Locked : {s t : System} → Accepts s t → Locked s → Locked t
Accepts-Locked (goes_on e _) h = acceptor_keeps h waiting (ground arith)
Accepts-Locked (leaves e _) h = acceptor_keeps h stopping (ground arith)
Accepts-Locked (gets_none e _) h = acceptor_keeps h looping (ground arith)
Accepts-Locked (accepts fd e _ _) h = acceptor_keeps h (accepted fd) (ground arith)
Accepts-Locked (locks_to_insert fd e l) h = acceptor_takes h (inserting fd) l refl
Accepts-Locked (inserts fd e) h = acceptor_gives h (inserted fd) (ground arith) refl
Accepts-Locked (spawns fd i e q) h =
    thread_keeps (acceptor_keeps h (spawned fd i) (ground arith)) i (begun fd) (ground arith)
Accepts-Locked (sees_ended fd i k j _ _ _ _) h = h
Accepts-Locked (sees_running fd i k j _ _ _ _) h = h
Accepts-Locked (removes fd i k j e _ _ _ _) h = h
Accepts-Locked (registers fd i e _ _) h = acceptor_keeps h looping (ground arith)
Accepts-Locked (terminates fd i j e _ _) h = acceptor_keeps h crashed (ground arith)
Accepts-Locked (locks_to_shut e l) h = acceptor_takes h shutting l refl
Accepts-Locked (shuts e) h = acceptor_gives h joining (ground arith) refl
Accepts-Locked (joins k j e _ _) h = h
Accepts-Locked (finishes e _) h = acceptor_keeps h finished (ground arith)

Receives-Locked : (i fd : ℕ) {s t : System} → Receives s i fd t → Locked s → Locked t
Receives-Locked i fd (looks_up e l) h = thread_takes h i (looking fd) l refl
Receives-Locked i fd (finds e _) h = thread_gives h i (reading fd) (ground arith) refl
Receives-Locked i fd (misses e _) h = thread_gives h i ended (ground arith) refl
Receives-Locked i fd (breaks e l _) h = thread_takes h i (closing fd) l refl
Receives-Locked i fd (shuts_down e) h = thread_keeps h i (down fd) (ground arith)
Receives-Locked i fd (erases e) h = thread_keeps h i (erased fd) (ground arith)
Receives-Locked i fd (unlocks e) h = thread_gives h i (unlocked fd) (ground arith) refl
Receives-Locked i fd (closes e) h = thread_keeps h i (closed fd) (ground arith)
Receives-Locked i fd (ends e) h = thread_keeps h i ended (ground arith)

Sends-Locked : (i fd : ℕ) {s t : System} → Sends s i fd t → Locked s → Locked t
Sends-Locked i fd (calls e) h = thread_keeps h i (calling fd) (ground arith)
Sends-Locked i fd (checks e l) h = thread_takes h i (checking fd) l refl
Sends-Locked i fd (refuses e _) h = thread_gives h i outside (ground arith) refl
Sends-Locked i fd (starts_writing e _) h = thread_keeps h i (writing fd) (ground arith)
Sends-Locked i fd (returns e) h = thread_gives h i outside (ground arith) refl

Step-Locked : {s t : System} → Step s t → Locked s → Locked t
Step-Locked (accepting st) h = Accepts-Locked st h
Step-Locked (receiving i fd st) h = Receives-Locked i fd st h
Step-Locked (sending i fd st) h = Sends-Locked i fd st h
Step-Locked (sets_running b) h = h
Step-Locked (shuts_listener _) h = h

pub Reach-Locked : {s : System} → Reach s → Locked s
Reach-Locked here = record { by_thread = λ i. refl; by_acceptor = refl }
Reach-Locked (later r st) = Step-Locked st (Reach-Locked r)
Reach-Locked (broken fd r) = Reach-Locked r
Reach-Locked (turned_away r) = Reach-Locked r
