-- ===== src/Server/Threads/Handlers.antt =====
-- `recHandlers` and the receive threads that it keeps.
use tcp_server_client.Prelude.{ℕ, Option, none, some, ◌≡◌, ◌≢◌, refl, arith, ◌⊎◌, inr}
use tcp_server_client.Server.Threads.{
  Pc, outside, begun, looking, reading, closing, down, erased, unlocked, closed, ended, calling,
  checking, writing, AccPc, looping, waiting, accepted, inserting, inserted, spawned, crashed,
  stopping, shutting, joining, finished, System, update, Accepts, goes_on, leaves, gets_none,
  accepts, locks_to_insert, inserts, spawns, sees_ended, sees_running, removes, registers,
  terminates, locks_to_shut, shuts, joins, finishes, Receives, looks_up, finds, misses, breaks,
  shuts_down, erases, unlocks, closes, ends, Sends, calls, checks, refuses, starts_writing, returns,
  Step, accepting, receiving, sending, sets_running, shuts_listener, here, later, broken,
  turned_away, Reach,
}

-- The socket of a receive thread that has not ended.
abbrev pub serves : Pc → Option ℕ
serves (begun fd) = some fd
serves (looking fd) = some fd
serves (reading fd) = some fd
serves (closing fd) = some fd
serves (down fd) = some fd
serves (erased fd) = some fd
serves (unlocked fd) = some fd
serves (closed fd) = some fd
serves _ = none

-- A thread that has not ended is kept, or about to be, unless the program has been ended.
pub record IsKept (handlers : ℕ → Option ℕ) (acc : AccPc) (pc : ℕ → Pc) : Type 0 where
  pub kept :
      (i fd : ℕ)
      → serves (pc i) ≡ some fd
      → (handlers fd ≡ some i) ⊎ (acc ≡ spawned fd i) ⊎ (acc ≡ crashed)
  pub none_left : acc ≡ finished → (fd : ℕ) → handlers fd ≡ none

module _ {handlers : ℕ → Option ℕ} {acc : AccPc} {pc : ℕ → Pc} (h : IsKept handlers acc pc) where
  thread_moves :
      (i : ℕ) (p : Pc)
      → ((fd : ℕ) → serves p ≡ some fd → serves (pc i) ≡ some fd)
      → IsKept handlers acc (update pc i p)
  thread_moves i p o = record {
    kept = λ j fd a. ground (arith, h.kept j fd, h.kept i fd, o fd);
    none_left = h.none_left;
  }

  -- From a place where it neither registers a thread nor has crashed.
  acceptor_moves :
      (a : AccPc)
      → ((fd i : ℕ) → acc ≢ spawned fd i)
      → acc ≢ crashed
      → a ≢ finished
      → IsKept handlers a pc
  acceptor_moves a busy up e = record {
    kept = λ j fd q. ground (arith, h.kept j fd q, busy fd j, up);
    none_left = λ q. absurd (e q);
  }

  handler_removed :
      (k j : ℕ)
      → handlers k ≡ some j
      → pc j ≡ ended
      → acc ≢ finished
      → IsKept (update handlers k none) acc pc
  handler_removed k j e q f = record {
    kept = λ i fd a. ground (arith, h.kept i fd);
    none_left = λ x. absurd (f x);
  }

abbrev pub Kept : System → Type 0
Kept s = IsKept s.handlers s.acc s.pc

Accepts-Kept : {s t : System} → Accepts s t → Kept s → Kept t
Accepts-Kept (goes_on e _) h = acceptor_moves h waiting (λ k i a. cc) (λ a. cc) (λ a. cc)
Accepts-Kept (leaves e _) h = acceptor_moves h stopping (λ k i a. cc) (λ a. cc) (λ a. cc)
Accepts-Kept (gets_none e _) h = acceptor_moves h looping (λ k i a. cc) (λ a. cc) (λ a. cc)
Accepts-Kept (accepts fd e _ _) h = acceptor_moves h (accepted fd) (λ k i a. cc) (λ a. cc) (λ a. cc)
Accepts-Kept (locks_to_insert fd e _) h =
    acceptor_moves h (inserting fd) (λ k i a. cc) (λ a. cc) (λ a. cc)
Accepts-Kept (inserts fd e) h = acceptor_moves h (inserted fd) (λ k i a. cc) (λ a. cc) (λ a. cc)
Accepts-Kept (spawns fd i e q) h = record {
  kept = λ j k a. ground (arith, h.kept j k);
  none_left = λ a. cc;
}
Accepts-Kept (sees_ended fd i k j _ _ _ _) h = h
Accepts-Kept (sees_running fd i k j _ _ _ _) h = h
Accepts-Kept (removes fd i k j e q d _ _) h = handler_removed h k j q d (λ a. cc)
Accepts-Kept (registers fd i e q _) h = record {
  kept = λ j k a. ground (arith, h.kept j k);
  none_left = λ a. cc;
}
Accepts-Kept (terminates fd i j e _ _) h = record {
  kept = λ j k a. inr (inr refl);
  none_left = λ a. cc;
}
Accepts-Kept (locks_to_shut e _) h = acceptor_moves h shutting (λ k i a. cc) (λ a. cc) (λ a. cc)
Accepts-Kept (shuts e) h = acceptor_moves h joining (λ k i a. cc) (λ a. cc) (λ a. cc)
Accepts-Kept (joins k j e q d) h = handler_removed h k j q d (λ a. cc)
Accepts-Kept (finishes e q) h = record {
  kept = λ j k a. ground (arith, h.kept j k);
  none_left = λ _. q;
}

Receives-Kept : (i fd : ℕ) {s t : System} → Receives s i fd t → Kept s → Kept t
Receives-Kept i fd (looks_up e _) h = thread_moves h i (looking fd) (λ k a. ground arith)
Receives-Kept i fd (finds e _) h = thread_moves h i (reading fd) (λ k a. ground arith)
Receives-Kept i fd (misses e _) h = thread_moves h i ended (λ k a. cc)
Receives-Kept i fd (breaks e _ _) h = thread_moves h i (closing fd) (λ k a. ground arith)
Receives-Kept i fd (shuts_down e) h = thread_moves h i (down fd) (λ k a. ground arith)
Receives-Kept i fd (erases e) h = thread_moves h i (erased fd) (λ k a. ground arith)
Receives-Kept i fd (unlocks e) h = thread_moves h i (unlocked fd) (λ k a. ground arith)
Receives-Kept i fd (closes e) h = thread_moves h i (closed fd) (λ k a. ground arith)
Receives-Kept i fd (ends e) h = thread_moves h i ended (λ k a. cc)

Sends-Kept : (i fd : ℕ) {s t : System} → Sends s i fd t → Kept s → Kept t
Sends-Kept i fd (calls e) h = thread_moves h i (calling fd) (λ k a. cc)
Sends-Kept i fd (checks e _) h = thread_moves h i (checking fd) (λ k a. cc)
Sends-Kept i fd (refuses e _) h = thread_moves h i outside (λ k a. cc)
Sends-Kept i fd (starts_writing e _) h = thread_moves h i (writing fd) (λ k a. cc)
Sends-Kept i fd (returns e) h = thread_moves h i outside (λ k a. cc)

Step-Kept : {s t : System} → Step s t → Kept s → Kept t
Step-Kept (accepting st) h = Accepts-Kept st h
Step-Kept (receiving i fd st) h = Receives-Kept i fd st h
Step-Kept (sending i fd st) h = Sends-Kept i fd st h
Step-Kept (sets_running b) h = h
Step-Kept (shuts_listener _) h = h

pub Reach-Kept : {s : System} → Reach s → Kept s
Reach-Kept here = record { kept = λ i fd a. cc; none_left = λ a. cc }
Reach-Kept (later r st) = Step-Kept st (Reach-Kept r)
Reach-Kept (broken fd r) = Reach-Kept r
Reach-Kept (turned_away r) = Reach-Kept r
