-- ===== src/Server/Threads/Served.antt =====
-- The handlers of a server are few, and each is a thread that serves its socket or has ended.
use Prim.Native.Nat.{◌≤◌}
use tcp_server_client.Prelude.{ℕ, suc, ◌+◌, Option, none, some, ◌≡◌, ◌≢◌, refl, arith, ◌⊎◌, inr}
use tcp_server_client.Server.Threads.{
  Pc, outside, begun, looking, reading, closing, down, erased, unlocked, closed, ended, calling,
  checking, writing, AccPc, looping, waiting, accepted, inserting, inserted, spawned, crashed,
  stopping, shutting, joining, finished, System, update, Accepts, goes_on, leaves, gets_none,
  accepts, locks_to_insert, inserts, spawns, sees_ended, sees_running, removes, registers,
  terminates, locks_to_shut, shuts, joins, finishes, Receives, looks_up, finds, misses, breaks,
  shuts_down, erases, unlocks, closes, ends, Sends, calls, checks, refuses, starts_writing, returns,
  Step, accepting, receiving, sending, sets_running, shuts_listener, here, later, broken,
  turned_away, Reach,
}
use tcp_server_client.Server.Threads.Handlers.{serves}

-- The thread serves the socket, or has ended.
abbrev pub Serves : Pc → ℕ → Type 0
Serves p fd = (serves p ≡ some fd) ⊎ (p ≡ ended)

pub record IsServed (handlers : ℕ → Option ℕ) (acc : AccPc) (pc : ℕ → Pc) : Type 0 where
  pub handled : (fd i : ℕ) → handlers fd ≡ some i → Serves (pc i) fd
  pub fresh : (fd i : ℕ) → acc ≡ spawned fd i → Serves (pc i) fd

module _ {handlers : ℕ → Option ℕ} {acc : AccPc} {pc : ℕ → Pc} (h : IsServed handlers acc pc) where
  thread_moves :
      (i : ℕ) (p : Pc)
      → pc i ≢ ended
      → ((fd : ℕ) → serves (pc i) ≡ some fd → Serves p fd)
      → IsServed handlers acc (update pc i p)
  thread_moves i p on o = record {
    handled = λ fd j a. ground (arith, h.handled fd j a, o fd, on);
    fresh = λ fd j a. ground (arith, h.fresh fd j a, o fd, on);
  }

  acceptor_moves : (a : AccPc) → ((fd i : ℕ) → a ≢ spawned fd i) → IsServed handlers a pc
  acceptor_moves a out = record { handled = h.handled; fresh = λ fd i e. absurd (out fd i e) }

  handler_removed : (k : ℕ) → IsServed (update handlers k none) acc pc
  handler_removed k = record { handled = λ fd i a. ground (arith, h.handled fd i); fresh = h.fresh }

abbrev pub Served : System → Type 0
Served s = IsServed s.handlers s.acc s.pc

Accepts-Served : {s t : System} → Accepts s t → Served s → Served t
Accepts-Served (goes_on e _) h = acceptor_moves h waiting (λ k i a. cc)
Accepts-Served (leaves e _) h = acceptor_moves h stopping (λ k i a. cc)
Accepts-Served (gets_none e _) h = acceptor_moves h looping (λ k i a. cc)
Accepts-Served (accepts fd e _ _) h = acceptor_moves h (accepted fd) (λ k i a. cc)
Accepts-Served (locks_to_insert fd e _) h = acceptor_moves h (inserting fd) (λ k i a. cc)
Accepts-Served (inserts fd e) h = acceptor_moves h (inserted fd) (λ k i a. cc)
Accepts-Served (spawns fd i e q) h = record {
  handled = λ k j a. ground (arith, h.handled k j);
  fresh = λ k j a. ground arith;
}
Accepts-Served (sees_ended fd i k j _ _ _ _) h = h
Accepts-Served (sees_running fd i k j _ _ _ _) h = h
Accepts-Served (removes fd i k j e q d _ _) h = handler_removed h k
Accepts-Served (registers fd i e q _) h = record {
  handled = λ k j a. ground (arith, h.handled k j, h.fresh fd i);
  fresh = λ k j a. cc;
}
Accepts-Served (terminates fd i j e _ _) h = acceptor_moves h crashed (λ k i a. cc)
Accepts-Served (locks_to_shut e _) h = acceptor_moves h shutting (λ k i a. cc)
Accepts-Served (shuts e) h = acceptor_moves h joining (λ k i a. cc)
Accepts-Served (joins k j e q d) h = handler_removed h k
Accepts-Served (finishes e q) h = acceptor_moves h finished (λ k i a. cc)

Receives-Served : (i fd : ℕ) {s t : System} → Receives s i fd t → Served s → Served t
Receives-Served i fd (looks_up e _) h =
    thread_moves h i (looking fd) (λ a. cc) (λ k a. ground arith)
Receives-Served i fd (finds e _) h = thread_moves h i (reading fd) (λ a. cc) (λ k a. ground arith)
Receives-Served i fd (misses e _) h = thread_moves h i ended (λ a. cc) (λ k a. inr refl)
Receives-Served i fd (breaks e _ _) h =
    thread_moves h i (closing fd) (λ a. cc) (λ k a. ground arith)
Receives-Served i fd (shuts_down e) h = thread_moves h i (down fd) (λ a. cc) (λ k a. ground arith)
Receives-Served i fd (erases e) h = thread_moves h i (erased fd) (λ a. cc) (λ k a. ground arith)
Receives-Served i fd (unlocks e) h = thread_moves h i (unlocked fd) (λ a. cc) (λ k a. ground arith)
Receives-Served i fd (closes e) h = thread_moves h i (closed fd) (λ a. cc) (λ k a. ground arith)
Receives-Served i fd (ends e) h = thread_moves h i ended (λ a. cc) (λ k a. inr refl)

Sends-Served : (i fd : ℕ) {s t : System} → Sends s i fd t → Served s → Served t
Sends-Served i fd (calls e) h = thread_moves h i (calling fd) (λ a. cc) (λ k a. ground arith)
Sends-Served i fd (checks e _) h = thread_moves h i (checking fd) (λ a. cc) (λ k a. ground arith)
Sends-Served i fd (refuses e _) h = thread_moves h i outside (λ a. cc) (λ k a. ground arith)
Sends-Served i fd (starts_writing e _) h =
    thread_moves h i (writing fd) (λ a. cc) (λ k a. ground arith)
Sends-Served i fd (returns e) h = thread_moves h i outside (λ a. cc) (λ k a. ground arith)

Step-Served : {s t : System} → Step s t → Served s → Served t
Step-Served (accepting st) h = Accepts-Served st h
Step-Served (receiving i fd st) h = Receives-Served i fd st h
Step-Served (sending i fd st) h = Sends-Served i fd st h
Step-Served (sets_running b) h = h
Step-Served (shuts_listener _) h = h

pub Reach-Served : {s : System} → Reach s → Served s
Reach-Served here = record { handled = λ fd i a. cc; fresh = λ fd i a. cc }
Reach-Served (later r st) = Step-Served st (Reach-Served r)
Reach-Served (broken fd r) = Reach-Served r
Reach-Served (turned_away r) = Reach-Served r

-- From the number `n` on there is no handler and no thread.
abbrev pub IsBelow : ℕ → (ℕ → Option ℕ) → (ℕ → Pc) → Type 0
IsBelow n handlers pc = (k : ℕ) → n ≤ k → (handlers k ≡ none) × (pc k ≡ outside)

module _ {n : ℕ} {handlers : ℕ → Option ℕ} {pc : ℕ → Pc} (h : IsBelow n handlers pc) where
  IsBelow-thread : (i : ℕ) (p : Pc) → IsBelow (n + suc i) handlers (update pc i p)
  IsBelow-thread i p k le = (ground (arith, h k), ground (arith, h k))

  IsBelow-handler : (j : ℕ) (o : Option ℕ) → IsBelow (n + suc j) (update handlers j o) pc
  IsBelow-handler j o k le = (ground (arith, h k), ground (arith, h k))

abbrev Bounded : System → Type 0
Bounded s = (n : ℕ) × IsBelow n s.handlers s.pc

Accepts-Bounded : {s t : System} → Accepts s t → Bounded s → Bounded t
Accepts-Bounded (goes_on e _) h = h
Accepts-Bounded (leaves e _) h = h
Accepts-Bounded (gets_none e _) h = h
Accepts-Bounded (accepts fd e _ _) h = h
Accepts-Bounded (locks_to_insert fd e _) h = h
Accepts-Bounded (inserts fd e) h = h
Accepts-Bounded (spawns fd i e q) h = (_, IsBelow-thread h.1 i (begun fd))
Accepts-Bounded (sees_ended fd i k j _ _ _ _) h = h
Accepts-Bounded (sees_running fd i k j _ _ _ _) h = h
Accepts-Bounded (removes fd i k j e q d _ _) h = (_, IsBelow-handler h.1 k none)
Accepts-Bounded (registers fd i e q _) h = (_, IsBelow-handler h.1 fd (some i))
Accepts-Bounded (terminates fd i j e _ _) h = h
Accepts-Bounded (locks_to_shut e _) h = h
Accepts-Bounded (shuts e) h = h
Accepts-Bounded (joins k j e q d) h = (_, IsBelow-handler h.1 k none)
Accepts-Bounded (finishes e q) h = h

Receives-Bounded : (i fd : ℕ) {s t : System} → Receives s i fd t → Bounded s → Bounded t
Receives-Bounded i fd (looks_up e _) h = (_, IsBelow-thread h.1 i _)
Receives-Bounded i fd (finds e _) h = (_, IsBelow-thread h.1 i _)
Receives-Bounded i fd (misses e _) h = (_, IsBelow-thread h.1 i _)
Receives-Bounded i fd (breaks e _ _) h = (_, IsBelow-thread h.1 i _)
Receives-Bounded i fd (shuts_down e) h = (_, IsBelow-thread h.1 i _)
Receives-Bounded i fd (erases e) h = (_, IsBelow-thread h.1 i _)
Receives-Bounded i fd (unlocks e) h = (_, IsBelow-thread h.1 i _)
Receives-Bounded i fd (closes e) h = (_, IsBelow-thread h.1 i _)
Receives-Bounded i fd (ends e) h = (_, IsBelow-thread h.1 i _)

Sends-Bounded : (i fd : ℕ) {s t : System} → Sends s i fd t → Bounded s → Bounded t
Sends-Bounded i fd (calls e) h = (_, IsBelow-thread h.1 i _)
Sends-Bounded i fd (checks e _) h = (_, IsBelow-thread h.1 i _)
Sends-Bounded i fd (refuses e _) h = (_, IsBelow-thread h.1 i _)
Sends-Bounded i fd (starts_writing e _) h = (_, IsBelow-thread h.1 i _)
Sends-Bounded i fd (returns e) h = (_, IsBelow-thread h.1 i _)

Step-Bounded : {s t : System} → Step s t → Bounded s → Bounded t
Step-Bounded (accepting st) h = Accepts-Bounded st h
Step-Bounded (receiving i fd st) h = Receives-Bounded i fd st h
Step-Bounded (sending i fd st) h = Sends-Bounded i fd st h
Step-Bounded (sets_running b) h = h
Step-Bounded (shuts_listener _) h = h

-- Only finitely many threads and handlers are there at a time.
pub Reach-Bounded : {s : System} → Reach s → (n : ℕ) × IsBelow n s.handlers s.pc
Reach-Bounded here = (0, λ k _. (refl, refl))
Reach-Bounded (later r st) = Step-Bounded st (Reach-Bounded r)
Reach-Bounded (broken fd r) = Reach-Bounded r
Reach-Bounded (turned_away r) = Reach-Bounded r
