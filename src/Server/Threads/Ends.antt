-- ===== src/Server/Threads/Ends.antt =====
-- How a receive thread ends once the accept thread has shut the connections down.
use tcp_server_client.Prelude.{ℕ, true, false, some, ◌≡◌, refl, ◌∙◌, ap, ◌⊎◌, inl, inr}
use tcp_server_client.Server.Threads.{
  free, Pc, begun, looking, reading, closing, down, erased, unlocked, closed, ended, joining,
  System, looks_up, finds, breaks, shuts_down, erases, unlocks, closes, ends, Step, receiving, Goes,
  stays, goes, Reach,
}
use tcp_server_client.Server.Threads.Mutex.{holds, acc_holds, Reach-Locked}
use tcp_server_client.Server.Threads.Sockets.{listed, Reach-Owned}
use tcp_server_client.Server.Threads.Handlers.{serves}
use tcp_server_client.Server.Threads.Shut.{Reach-Shut}
use tcp_server_client.Server.Threads.Progress.{Goes-trans, Reach-Goes, update_self, Unmoved, freed}

-- The accept thread is aside, since it does not hold the mutex.
pub stays_aside :
    (s t : System) → acc_holds s.acc ≡ false → (acc_holds s.acc ≡ true) ⊎ Unmoved s t → Unmoved s t
stays_aside s t e (inl h) = cc
stays_aside s t e (inr a) = a

-- The thread `i` ends after some steps of threads.
abbrev pub CanEndAside : ℕ → System → Type 0
CanEndAside i s = (t : System) × Goes s t × (t.pc i ≡ ended) × Unmoved s t

then_ends : (i : ℕ) {s t : System} → Goes s t → Unmoved s t → CanEndAside i t → CanEndAside i s
then_ends i r a (u, q, e, b) = (u, Goes-trans r q, e, (b.0 ∙ a.0, b.1 ∙ a.1))

-- One step of the thread before the others.
next_ends : (i : ℕ) (s t : System) → Step s t → Unmoved s t → CanEndAside i t → CanEndAside i s
next_ends i s t st a e = then_ends i (goes stays st) a e

ends_closed : (i fd : ℕ) (s : System) → s.pc i ≡ closed fd → CanEndAside i s
ends_closed i fd s e =
    (_, goes stays (receiving i fd (ends e)), update_self s.pc i ended, (refl, refl))

ends_unlocked : (i fd : ℕ) (s : System) → s.pc i ≡ unlocked fd → CanEndAside i s
ends_unlocked i fd s e =
    next_ends i s _ (receiving i fd (closes e)) (refl, refl)
      (ends_closed i fd _ (update_self s.pc i (closed fd)))

ends_erased : (i fd : ℕ) (s : System) → s.pc i ≡ erased fd → CanEndAside i s
ends_erased i fd s e =
    next_ends i s _ (receiving i fd (unlocks e)) (refl, refl)
      (ends_unlocked i fd _ (update_self s.pc i (unlocked fd)))

ends_down : (i fd : ℕ) (s : System) → s.pc i ≡ down fd → CanEndAside i s
ends_down i fd s e =
    next_ends i s _ (receiving i fd (erases e)) (refl, refl)
      (ends_erased i fd _ (update_self s.pc i (erased fd)))

ends_closing : (i fd : ℕ) (s : System) → s.pc i ≡ closing fd → CanEndAside i s
ends_closing i fd s e =
    next_ends i s _ (receiving i fd (shuts_down e)) (refl, refl)
      (ends_down i fd _ (update_self s.pc i (down fd)))

ends_reading_free :
    (i fd : ℕ) (s : System)
    → s.pc i ≡ reading fd
    → s.lock ≡ free
    → s.connected fd ≡ false
    → CanEndAside i s
ends_reading_free i fd s e l c =
    next_ends i s _ (receiving i fd (breaks e l c)) (refl, refl)
      (ends_closing i fd _ (update_self s.pc i (closing fd)))

ends_looking :
    (i fd : ℕ) (s : System)
    → s.pc i ≡ looking fd
    → s.active fd ≡ true
    → s.connected fd ≡ false
    → CanEndAside i s
ends_looking i fd s e q c =
    next_ends i s _ (receiving i fd (finds e q)) (refl, refl)
      (ends_reading_free i fd _ (update_self s.pc i (reading fd)) refl c)

ends_begun_free :
    (i fd : ℕ) (s : System)
    → s.pc i ≡ begun fd
    → s.lock ≡ free
    → s.active fd ≡ true
    → s.connected fd ≡ false
    → CanEndAside i s
ends_begun_free i fd s e l q c =
    next_ends i s _ (receiving i fd (looks_up e l)) (refl, refl)
      (ends_looking i fd _ (update_self s.pc i (looking fd)) q c)

-- The connections in the map have ended, by the shutdown after the loop of the accept thread.
ends_reading :
    (i fd : ℕ) (s : System) → s.pc i ≡ reading fd → s.acc ≡ joining → Reach s → CanEndAside i s
ends_reading i fd s e j r =
    let (t, q, l, same, a) = freed s.lock s refl (Reach-Locked r) in
    let b = stays_aside s t (ap acc_holds j) a in
    let reading_on : t.pc i ≡ reading fd = same i (ap holds e) ∙ e in
    let there = (Reach-Owned (Reach-Goes r q)).thread_listed i fd (ap listed reading_on) in
    then_ends i q b
      (ends_reading_free i fd t reading_on l (Reach-Shut (Reach-Goes r q) (b.0 ∙ j) fd there))

ends_begun :
    (i fd : ℕ) (s : System) → s.pc i ≡ begun fd → s.acc ≡ joining → Reach s → CanEndAside i s
ends_begun i fd s e j r =
    let (t, q, l, same, a) = freed s.lock s refl (Reach-Locked r) in
    let b = stays_aside s t (ap acc_holds j) a in
    let begins : t.pc i ≡ begun fd = same i (ap holds e) ∙ e in
    let there = (Reach-Owned (Reach-Goes r q)).thread_listed i fd (ap listed begins) in
    then_ends i q b
      (ends_begun_free i fd t begins l there (Reach-Shut (Reach-Goes r q) (b.0 ∙ j) fd there))

pub ends_from :
    (i fd : ℕ) (p : Pc) (s : System)
    → s.pc i ≡ p
    → serves p ≡ some fd
    → s.acc ≡ joining
    → Reach s
    → CanEndAside i s
ends_from i fd (begun k) s e q j r = ends_begun i k s e j r
ends_from i fd (looking k) s e q j r =
    let there = (Reach-Owned r).thread_listed i k (ap listed e) in
    ends_looking i k s e there (Reach-Shut r j k there)
ends_from i fd (reading k) s e q j r = ends_reading i k s e j r
ends_from i fd (closing k) s e q j r = ends_closing i k s e
ends_from i fd (down k) s e q j r = ends_down i k s e
ends_from i fd (erased k) s e q j r = ends_erased i k s e
ends_from i fd (unlocked k) s e q j r = ends_unlocked i k s e
ends_from i fd (closed k) s e q j r = ends_closed i k s e
ends_from i fd _ s e q j r = cc
