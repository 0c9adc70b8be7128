-- ===== src/Server/Threads/Reuse.antt =====
-- A socket number that the system hands out anew while the thread that closed it still waits for its
-- workers.
use tcp_server_client.Prelude.{ℕ, true, false, some, ◌≡◌, ◌≢◌, refl, sym, ◌∙◌, ap, arith}
use tcp_server_client.Server.Threads.{
  free, outside, begun, closed, looping, spawned, crashed, System, update, is_some, init, goes_on,
  accepts, locks_to_insert, inserts, spawns, sees_running, registers, terminates, looks_up, finds,
  breaks, shuts_down, erases, unlocks, closes, accepting, receiving, sets_running, Steps, here,
  later, broken, turned_away, Reach,
}
use tcp_server_client.Server.Threads.Progress.{update_self, update_other}

Steps-trans : {s t u : System} → Steps s t → Steps t u → Steps s u
Steps-trans r here = r
Steps-trans r (later q last) = later (Steps-trans r q) last
Steps-trans r (broken fd q) = broken fd (Steps-trans r q)
Steps-trans r (turned_away q) = turned_away (Steps-trans r q)

-- The accept thread takes a new connection and starts the thread `i` for it.
takes :
    (s : System) (fd i : ℕ)
    → s.acc ≡ looping
    → s.running ≡ true
    → s.lock ≡ free
    → s.is_open fd ≡ false
    → s.listening ≡ true
    → s.pc i ≡ outside
    → Steps s (record s {
      lock = free;
      is_open = update s.is_open fd true;
      connected = update s.connected fd true;
      active = update s.active fd true;
      acc = spawned fd i;
      pc = update s.pc i (begun fd);
      unread = λ k. is_some (s.handlers k);
      to_remove = λ _. false;
    })
takes s fd i e on l shut listens out =
    later
      (later
        (later
          (later (later here (accepting (goes_on e on))) (accepting (accepts fd refl shut listens)))
          (accepting (locks_to_insert fd refl l)))
        (accepting (inserts fd refl)))
      (accepting (spawns fd i refl out))

-- The thread `i` serves its connection until the peer ends that and it has closed the socket.
serves_to_close :
    (s : System) (fd i : ℕ)
    → s.pc i ≡ begun fd
    → s.lock ≡ free
    → s.active fd ≡ true
    → (t : System) × Steps s t
      × (t ≡ record s {
        lock = free;
        active = update s.active fd false;
        is_open = update s.is_open fd false;
        connected = update (update s.connected fd false) fd false;
        pc = t.pc;
      })
      × (t.pc i ≡ closed fd)
      × ((j : ℕ) → i ≢ j → t.pc j ≡ s.pc j)
serves_to_close s fd i e l q = (
  _,
  later
      (later
        (later
          (later
            (later
              (broken fd (
                later (later here (receiving i fd (looks_up e l)))
                  (receiving i fd (finds (ground arith) q))))
              (receiving i fd (breaks (ground arith) refl (ground arith))))
            (receiving i fd (shuts_down (ground arith))))
          (receiving i fd (erases (ground arith))))
        (receiving i fd (unlocks (ground arith))))
      (receiving i fd (closes (ground arith))),
  refl,
  ground arith,
  λ j x. ground arith,
)

-- The first connection: it has been accepted, and its thread is registered.
abbrev pub first_open : ℕ → ℕ → System
first_open fd i = record init {
  running = true;
  is_open = update init.is_open fd true;
  connected = update init.connected fd true;
  active = update init.active fd true;
  handlers = update init.handlers fd (some i);
  pc = update init.pc i (begun fd);
}

pub first_open-Reach : (fd i : ℕ) → Reach (first_open fd i)
first_open-Reach fd i =
    later
      (Steps-trans (later here (sets_running true))
        (takes (record init { running = true }) fd i refl refl refl refl refl refl))
      (accepting (registers fd i refl refl (λ n. refl)))

-- A new connection that gets the number of one that has been closed, while the thread that closed it
-- still waits for its workers, ends the program: the accept thread assigns the new thread to the
-- handler of the old one, which is joinable. Any number and any two threads do.
pub reuse_crashes :
    (fd i j : ℕ)
    → i ≢ j
    → (s : System) × Reach s × (s.acc ≡ crashed) × (s.pc i ≡ closed fd) × (s.pc j ≡ begun fd)
reuse_crashes fd i j differ =
    let (t, run, same, old, others) =
      serves_to_close (first_open fd i) fd i (update_self init.pc i (begun fd)) refl
        (ground arith) in
    let again =
      takes t fd j (ap (λ (s : System). s.acc) same) (ap (λ (s : System). s.running) same)
        (ap (λ (s : System). s.lock) same) (ap (λ (s : System). s.is_open fd) same ∙ ground arith)
        (ap (λ (s : System). s.listening) same)
        (others j differ ∙ update_other init.pc i j (begun fd) differ) in
    let there : t.handlers fd ≡ some i = ap (λ (s : System). s.handlers fd) same ∙ ground arith in
    let lone : (n : ℕ) → update (λ k. is_some (t.handlers k)) fd false n ≡ false =
      λ n. ground (arith, ap (λ (s : System). s.handlers n) same) in
    (
      _,
      later
          (later (Steps-trans (Steps-trans (first_open-Reach fd i) run) again) (
            accepting (
              sees_running fd j fd i refl (rw there refl) there (λ over. ground (
                arith,
                over,
                old,
                differ,
                update_other t.pc j i (begun fd) (λ e. differ (sym e)),
              )))))
          (accepting (terminates fd j i refl there (λ n. ground (arith, lone n)))),
      refl,
      update_other t.pc j i (begun fd) (λ e. differ (sym e)) ∙ old,
      update_self t.pc j (begun fd),
    )
