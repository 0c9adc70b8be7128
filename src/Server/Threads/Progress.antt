-- ===== src/Server/Threads/Progress.antt =====
-- What the interleaved threads of a server can always do: no thread waits for ever for the mutex.
use tcp_server_client.Prelude.{
  ℕ, true, false, ◌≡◌, ◌≢◌, refl, ◌∙◌, ap, arith, ◌⊎◌, inl, inr, Bool-cases,
}
use tcp_server_client.Server.Threads.{
  Owner, free, acceptor, thread, Pc, outside, looking, reading, closing, down, erased, unlocked,
  ended, checking, writing, AccPc, inserting, shutting, System, update, inserts, shuts, finds,
  misses, shuts_down, erases, unlocks, refuses, starts_writing, returns, Step, accepting, receiving,
  sending, Goes, stays, goes, later, Reach,
}
use tcp_server_client.Server.Threads.Mutex.{holds, acc_holds, Locked, Reach-Locked}

pub sooner : {s t u : System} → Step s t → Goes t u → Goes s u
sooner st stays = goes stays st
sooner st (goes r last) = goes (sooner st r) last

pub Goes-trans : {s t u : System} → Goes s t → Goes t u → Goes s u
Goes-trans r stays = r
Goes-trans r (goes q last) = goes (Goes-trans r q) last

pub Reach-Goes : {s t : System} → Reach s → Goes s t → Reach t
Reach-Goes r stays = r
Reach-Goes r (goes q last) = later (Reach-Goes r q) last

pub update_self : (f : ℕ → Pc) (i : ℕ) (p : Pc) → update f i p i ≡ p
update_self f i p = ground arith

pub update_other : (f : ℕ → Pc) (i j : ℕ) (p : Pc) → i ≢ j → update f i p j ≡ f j
update_other f i j p e = ground arith

-- The accept thread and the handlers are as they were.
abbrev pub Unmoved : System → System → Type 0
Unmoved s t = (t.acc ≡ s.acc) × (t.handlers ≡ s.handlers)

-- The mutex is free after steps of the thread `i` alone.
abbrev CanFreeAlone : ℕ → System → Type 0
CanFreeAlone i s =
    (t : System) × Goes s t × (t.lock ≡ free) × ((j : ℕ) → i ≢ j → t.pc j ≡ s.pc j) × Unmoved s t

-- One step of the thread before the others.
first :
    (i : ℕ) (p : Pc) (s t : System)
    → Step s t
    → t.pc ≡ update s.pc i p
    → Unmoved s t
    → CanFreeAlone i t
    → CanFreeAlone i s
first i p s t st e a (u, r, l, same, b) = (
  u,
  sooner st r,
  l,
  λ j q. same j q ∙ ap (λ (f : ℕ → Pc). f j) e ∙ update_other s.pc i j p q,
  (b.0 ∙ a.0, b.1 ∙ a.1),
)

-- The step that gives the mutex back.
last :
    (i : ℕ) (p : Pc) (s t : System)
    → Step s t
    → t.pc ≡ update s.pc i p
    → t.lock ≡ free
    → Unmoved s t
    → CanFreeAlone i s
last i p s t st e l a =
    (t, goes stays st, l, λ j q. ap (λ (f : ℕ → Pc). f j) e ∙ update_other s.pc i j p q, a)

freed_erased : (i fd : ℕ) (s : System) → s.pc i ≡ erased fd → CanFreeAlone i s
freed_erased i fd s e = last i (unlocked fd) s _ (receiving i fd (unlocks e)) refl refl (refl, refl)

freed_down : (i fd : ℕ) (s : System) → s.pc i ≡ down fd → CanFreeAlone i s
freed_down i fd s e =
    first i (erased fd) s _ (receiving i fd (erases e)) refl (refl, refl)
      (freed_erased i fd _ (update_self s.pc i (erased fd)))

freed_closing : (i fd : ℕ) (s : System) → s.pc i ≡ closing fd → CanFreeAlone i s
freed_closing i fd s e =
    first i (down fd) s _ (receiving i fd (shuts_down e)) refl (refl, refl)
      (freed_down i fd _ (update_self s.pc i (down fd)))

freed_looking : (i fd : ℕ) (s : System) → s.pc i ≡ looking fd → CanFreeAlone i s
freed_looking i fd s e = elim (Bool-cases (s.active fd)) [
  | inl q ↦ last i (reading fd) s _ (receiving i fd (finds e q)) refl refl (refl, refl)
  | inr q ↦ last i ended s _ (receiving i fd (misses e q)) refl refl (refl, refl)
]

freed_writing : (i fd : ℕ) (s : System) → s.pc i ≡ writing fd → CanFreeAlone i s
freed_writing i fd s e = last i outside s _ (sending i fd (returns e)) refl refl (refl, refl)

freed_checking : (i fd : ℕ) (s : System) → s.pc i ≡ checking fd → CanFreeAlone i s
freed_checking i fd s e = elim (Bool-cases (s.active fd)) [
  | inl q ↦
      first i (writing fd) s _ (sending i fd (starts_writing e q)) refl (refl, refl)
        (freed_writing i fd _ (update_self s.pc i (writing fd)))
  | inr q ↦ last i outside s _ (sending i fd (refuses e q)) refl refl (refl, refl)
]

freed_holder : (i : ℕ) (p : Pc) (s : System) → s.pc i ≡ p → holds p ≡ true → CanFreeAlone i s
freed_holder i (looking fd) s e h = freed_looking i fd s e
freed_holder i (closing fd) s e h = freed_closing i fd s e
freed_holder i (down fd) s e h = freed_down i fd s e
freed_holder i (erased fd) s e h = freed_erased i fd s e
freed_holder i (checking fd) s e h = freed_checking i fd s e
freed_holder i (writing fd) s e h = freed_writing i fd s e
freed_holder i _ s e h = cc

-- The mutex is free after some steps, and a thread that did not hold it has not moved.
abbrev pub CanFree : System → Type 0
CanFree s =
    (t : System) × Goes s t
    × (t.lock ≡ free)
    × ((j : ℕ) → holds (s.pc j) ≡ false → t.pc j ≡ s.pc j)
    × ((acc_holds s.acc ≡ true) ⊎ Unmoved s t)

freed_acceptor : (a : AccPc) (s : System) → s.acc ≡ a → acc_holds a ≡ true → CanFree s
freed_acceptor (inserting fd) s e h =
    (_, goes stays (accepting (inserts fd e)), refl, λ j _. refl, inl (ap acc_holds e))
freed_acceptor shutting s e h =
    (_, goes stays (accepting (shuts e)), refl, λ j _. refl, inl (ap acc_holds e))
freed_acceptor _ s e h = cc

pub freed : (o : Owner) (s : System) → s.lock ≡ o → Locked s → CanFree s
freed free s e h = (s, stays, e, λ j _. refl, inr (refl, refl))
freed acceptor s e h = freed_acceptor s.acc s refl (ground (arith, h.by_acceptor))
freed (thread i) s e h =
    let held : holds (s.pc i) ≡ true = ground (arith, h.by_thread i) in
    let (t, r, l, same, a) = freed_holder i (s.pc i) s refl held in
    (t, r, l, λ j q. same j (λ x. let clash = ap (λ k. holds (s.pc k)) x in cc), inr a)

-- Whoever holds the mutex can give it back: from every state that the threads can reach there are
-- steps after which it is free.
pub mutex_given_back : {s : System} → Reach s → (t : System) × Goes s t × (t.lock ≡ free)
mutex_given_back {s} r = let (t, q, l, _, _) = freed s.lock s refl (Reach-Locked r) in (t, q, l)
