-- ===== src/Server/Handlers.antt =====
-- The receive handlers of a server and their flags, which `listenConnection` keeps.
use Prim.Native.Nat.{◌≤◌}
use tcp_server_client.Prelude.{
  length, true, false, not, Option, none, some, List, [], ◌∷◌, ◌≡◌, refl, ◌∙◌, arith, Bool-cases,
  inl, inr,
}
use tcp_server_client.Prelude.Int.{ℤ, eqb_ℤ-refl, nonzero}
use tcp_server_client.Exec.{Os, Machine, Call, read_flag, spawn_receiver, Exception, system_error}
use tcp_server_client.Exec.Runs.{Settles, Returns, Returns-weaken, Runs-bind}
use tcp_server_client.Workers.{Thread}
use tcp_server_client.Maps.{find, set, erase, keys, find-set, find-erase}
use tcp_server_client.Maps.Ascending.{
  IsAbove, IsAscending, IsAscending-set, IsAscending-erase, ltb_ℤ-eqb_ℤ,
}
use tcp_server_client.Server.{Server}
use tcp_server_client.Server.Accept.{
  finished_handlers, join_thread, join_handler, remove_handlers, add_handler, check_replaced,
}

-- A connection has a handler that is joinable and a flag, or neither.
abbrev pub IsPaired : Option Thread → Option ℤ → Type 0
IsPaired none none = Unit
IsPaired (some t) (some flag) = t.joinable ≡ true
IsPaired (some _) none = ⊥
IsPaired none (some _) = ⊥

paired-some :
    (o : Option Thread) (f : Option ℤ) (flag : ℤ)
    → IsPaired o f
    → f ≡ some flag
    → (t : Thread) × (o ≡ some t) × (t.joinable ≡ true)
paired-some (some t) (some _) flag p e = (t, refl, p)
paired-some (some t) none flag p e = absurd p
paired-some none (some _) flag p e = absurd p
paired-some none none flag p e = cc

pub paired-joinable :
    (o : Option Thread) (f : Option ℤ) (t : Thread) → IsPaired o f → o ≡ some t → t.joinable ≡ true
paired-joinable (some u) (some _) t p e = cc
paired-joinable (some u) none t p e = absurd p
paired-joinable none (some _) t p e = absurd p
paired-joinable none none t p e = cc

-- The two maps of `listenConnection` between its rounds.
pub record IsTended {D : Type 0} (s : Server D) : Type 0 where
  pub ascending : IsAscending (keys s.rec_handlers)
  pub flags_ascending : IsAscending (keys s.rec_handlers_running)
  pub paired : (id : ℤ) → IsPaired (find id s.rec_handlers) (find id s.rec_handlers_running)

-- The connection whose receive thread was started last.
unfoldable pub last_receiver : List Call → Option ℤ
last_receiver [] = none
last_receiver (spawn_receiver id ∷ log) = some id
last_receiver (_ ∷ log) = last_receiver log

-- All of them are keys.
abbrev pub AllFound : List (ℤ × ℤ) → List ℤ → Type 0
AllFound m [] = Unit
AllFound m (id ∷ rest) = ((flag : ℤ) × (find id m ≡ some flag)) × AllFound m rest

AllFound-later :
    (k flag : ℤ) (m : List (ℤ × ℤ)) (l : List ℤ)
    → IsAbove k l
    → AllFound m l
    → AllFound ((k, flag) ∷ m) l
AllFound-later k flag m [] h a = tt
AllFound-later k flag m (id ∷ l) h a =
    ((a.0.0, unfold find in rw (ltb_ℤ-eqb_ℤ k id h.0) a.0.1), AllFound-later k flag m l h.1 a.1)

pub AllFound-keys : (m : List (ℤ × ℤ)) → IsAscending (keys m) → AllFound m (keys m)
AllFound-keys [] h = tt
AllFound-keys ((k, flag) ∷ m) h = (
  (flag, unfold find in rw (eqb_ℤ-refl k) refl),
  AllFound-later k flag m (keys m) h.0 (AllFound-keys m h.1),
)

AllFound-erase :
    (k : ℤ) (m : List (ℤ × ℤ)) (l : List ℤ) → IsAbove k l → AllFound m l → AllFound (erase k m) l
AllFound-erase k m [] h a = tt
AllFound-erase k m (id ∷ l) h a =
    ((a.0.0, find-erase k id m ∙ rw (ltb_ℤ-eqb_ℤ k id h.0) a.0.1), AllFound-erase k m l h.1 a.1)

module _ (D : Type 0) (os : Os) where
  -- The flags that are cleared belong to a part of the connections, in order.
  pub finished_handlers-Returns :
      (flags l : List (ℤ × ℤ)) (m : Machine (Server D))
      → IsAscending (keys l)
      → AllFound flags (keys l)
      → Returns
          (λ ids m'.
            (m'.self ≡ m.self)
            × (last_receiver m'.log ≡ last_receiver m.log)
            × (length m.log ≤ length m'.log)
            × IsAscending ids
            × AllFound flags ids
            × ((k : ℤ) → IsAbove k (keys l) → IsAbove k ids))
          (finished_handlers os l m)
  unfolding finished_handlers last_receiver
  finished_handlers-Returns flags [] m h a = (refl, refl, omega arith, tt, tt, λ k x. x)
  finished_handlers-Returns flags ((id, flag) ∷ l) m h a =
      Runs-bind _ (λ _. ⊥) (finished_handlers os l) _ (record m { log = read_flag flag ∷ m.log })
        (finished_handlers-Returns flags l (record m { log = read_flag flag ∷ m.log }) h.1 a.1)
        (λ ids m' q. elim (Bool-cases (not (nonzero (os.result m.log (read_flag flag))))) [
          | inl e ↦
              rw e (
                q.0,
                q.1,
                omega (arith, q.2),
                (q.5 id h.0, q.3),
                (a.0, q.4),
                λ k x. (x.0, q.5 k x.1),
              )
          | inr e ↦ rw e (q.0, q.1, omega (arith, q.2), q.3, q.4, λ k x. q.5 k x.1)
        ])

  -- The thread of a handler is joined.
  pub join_handler-Returns :
      (id flag : ℤ) (m : Machine (Server D))
      → IsTended m.self
      → find id m.self.rec_handlers_running ≡ some flag
      → Returns
          (λ _ m'.
            (t : Thread) × (t.joinable ≡ false)
            × (m'.self ≡ record m.self { rec_handlers = set id t m.self.rec_handlers })
            × (last_receiver m'.log ≡ last_receiver m.log)
            × (length m.log ≤ length m'.log))
          (join_handler os id m)
  unfolding join_handler join_thread last_receiver
  join_handler-Returns id flag m h e =
      let (t, found, joinable) = paired-some _ _ flag (h.paired id) e in
      rw found (
        unfold join_thread in
        rw joinable (record t { joinable = false }, refl, refl, refl, omega arith))

  -- After the removal of handlers: the maps are well-formed, and the last thread started is the same.
  abbrev pub Tended : Machine (Server D) → Machine (Server D) → Type 0
  Tended m m' =
      IsTended m'.self
      × (last_receiver m'.log ≡ last_receiver m.log)
      × (length m.log ≤ length m'.log)

  erased-IsTended :
      (id : ℤ) (t : Thread) (s : Server D)
      → IsTended s
      → IsTended (record s {
        rec_handlers = erase id (set id t s.rec_handlers);
        rec_handlers_running = erase id s.rec_handlers_running;
      })
  erased-IsTended id t s h = record {
    ascending =
        IsAscending-erase id (set id t s.rec_handlers)
          (IsAscending-set id t s.rec_handlers h.ascending);
    flags_ascending = IsAscending-erase id s.rec_handlers_running h.flags_ascending;
    paired = λ k.
        rw
          (
            find-erase id k (set id t s.rec_handlers),
            find-set id k t s.rec_handlers,
            find-erase id k s.rec_handlers_running,
          )
          (ground (arith, h.paired k));
  }

  pub remove_handlers-Returns :
      (ids : List ℤ) (m : Machine (Server D))
      → IsTended m.self
      → IsAscending ids
      → AllFound m.self.rec_handlers_running ids
      → Returns (λ _. Tended m) (remove_handlers os ids m)
  unfolding remove_handlers
  remove_handlers-Returns [] m h up found = (h, refl, omega arith)
  remove_handlers-Returns (id ∷ rest) m h up found =
      Runs-bind (λ _. Tended m) (λ _. ⊥) (join_handler os id) _ m
        (join_handler-Returns id found.0.0 m h found.0.1)
        (λ _ m1 q.
          let (t, off, same, last, longer) = q in
          let next : Server D = record m.self {
            rec_handlers = erase id (set id t m.self.rec_handlers);
            rec_handlers_running = erase id m.self.rec_handlers_running;
          } in
          rw same (
            Returns-weaken (λ _. Tended m)
              (remove_handlers os rest (record { self = next; log = m1.log }))
              (λ _ m2 r. (r.0, r.1 ∙ last, omega (arith, r.2)))
              (remove_handlers-Returns rest (record { self = next; log = m1.log })
                (erased-IsTended id t m.self h) up.1
                (AllFound-erase id m.self.rec_handlers_running rest up.0 found.1))))

  -- The number of the newest connection still has a handler that has not been joined.
  abbrev pub IsReused : Exception → Machine (Server D) → Type 0
  IsReused e m =
      (e ≡ system_error)
      × ((id : ℤ) × (t : Thread) × (last_receiver m.log ≡ some id)
          × (find id m.self.rec_handlers ≡ some t)
          × (t.joinable ≡ true))

  added-IsTended :
      (id handle : ℤ) (s : Server D)
      → IsTended s
      → IsTended (record s {
        rec_handlers = set id (record { handle = handle; joinable = true }) s.rec_handlers;
        rec_handlers_running = set id handle s.rec_handlers_running;
      })
  added-IsTended id handle s h = record {
    ascending = IsAscending-set id _ s.rec_handlers h.ascending;
    flags_ascending = IsAscending-set id handle s.rec_handlers_running h.flags_ascending;
    paired = λ k.
        rw
          (
            find-set id k (record { handle = handle; joinable = true }) s.rec_handlers,
            find-set id k handle s.rec_handlers_running,
          )
          (ground (arith, h.paired k));
  }

  pub add_handler-Settles :
      (R : Machine (Server D) → Type 0) (old : Option Thread) (id handle : ℤ)
      (m : Machine (Server D))
      → find id m.self.rec_handlers ≡ old
      → last_receiver m.log ≡ some id
      → IsTended m.self
      → Settles
          (λ _ m'. IsTended m'.self × (length m.log ≤ length m'.log))
          IsReused
          R
          (add_handler os id handle m)
  unfolding add_handler check_replaced
  add_handler-Settles R none id handle m e last h =
      rw e (added-IsTended id handle m.self h, omega arith)
  add_handler-Settles R (some t) id handle m e last h =
      let joinable : t.joinable ≡ true = paired-joinable _ _ t (h.paired id) e in
      rw e (rw joinable (refl, (id, t, last, e, joinable)))
