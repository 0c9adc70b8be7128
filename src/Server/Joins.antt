-- ===== src/Server/Joins.antt =====
-- The end of `Server::listenConnection`: every receive handler is joined once.
use tcp_server_client.Prelude.{
  true, false, some, List, [], ◌∷◌, ◌≡◌, refl, sym, subst, ◌∙◌, arith, Bool-cases, inl, inr, ◌⊎◌,
}
use tcp_server_client.Prelude.Int.{ℤ, eqb_ℤ, eqb_ℤ_iff, eqb_ℤ-refl}
use tcp_server_client.Exec.{Os, Machine, ok, join_receiver}
use tcp_server_client.Exec.Runs.{Returns, Runs-bind}
use tcp_server_client.Workers.{Thread}
use tcp_server_client.Maps.{find, set, keys, find-set}
use tcp_server_client.Maps.Ascending.{IsAbove, IsAscending, find-IsAbove, ltb_ℤ-eqb_ℤ}
use tcp_server_client.Server.{Server}
use tcp_server_client.Server.Accept.{
  join_handler, join_handlers, join_thread, shutdown_all, finish_accepting,
}
use tcp_server_client.Server.Handlers.{IsTended, paired-joinable}
use tcp_server_client.Server.Restart.{shutdown_all-same}

-- Every thread that can be joined belongs to one of these connections.
abbrev IsIn : ℤ → List ℤ → Type 0
IsIn k [] = ⊥
IsIn k (i ∷ rest) = (i ≡ k) ⊎ IsIn k rest

abbrev Threads : Type 0
Threads = List (ℤ × Thread)

abbrev pub NoneJoinable : Threads → Type 0
NoneJoinable m = (k : ℤ) (t : Thread) → find k m ≡ some t → t.joinable ≡ false

abbrev OnlyIn : Threads → List ℤ → Type 0
OnlyIn m ids = (k : ℤ) (t : Thread) → find k m ≡ some t → t.joinable ≡ true → IsIn k ids

abbrev AllWait : Threads → List ℤ → Type 0
AllWait m [] = Unit
AllWait m (id ∷ rest) = ((t : Thread) × (find id m ≡ some t) × (t.joinable ≡ true)) × AllWait m rest

OnlyIn-keys : (m : Threads) → OnlyIn m (keys m)
unfolding find
OnlyIn-keys [] k t e j = cc
OnlyIn-keys ((i, u) ∷ m) k t e j = elim (Bool-cases (eqb_ℤ i k)) [
  | inl q ↦ inl ((eqb_ℤ_iff i k).0 q)
  | inr q ↦ inr (OnlyIn-keys m k t (rw q at e) j)
]

AllWait-later :
    (i : ℤ) (u : Thread) (m : Threads) (l : List ℤ)
    → IsAbove i l
    → AllWait m l
    → AllWait ((i, u) ∷ m) l
unfolding find
AllWait-later i u m [] h a = tt
AllWait-later i u m (id ∷ l) h a =
    ((a.0.0, rw (ltb_ℤ-eqb_ℤ i id h.0) a.0.1, a.0.2), AllWait-later i u m l h.1 a.1)

AllWait-set :
    (i : ℤ) (u : Thread) (m : Threads) (l : List ℤ)
    → IsAbove i l
    → AllWait m l
    → AllWait (set i u m) l
AllWait-set i u m [] h a = tt
AllWait-set i u m (id ∷ l) h a = (
  (a.0.0, find-set i id u m ∙ rw (ltb_ℤ-eqb_ℤ i id h.0) a.0.1, a.0.2),
  AllWait-set i u m l h.1 a.1,
)

-- All handlers wait to be joined, if all threads are joinable.
AllWait-keys :
    (m : Threads)
    → IsAscending (keys m)
    → ((k : ℤ) (t : Thread) → find k m ≡ some t → t.joinable ≡ true)
    → AllWait m (keys m)
unfolding find
AllWait-keys [] h all = tt
AllWait-keys ((i, u) ∷ m) h all = (
  (u, rw (eqb_ℤ-refl i) refl, all i u (rw (eqb_ℤ-refl i) refl)),
  AllWait-later i u m (keys m) h.0 (
      AllWait-keys m h.1 (λ k t e. elim (Bool-cases (eqb_ℤ i k)) [
        | inl q ↦
            let gone = find-IsAbove i m h.0 in
            let same = (eqb_ℤ_iff i k).0 q in ground (arith, gone, same, e)
        | inr q ↦ all k t (rw q e)
      ])),
)

module _ (D : Type 0) (os : Os) where
  join_handler-joins :
      (id : ℤ) (t : Thread) (m : Machine (Server D))
      → find id m.self.rec_handlers ≡ some t
      → t.joinable ≡ true
      → join_handler os id m ≡ (
        ok tt,
        record {
          self = record m.self {
            rec_handlers = set id (record t { joinable = false }) m.self.rec_handlers;
          };
          log = join_receiver t.handle ∷ m.log;
        },
      )
  unfolding join_handler join_thread
  join_handler-joins id t m e j = rw e (unfold join_thread in rw j refl)

  join_handlers-Returns :
      (ids : List ℤ) (m : Machine (Server D))
      → IsAscending ids
      → AllWait m.self.rec_handlers ids
      → OnlyIn m.self.rec_handlers ids
      → Returns (λ _ m'. NoneJoinable m'.self.rec_handlers) (join_handlers os ids m)
  unfolding join_handlers
  join_handlers-Returns [] m up wait only =
      λ k t e. elim (Bool-cases t.joinable) [ inl j ↦ absurd (only k t e j) | inr j ↦ j ]
  join_handlers-Returns (id ∷ rest) m up wait only =
      let (t, found, j) = wait.0 in
      rw (join_handler-joins id t m found j) (
        join_handlers-Returns rest _ up.1
          (AllWait-set id (record t { joinable = false }) m.self.rec_handlers rest up.0 wait.1)
          (λ k u e q. elim (Bool-cases (eqb_ℤ id k)) [
            | inl x ↦
                let new =
                  sym (find-set id k (record t { joinable = false }) m.self.rec_handlers) ∙ e in
                ground (arith, new, x, q)
            | inr x ↦
                let old =
                  sym (find-set id k (record t { joinable = false }) m.self.rec_handlers) ∙ e in
                let place = only k u (rw x at old) q in ground (arith, place, x, eqb_ℤ_iff id k)
          ]))

  -- After the loop every receive thread that was not joined before is joined, once.
  pub finish_accepting-Returns :
      (m : Machine (Server D))
      → IsTended m.self
      → Returns (λ _ m'. NoneJoinable m'.self.rec_handlers) (finish_accepting os m)
  unfolding finish_accepting
  finish_accepting-Returns m h =
      Runs-bind (λ _ m'. NoneJoinable m'.self.rec_handlers) (λ _. ⊥)
        (shutdown_all os (keys m.self.active_connections)) _ m
        (shutdown_all-same D os (keys m.self.active_connections) m)
        (λ _ m' same.
          let kept = subst IsTended (sym same) h in
          join_handlers-Returns (keys m'.self.rec_handlers) m' kept.ascending
            (AllWait-keys m'.self.rec_handlers kept.ascending
              (λ k t e. paired-joinable _ _ t (kept.paired k) e))
            (OnlyIn-keys m'.self.rec_handlers))
