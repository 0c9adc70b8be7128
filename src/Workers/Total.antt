-- ===== src/Workers/Total.antt =====
-- The removal and the join of workers (Workers) whose threads are all joinable.
use Prim.Native.Nat.{◌≤◌}
use tcp_server_client.Prelude.{
  ℕ, suc, ◌<◌, Bool, true, false, List, [], ◌∷◌, length, ◌≡◌, refl, arith, ◌++◌,
}
use tcp_server_client.Prelude.Int.{nonzero}
use tcp_server_client.Exec.{Os, Exec, Machine, read_flag, join_worker}
use tcp_server_client.Exec.Runs.{Returns, Runs-bind, Returns-weaken}
use tcp_server_client.Exec.Trace.{IsQuiet, IsQuiet-refl, IsQuiet-call, IsQuiet-trans}
use tcp_server_client.Framing.{size_mod}
use tcp_server_client.Workers.{Thread, join_thread, join_all, prune}
use tcp_server_client.Workers.Prune.{Worker, vectors, keep_or_join, pruned, prune-pruned}

abbrev pub AllJoinable : List Worker → Type 0
AllJoinable [] = Unit
AllJoinable (w ∷ ws) = (w.thread.joinable ≡ true) × AllJoinable ws

pub AllJoinable-concat :
    (ws : List Worker) (w : Worker)
    → AllJoinable ws
    → w.thread.joinable ≡ true
    → AllJoinable (ws ++ w ∷ [])
AllJoinable-concat [] w all j = (j, tt)
AllJoinable-concat (v ∷ ws) w all j = (all.0, AllJoinable-concat ws w all.1 j)

module _ (S : Type 0) (os : Os) where
  -- Some of `n` workers, all joinable, after calls that neither read nor hand on a message.
  abbrev pub Left : ℕ → Machine S → List Worker → Machine S → Type 0
  Left n m ws m' = AllJoinable ws × (length ws ≤ n) × IsQuiet os m m'

  read_flag-IsQuiet :
      (m : Machine S) (w : Worker) → IsQuiet os m (record m { log = read_flag w.flag ∷ m.log })
  read_flag-IsQuiet m w = IsQuiet-call os m (read_flag w.flag) refl refl (λ _. refl)

  join_thread-Returns :
      (t : Thread) (m : Machine S)
      → t.joinable ≡ true
      → Returns (λ _ m'. IsQuiet os m m') (join_thread os t m)
  unfolding join_thread
  join_thread-Returns t m j =
      rw (j, join_thread) (IsQuiet-call os m (join_worker t.handle) refl refl (λ _. refl))

  keep_or_join-Returns :
      (n : ℕ) (w : Worker) (others : Exec S (List Worker))
      → w.thread.joinable ≡ true
      → ((m : Machine S) → Returns (Left n m) (others m))
      → (busy : Bool) (m : Machine S) → Returns (Left (suc n) m) (keep_or_join os w others busy m)
  keep_or_join-Returns n w others j ih true m =
      Runs-bind (Left (suc n) m) (λ _. ⊥) others _ m (ih m)
        (λ ws m' h. ((j, h.0), omega arith, h.2))
  keep_or_join-Returns n w others j ih false m =
      Runs-bind (Left (suc n) m) (λ _. ⊥) (join_thread os w.thread) _ m
        (join_thread-Returns w.thread m j)
        (λ _ m' q.
          Returns-weaken (Left (suc n) m) (others m')
            (λ ws m'' h. (h.0, omega arith, IsQuiet-trans os q h.2)) (ih m'))

  pruned-Returns :
      (ws : List Worker) (m : Machine S)
      → AllJoinable ws
      → Returns (Left (length ws) m) (pruned os ws m)
  unfolding pruned
  pruned-Returns [] m all = (tt, omega arith, IsQuiet-refl os m)
  pruned-Returns (w ∷ ws) m all =
      Returns-weaken (Left (suc (length ws)) m) _
        (λ rest m' h. (h.0, h.1, IsQuiet-trans os (read_flag-IsQuiet m w) h.2))
        (keep_or_join-Returns (length ws) w (pruned os ws) all.0 (λ m'. pruned-Returns ws m' all.1)
          (nonzero (os.result m.log (read_flag w.flag)))
          (record m { log = read_flag w.flag ∷ m.log }))

  -- Removing the finished ones of fewer than 2^64 joinable workers returns, and leaves workers that
  -- are joinable and no more than there were.
  pub prune-Returns :
      (ws : List Worker) (m : Machine S)
      → AllJoinable ws
      → length ws < size_mod
      → Returns
          (λ w m'. (rest : List Worker) × (w ≡ vectors rest) × Left (length ws) m rest m')
          (prune os (vectors ws) m)
  prune-Returns ws m all fits = rw (prune-pruned S os ws m fits) (
      Runs-bind _ (λ _. ⊥) (pruned os ws) _ m (pruned-Returns ws m all)
        (λ rest m' h. (rest, refl, h)))

  pub join_all-Returns :
      (ws : List Worker) (m : Machine S)
      → AllJoinable ws
      → Returns (λ _ m'. IsQuiet os m m') (join_all os (vectors ws).handlers m)
  unfolding join_all
  join_all-Returns [] m all = IsQuiet-refl os m
  join_all-Returns (w ∷ ws) m all =
      Runs-bind (λ _ m'. IsQuiet os m m') (λ _. ⊥) (join_thread os w.thread) _ m
        (join_thread-Returns w.thread m all.0)
        (λ _ m' q.
          Returns-weaken (λ _ m''. IsQuiet os m m'') (join_all os (vectors ws).handlers m')
            (λ _ m'' h. IsQuiet-trans os q h) (join_all-Returns ws m' all.1))
