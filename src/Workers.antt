-- ===== src/Workers.antt =====
-- The threads that work on messages: `workHandlers` and `workHandlersRunning` of the receive loops
-- (src/template/Server.hpp, src/template/Client.hpp).
pub mod Prune
pub mod Total
use tcp_server_client.Prelude.{
  ℕ, zero, suc, ◌+◌, ◌-◌, ◌%◌, Bool, true, false, Option, none, some, List, [], ◌∷◌, ◌++◌, length,
  ltb, if◌then◌else◌,
}
use tcp_server_client.Prelude.Int.{ℤ, nonzero}
use tcp_server_client.Exec.{
  Os, Exec, Call, read_flag, join_worker, system_error, undefined_behaviour, pure, throw, diverge,
  call, ◌>>=◌, ◌>>◌,
}
use tcp_server_client.Framing.{size_mod, add_size}

-- A `std::thread`: its handle, and whether it is joinable.
pub record Thread : Type 0 where
  pub handle : ℤ
  pub joinable : Bool

-- The two vectors. A flag is the handle of the thread that clears it.
pub record Workers : Type 0 where
  pub handlers : List Thread
  pub running : List ℤ

abbrev pub no_workers : Workers
no_workers = record { handlers = []; running = [] }

module _ {A : Type 0} where
  unfoldable pub get_elem? : List A → ℕ → Option A
  get_elem? [] i = none
  get_elem? (x ∷ xs) zero = some x
  get_elem? (x ∷ xs) (suc i) = get_elem? xs i

  -- `v.erase(v.begin() + i)`
  unfoldable pub erase_at : List A → ℕ → List A
  erase_at [] i = []
  erase_at (x ∷ xs) zero = xs
  erase_at (x ∷ xs) (suc i) = x ∷ erase_at xs i

  -- `v[i]`, which is undefined out of range.
  unfoldable pub at : {S : Type 0} → List A → ℕ → Exec S A
  unfolding get_elem?
  at xs i = elim (get_elem? xs i) [ none ↦ throw undefined_behaviour | some x ↦ pure x ]

module _ {S : Type 0} (os : Os) where
  -- `std::thread::join`, which throws on a thread that is not joinable.
  unfoldable pub join_thread : Thread → Exec S (Unit {0})
  join_thread t =
      if t.joinable then (call os (join_worker t.handle) >> pure tt) else throw system_error

  -- `*workHandlersRunning[i]`
  abbrev pub is_running : ℤ → Exec S Bool
  is_running flag = do r ← call os (read_flag flag); pure (nonzero r)

  -- `for (i = 0; i < s; i += 1)`, where `i -= 1` and `s -= 1` follow an erased entry. The index is
  -- a `size_t`: it may wrap below 0 and is then brought back by `i += 1`.
  unfoldable pub prune_loop : ℕ → ℕ → ℕ → Workers → Exec S Workers
  unfolding at join_thread erase_at
  prune_loop zero i s w = diverge
  prune_loop (suc fuel) i s w = elim (ltb i s) [
    | false ↦ pure w
    | true ↦ do
      flag ← at w.running i
      busy ← is_running flag
      elim busy [
        | true ↦ prune_loop fuel (add_size i 1) s w
        | false ↦ do
          t ← at w.handlers i
          join_thread t
          prune_loop fuel (add_size (add_size i (size_mod - 1)) 1) (s - 1)
              (record { handlers = erase_at w.handlers i; running = erase_at w.running i })
      ]
  ]

  -- "Remove all finished work handlers from the vector"
  unfoldable pub prune : Workers → Exec S Workers
  unfolding prune_loop
  prune w = prune_loop (suc (length w.running)) 0 (length w.running) w

  -- Wait for all work handlers to finish: `for (auto &it : workHandlers) it.join();`
  unfoldable pub join_all : List Thread → Exec S (Unit {0})
  unfolding join_thread
  join_all [] = pure tt
  join_all (t ∷ ts) = join_thread t >> join_all ts
