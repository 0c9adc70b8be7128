-- ===== src/Workers/Prune.antt =====
-- The in-place removal of finished workers against a plain recursion on the list of workers.
use tcp_server_client.Prelude.{
  ℕ, zero, suc, ◌+◌, ◌-◌, ◌<◌, Bool, true, false, some, List, [], ◌∷◌, ◌++◌, length, map,
  length-append, append_assoc, ◌≡◌, refl, sym, ap, ◌∙◌, arith, ltb,
}
use tcp_server_client.Prelude.Int.{ℤ}
use tcp_server_client.Exec.{Os, Exec, Machine, pure, ◌>>=◌, ◌>>◌, bind_assoc, bind_congr}
use tcp_server_client.Framing.{size_mod, add_size}
use tcp_server_client.Workers.{
  Thread, Workers, get_elem?, erase_at, at, join_thread, is_running, prune_loop, prune,
}

-- A worker: its thread and its flag.
pub record Worker : Type 0 where
  pub thread : Thread
  pub flag : ℤ

abbrev pub vectors : List Worker → Workers
vectors ws = record { handlers = map (λ w. w.thread) ws; running = map (λ w. w.flag) ws }

module _ {A B : Type 0} (f : A → B) where
  get_elem?-map :
      (xs ys : List A) (a : A) → get_elem? (map f (xs ++ a ∷ ys)) (length xs) ≡ some (f a)
  unfolding get_elem?
  get_elem?-map [] ys a = refl
  get_elem?-map (x ∷ xs) ys a = get_elem?-map xs ys a

  erase_at-map :
      (xs ys : List A) (a : A) → erase_at (map f (xs ++ a ∷ ys)) (length xs) ≡ map f (xs ++ ys)
  unfolding erase_at
  erase_at-map [] ys a = refl
  erase_at-map (x ∷ xs) ys a = ap (◌∷◌ (f x)) (erase_at-map xs ys a)

  length-map : (xs : List A) → length (map f xs) ≡ length xs
  length-map [] = refl
  length-map (x ∷ xs) = ap suc (length-map xs)

next_index : (n : ℕ) → suc n < size_mod → add_size n 1 ≡ suc n
next_index n h = omega arith

same_index : (n : ℕ) → n < size_mod → add_size (add_size n (size_mod - 1)) 1 ≡ n
same_index n h = omega arith

module _ {S : Type 0} (os : Os) where
  -- A worker whose flag is set is kept; one whose flag is cleared is joined at once and left out.
  abbrev pub keep_or_join : Worker → Exec S (List Worker) → Bool → Exec S (List Worker)
  keep_or_join w others true = do ws ← others; pure (w ∷ ws)
  keep_or_join w others false = do join_thread os w.thread; others

  -- Every flag is read once, in order.
  unfoldable pub pruned : List Worker → Exec S (List Worker)
  pruned [] = pure []
  pruned (w ∷ ws) = is_running os w.flag >>= keep_or_join w (pruned ws)

  abbrev ending : List Worker → List Worker → Exec S Workers
  ending kept ws = pure (vectors (kept ++ ws))

  -- The rest of a round, for a flag that was read, at the worker after those that are kept.
  abbrev prune_case : ℕ → List Worker → Worker → List Worker → Bool → Exec S Workers
  prune_case fuel kept w rest true =
      prune_loop os fuel (add_size (length kept) 1) (length kept + suc (length rest))
        (vectors (kept ++ w ∷ rest))
  prune_case fuel kept w rest false = do
    join_thread os w.thread
    prune_loop os fuel (add_size (add_size (length kept) (size_mod - 1)) 1)
        (length kept + suc (length rest) - 1) (vectors (kept ++ rest))

  at-map :
      {A B : Type 0} (f : A → B) (xs ys : List A) (a : A)
      → at {S = S} (map f (xs ++ a ∷ ys)) (length xs) ≡ pure (f a)
  unfolding at
  at-map f xs ys a = rw (get_elem?-map f xs ys a, at)

  prune_loop-round :
      (fuel : ℕ) (kept : List Worker) (w : Worker) (rest : List Worker) (m : Machine S)
      → prune_loop os
          (suc fuel)
          (length kept)
          (length kept + suc (length rest))
          (vectors (kept ++ w ∷ rest))
          m
        ≡ (is_running os w.flag >>= prune_case fuel kept w rest) m
  unfolding prune_loop
  prune_loop-round fuel kept w rest m =
      rw (inside, prune_loop)
        (rw (at-map (λ (v : Worker). v.flag) kept rest w)
          (bind_congr (is_running os w.flag) after (prune_case fuel kept w rest) m same))
    where
      inside : ltb (length kept) (length kept + suc (length rest)) ≡ true
      inside = ground arith

      after : Bool → Exec S Workers
      after busy = elim busy [
        | true ↦
            prune_loop os fuel (add_size (length kept) 1) (length kept + suc (length rest))
              (vectors (kept ++ w ∷ rest))
        | false ↦ do
          t ← at (vectors (kept ++ w ∷ rest)).handlers (length kept)
          join_thread os t
          prune_loop os fuel (add_size (add_size (length kept) (size_mod - 1)) 1)
              (length kept + suc (length rest) - 1)
              (record {
                handlers = erase_at (vectors (kept ++ w ∷ rest)).handlers (length kept);
                running = erase_at (vectors (kept ++ w ∷ rest)).running (length kept);
              })
      ]

      same : (busy : Bool) (m' : Machine S) → after busy m' ≡ prune_case fuel kept w rest busy m'
      same true m' = refl
      same false m' = rw (
        at-map (λ (v : Worker). v.thread) kept rest w,
        erase_at-map (λ (v : Worker). v.thread) kept rest w,
        erase_at-map (λ (v : Worker). v.flag) kept rest w,
      )

module _ (S : Type 0) (os : Os) where
  -- What the loop is to do from index `i` on, for the workers before it and from it on.
  abbrev Refines : ℕ → List Worker → Type 0
  Refines fuel rest =
      (kept : List Worker) (i s : ℕ) (v : Workers) (m : Machine S)
      → i ≡ length kept
      → s ≡ length kept + length rest
      → v ≡ vectors (kept ++ rest)
      → length rest < fuel
      → length kept + length rest < size_mod
      → prune_loop {S = S} os fuel i s v m ≡ (pruned os rest >>= ending os kept) m

  prune_case-keep_or_join :
      (fuel : ℕ) (kept : List Worker) (w : Worker) (rest : List Worker)
      → Refines fuel rest
      → length rest < fuel
      → length kept + suc (length rest) < size_mod
      → (busy : Bool) (m : Machine S)
      → prune_case os fuel kept w rest busy m
        ≡ (keep_or_join os w (pruned os rest) busy >>= ending os kept) m
  prune_case-keep_or_join fuel kept w rest ih lt fits true m =
      ih (kept ++ w ∷ []) _ _ _ m (next_index (length kept) (omega arith) ∙ omega (arith, longer))
        (omega (arith, longer)) (ap vectors (sym (append_assoc kept (w ∷ []) rest))) (omega arith)
        (omega (arith, longer))
      ∙ bind_congr (pruned os rest) (ending os (kept ++ w ∷ [])) _ m
          (λ ws m'. ap (λ l. pure {S = S} (vectors l) m') (append_assoc kept (w ∷ []) ws))
      ∙ sym (bind_assoc (pruned os rest) (λ ws. pure (w ∷ ws)) (ending os kept) m)
    where
      longer : length (kept ++ w ∷ []) ≡ length kept + 1
      longer = length-append kept (w ∷ []) ∙ omega arith
  prune_case-keep_or_join fuel kept w rest ih lt fits false m =
      bind_congr (join_thread os w.thread) _ (λ _. pruned os rest >>= ending os kept) m
        (λ _ m'.
          ih kept _ _ _ m' (same_index (length kept) (omega arith)) (omega arith) refl (omega arith)
            (omega arith))
      ∙ sym (bind_assoc (join_thread os w.thread) (λ _. pruned os rest) (ending os kept) m)

  prune_loop-pruned : (rest : List Worker) (fuel : ℕ) → Refines fuel rest
  prune_loop-pruned rest zero kept i s v m ei es ev lt fits = absurd (omega arith)
  prune_loop-pruned [] (suc fuel) kept i s v m ei es ev lt fits =
      unfold prune_loop pruned in rw (outside, prune_loop) (rw ev)
    where
      outside : ltb i s ≡ false
      outside = ground arith
  prune_loop-pruned (w ∷ rest) (suc fuel) kept i s v m ei es ev lt fits =
      rw (ei, es, ev)
        (prune_loop-round os fuel kept w rest m
          ∙ bind_congr (is_running os w.flag) (prune_case os fuel kept w rest) _ m (
              prune_case-keep_or_join fuel kept w rest (prune_loop-pruned rest fuel) (omega arith)
                (omega arith))
          ∙ unfold pruned in
            sym (
              bind_assoc (is_running os w.flag) (keep_or_join os w (pruned os rest))
                (ending os kept) m))

  -- The loop over the two vectors ends without an index out of range, for fewer than 2^64 workers
  -- and whatever the flags say meanwhile, and does what the recursion over the list of workers does.
  pub prune-pruned :
      (ws : List Worker) (m : Machine S)
      → length ws < size_mod
      → prune os (vectors ws) m ≡ (pruned os ws >>= λ rest. pure (vectors rest)) m
  unfolding prune
  prune-pruned ws m fits =
      prune_loop-pruned ws (suc (length (vectors ws).running)) [] 0 (length (vectors ws).running)
        (vectors ws) m refl (omega (arith, length-map (λ (w : Worker). w.flag) ws)) refl
        (omega (arith, length-map (λ (w : Worker). w.flag) ws)) (omega arith)
