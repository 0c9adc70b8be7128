-- ===== src/Exec/Runs.antt =====
-- What holds after an action, as rules for its parts.
use tcp_server_client.Prelude.{Bool, true, false, if◌then◌else◌, ◌≡◌, refl, ◌∷◌}
use tcp_server_client.Exec.{
  Exception, Exec, Machine, Outcome, ok, throws, diverges, continue, ◌>>=◌, Os, Call, require,
}
use tcp_server_client.Prelude.Int.{ℤ}

module _ {S A : Type 0} where
  -- The action returns a value and a state that satisfy `Q`, or runs out of fuel in a state that
  -- satisfies `R`. It does not throw.
  abbrev pub RunsTo :
      (A → Machine S → Type 0) → (Machine S → Type 0) → Outcome A → Machine S → Type 0
  RunsTo Q R (ok a) m = Q a m
  RunsTo Q R (throws e) m = ⊥
  RunsTo Q R diverges m = R m

  abbrev pub Runs : (A → Machine S → Type 0) → (Machine S → Type 0) → Outcome A × Machine S → Type 0
  Runs Q R r = RunsTo Q R r.0 r.1

  -- It returns, and never runs out of fuel.
  abbrev pub Returns : (A → Machine S → Type 0) → Outcome A × Machine S → Type 0
  Returns Q = Runs Q (λ _. ⊥)

  RunsTo-weaken :
      {Q Q' : A → Machine S → Type 0} {R R' : Machine S → Type 0} (r : Outcome A) (m : Machine S)
      → ((a : A) (m' : Machine S) → Q a m' → Q' a m')
      → ((m' : Machine S) → R m' → R' m')
      → RunsTo Q R r m
      → RunsTo Q' R' r m
  RunsTo-weaken (ok a) m q r h = q a m h
  RunsTo-weaken (throws e) m q r h = h
  RunsTo-weaken diverges m q r h = r m h

  pub Runs-weaken :
      {Q Q' : A → Machine S → Type 0} {R R' : Machine S → Type 0} (r : Outcome A × Machine S)
      → ((a : A) (m' : Machine S) → Q a m' → Q' a m')
      → ((m' : Machine S) → R m' → R' m')
      → Runs Q R r
      → Runs Q' R' r
  Runs-weaken r q h t = RunsTo-weaken r.0 r.1 q h t

  pub Returns-weaken :
      (Q' : A → Machine S → Type 0) {Q : A → Machine S → Type 0} (r : Outcome A × Machine S)
      → ((a : A) (m' : Machine S) → Q a m' → Q' a m')
      → Returns Q r
      → Returns Q' r
  Returns-weaken Q' r q t = RunsTo-weaken r.0 r.1 q (λ _ e. e) t

  RunsTo-both :
      (Q Q' : A → Machine S → Type 0) (r : Outcome A) (m : Machine S)
      → RunsTo Q (λ _. ⊥) r m
      → RunsTo Q' (λ _. ⊥) r m
      → RunsTo (λ a m'. Q a m' × Q' a m') (λ _. ⊥) r m
  RunsTo-both Q Q' (ok a) m h h' = (h, h')
  RunsTo-both Q Q' (throws e) m h h' = h
  RunsTo-both Q Q' diverges m h h' = h

  -- Two properties of one run.
  pub Returns-both :
      (Q Q' : A → Machine S → Type 0) (r : Outcome A × Machine S)
      → Returns Q r
      → Returns Q' r
      → Returns (λ a m'. Q a m' × Q' a m') r
  Returns-both Q Q' r h h' = RunsTo-both Q Q' r.0 r.1 h h'

  RunsTo-itself :
      (Q : A → Machine S → Type 0) (r : Outcome A) (m : Machine S)
      → RunsTo Q (λ _. ⊥) r m
      → RunsTo (λ a m'. ◌≡◌ {A = Outcome A × Machine S} (r, m) (ok a, m') × Q a m') (λ _. ⊥) r m
  RunsTo-itself Q (ok a) m h = (refl, h)
  RunsTo-itself Q (throws e) m h = h
  RunsTo-itself Q diverges m h = h

  -- What a run returns is what is known of.
  pub Returns-itself :
      (Q : A → Machine S → Type 0) (r : Outcome A × Machine S)
      → Returns Q r
      → Returns (λ a m'. (r ≡ (ok a, m')) × Q a m') r
  Returns-itself Q r h = RunsTo-itself Q r.0 r.1 h

  -- A branch, with what its test said.
  pub Runs-if :
      (Q : A → Machine S → Type 0) (R : Machine S → Type 0) (b : Bool) (x y : Exec S A)
      (m : Machine S)
      → (b ≡ true → Runs Q R (x m))
      → (b ≡ false → Runs Q R (y m))
      → Runs Q R ((if b then x else y) m)
  Runs-if Q R true x y m hx hy = hx refl
  Runs-if Q R false x y m hx hy = hy refl

module _ {S A B : Type 0} where
  RunsTo-bind :
      (Q' : B → Machine S → Type 0) (R : Machine S → Type 0) {Q : A → Machine S → Type 0}
      (r : Outcome A) (f : A → Exec S B) (m : Machine S)
      → RunsTo Q R r m
      → ((a : A) (m' : Machine S) → Q a m' → Runs Q' R (f a m'))
      → Runs Q' R (continue r f m)
  RunsTo-bind Q' R (ok a) f m h next = next a m h
  RunsTo-bind Q' R (throws e) f m h next = h
  RunsTo-bind Q' R diverges f m h next = h

  -- A sequence runs as it should if its parts do.
  pub Runs-bind :
      (Q' : B → Machine S → Type 0) (R : Machine S → Type 0) {Q : A → Machine S → Type 0}
      (x : Exec S A) (f : A → Exec S B) (m : Machine S)
      → Runs Q R (x m)
      → ((a : A) (m' : Machine S) → Q a m' → Runs Q' R (f a m'))
      → Runs Q' R ((x >>= f) m)
  Runs-bind Q' R x f m h next = RunsTo-bind Q' R (x m).0 f (x m).1 h next

module _ {S A : Type 0} (Q : A → Machine S → Type 0) (R : Machine S → Type 0) (os : Os) where
  -- A call that must succeed, with its log.
  pub Runs-require :
      (c : Call) (failed : ℤ → Bool) (on_error next : Exec S A) (m : Machine S)
      → Runs Q R (on_error (record m { log = c ∷ m.log }))
      → Runs Q R (next (record m { log = c ∷ m.log }))
      → Runs Q R (require os c failed on_error next m)
  unfolding require
  Runs-require c failed on_error next m bad good =
      Runs-if Q R (failed (os.result m.log c)) on_error next (record m { log = c ∷ m.log })
        (λ _. bad) (λ _. good)

module _ {S A B : Type 0} {Q : A → Machine S → Type 0} (x : Exception) where
  -- A sequence throws if its second part does, after a first part that returns.
  pub bind-throws :
      (r : Outcome A) (f : A → Exec S B) (m : Machine S)
      → RunsTo Q (λ _. ⊥) r m
      → ((a : A) (m' : Machine S) → Q a m' → (f a m').0 ≡ throws x)
      → (continue r f m).0 ≡ throws x
  bind-throws (ok a) f m h next = next a m h
  bind-throws (throws e) f m h next = absurd h
  bind-throws diverges f m h next = absurd h

module _ {S A : Type 0} where
  -- The same, for actions that may throw; what is thrown, and the state, satisfy `T`.
  abbrev pub SettlesTo :
      (A → Machine S → Type 0)
      → (Exception → Machine S → Type 0)
      → (Machine S → Type 0)
      → Outcome A
      → Machine S
      → Type 0
  SettlesTo Q T R (ok a) m = Q a m
  SettlesTo Q T R (throws e) m = T e m
  SettlesTo Q T R diverges m = R m

  abbrev pub Settles :
      (A → Machine S → Type 0)
      → (Exception → Machine S → Type 0)
      → (Machine S → Type 0)
      → Outcome A × Machine S
      → Type 0
  Settles Q T R r = SettlesTo Q T R r.0 r.1

  pub SettlesTo-RunsTo :
      (Q : A → Machine S → Type 0) (T : Exception → Machine S → Type 0) (R : Machine S → Type 0)
      (r : Outcome A) (m : Machine S)
      → RunsTo Q R r m
      → SettlesTo Q T R r m
  SettlesTo-RunsTo Q T R (ok a) m h = h
  SettlesTo-RunsTo Q T R (throws e) m h = absurd h
  SettlesTo-RunsTo Q T R diverges m h = h

  SettlesTo-weaken :
      (Q Q' : A → Machine S → Type 0) (T : Exception → Machine S → Type 0) (R : Machine S → Type 0)
      (r : Outcome A) (m : Machine S)
      → ((a : A) (m' : Machine S) → Q a m' → Q' a m')
      → SettlesTo Q T R r m
      → SettlesTo Q' T R r m
  SettlesTo-weaken Q Q' T R (ok a) m q h = q a m h
  SettlesTo-weaken Q Q' T R (throws e) m q h = h
  SettlesTo-weaken Q Q' T R diverges m q h = h

  pub Settles-weaken :
      {Q Q' : A → Machine S → Type 0} (T : Exception → Machine S → Type 0) (R : Machine S → Type 0)
      (r : Outcome A × Machine S)
      → ((a : A) (m' : Machine S) → Q a m' → Q' a m')
      → Settles Q T R r
      → Settles Q' T R r
  Settles-weaken {Q = Q} {Q' = Q'} T R r q h = SettlesTo-weaken Q Q' T R r.0 r.1 q h

module _ {S A B : Type 0} where
  SettlesTo-bind :
      (Q' : B → Machine S → Type 0) (T : Exception → Machine S → Type 0) (R : Machine S → Type 0)
      {Q : A → Machine S → Type 0} (r : Outcome A) (f : A → Exec S B) (m : Machine S)
      → SettlesTo Q T R r m
      → ((a : A) (m' : Machine S) → Q a m' → Settles Q' T R (f a m'))
      → Settles Q' T R (continue r f m)
  SettlesTo-bind Q' T R (ok a) f m h next = next a m h
  SettlesTo-bind Q' T R (throws e) f m h next = h
  SettlesTo-bind Q' T R diverges f m h next = h

  -- A sequence, whose first part may throw.
  pub Settles-bind :
      (Q' : B → Machine S → Type 0) (T : Exception → Machine S → Type 0) (R : Machine S → Type 0)
      {Q : A → Machine S → Type 0} (x : Exec S A) (f : A → Exec S B) (m : Machine S)
      → Settles Q T R (x m)
      → ((a : A) (m' : Machine S) → Q a m' → Settles Q' T R (f a m'))
      → Settles Q' T R ((x >>= f) m)
  Settles-bind Q' T R x f m h next = SettlesTo-bind Q' T R (x m).0 f (x m).1 h next

  -- A sequence, whose first part returns.
  pub Settles-after :
      (Q' : B → Machine S → Type 0) (T : Exception → Machine S → Type 0) (R : Machine S → Type 0)
      {Q : A → Machine S → Type 0} (x : Exec S A) (f : A → Exec S B) (m : Machine S)
      → Returns Q (x m)
      → ((a : A) (m' : Machine S) → Q a m' → Settles Q' T R (f a m'))
      → Settles Q' T R ((x >>= f) m)
  Settles-after Q' T R {Q = Q} x f m h next =
      SettlesTo-bind Q' T R {Q = Q} (x m).0 f (x m).1
        (SettlesTo-RunsTo Q T R (x m).0 (x m).1
          (Runs-weaken {R' = R} (x m) (λ _ _ q. q) (λ _ e. absurd e) h))
        next
