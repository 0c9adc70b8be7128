-- ===== src/Exec/Succeeds.antt =====
-- Methods that return a code, 0 for success: what must have succeeded before 0 is returned.
use tcp_server_client.Prelude.{◌≢◌, Bool, true, false, ◌≡◌, refl, ◌∷◌, arith, if◌then◌else◌}
use tcp_server_client.Prelude.Int.{ℤ, pos, nonzero}
use tcp_server_client.Exec.{
  Os, Machine, ok, Call, Exec, Outcome, throws, diverges, continue, pure, require, ◌>>◌,
}

-- The error path never returns 0.
abbrev pub NeverOk : {S : Type 0} → Exec S ℤ → Type 0
NeverOk {S} on_error = (m m' : Machine S) → on_error m ≢ (ok (pos 0), m')

module _ {S : Type 0} where
  continue-pure-ok :
      {A : Type 0} (r : Outcome A) (code : ℤ) (m m' : Machine S)
      → nonzero code ≡ true
      → continue r (λ _. pure code) m ≢ (ok (pos 0), m')
  continue-pure-ok (ok a) code m m' e h = ground (arith, h)
  continue-pure-ok (throws x) code m m' e h = cc
  continue-pure-ok diverges code m m' e h = cc

  -- `stop(); return code;`
  pub NeverOk-pure :
      {A : Type 0} (x : Exec S A) (code : ℤ) → nonzero code ≡ true → NeverOk (x >> pure code)
  NeverOk-pure x code e m m' h = continue-pure-ok (x m).0 code (x m).1 m' e h

  pub if-ok :
      (failed : Bool) (on_error next : Exec S ℤ) (m m' : Machine S)
      → NeverOk on_error
      → (if failed then on_error else next) m ≡ (ok (pos 0), m')
      → (failed ≡ false) × (next m ≡ (ok (pos 0), m'))
  if-ok true on_error next m m' never h = absurd (never m m' h)
  if-ok false on_error next m m' never h = (refl, h)

  -- A call that must succeed did so, if 0 is returned.
  pub require-ok :
      (os : Os) (c : Call) (failed : ℤ → Bool) (on_error next : Exec S ℤ) (m m' : Machine S)
      → NeverOk on_error
      → require os c failed on_error next m ≡ (ok (pos 0), m')
      → (failed (os.result m.log c) ≡ false)
        × (next (record m { log = c ∷ m.log }) ≡ (ok (pos 0), m'))
  unfolding require
  require-ok os c failed on_error next m m' never h =
      if-ok (failed (os.result m.log c)) on_error next (record m { log = c ∷ m.log }) m' never h
