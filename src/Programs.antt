-- ===== src/Programs.antt =====
-- The programs of example/: several servers or clients in one program, which share the log.
pub mod ServerMain
pub mod ClientMain
use Prim.Native.String.{String}
use Prim.Native.Char.{code}
use tcp_server_client.Prelude.{List, [], ◌∷◌, ◌++◌, ◌≡◌, refl}
use tcp_server_client.Exec.{
  Bytes, Os, Machine, Exec, Outcome, ok, throws, diverges, continue, print, pure, call, ◌>>=◌, ◌>>◌,
}
use tcp_server_client.Exec.Runs.{Returns, RunsTo}

-- The bytes of an ASCII text.
abbrev pub codes : String → Bytes
codes String.[] = []
codes (String.◌∷◌ c s) = code c ∷ codes s

-- A method of the object that `get` finds in a program and `put` puts back.
abbrev pub within : {W S A : Type 0} → (W → S) → (S → W → W) → Exec S A → Exec W A
within get put x m =
    let (r, m') = x (record { self = get m.self; log = m.log }) in
    (r, record { self = put m'.self m.self; log = m'.log })

module _ {W S A : Type 0} (put : S → W → W) (Q : A → Machine S → Type 0) where
  -- What was known of the object is known of it in the program.
  abbrev pub Puts : W → A → Machine W → Type 0
  Puts w a m = (o : Machine S) × Q a o × (m.self ≡ put o.self w)

  RunsTo-within :
      (w : W) (r : Outcome A) (o : Machine S)
      → RunsTo Q (λ _. ⊥) r o
      → RunsTo (Puts w) (λ _. ⊥) r (record { self = put o.self w; log = o.log })
  RunsTo-within w (ok a) o h = (o, h, refl)
  RunsTo-within w (throws e) o h = h
  RunsTo-within w diverges o h = h

  pub Returns-within :
      (get : W → S) (x : Exec S A) (m : Machine W)
      → Returns Q (x (record { self = get m.self; log = m.log }))
      → Returns (Puts m.self) (within get put x m)
  Returns-within get x m h =
      RunsTo-within m.self (x (record { self = get m.self; log = m.log })).0
        (x (record { self = get m.self; log = m.log })).1 h

module _ {W S A B : Type 0} (Q' : B → Machine W → Type 0) (put : S → W → W)
    (Q : A → Machine S → Type 0) where
  -- A method of one object, and what follows it in the program.
  pub Returns-within-then :
      (get : W → S) (x : Exec S A) (next : Exec W B) (m : Machine W)
      → Returns Q (x (record { self = get m.self; log = m.log }))
      → ((a : A) (o : Machine S)
          → Q a o
          → Returns Q' (next (record { self = put o.self m.self; log = o.log })))
      → Returns Q' ((within get put x >> next) m)
  Returns-within-then get x next m h k =
      let o = x (record { self = get m.self; log = m.log }) in then o.0 o.1 h
    where
      then :
          (r : Outcome A) (o : Machine S)
          → RunsTo Q (λ _. ⊥) r o
          → Returns Q' (continue r (λ _. next) (record { self = put o.self m.self; log = o.log }))
      then (ok a) o h = k a o h
      then (throws e) o h = h
      then diverges o h = h

module _ {W : Type 0} (os : Os) where
  -- `std::cout << text << std::endl`
  abbrev pub print_line : Bytes → Exec W (Unit {0})
  print_line text = call os (print (text ++ 10 ∷ [])) >> pure tt
