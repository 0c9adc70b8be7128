-- ===== src/Exec.antt =====
-- The setting of all methods of src/template/*.hpp: an object beside the log of what it has asked
-- of the outside, a result that may be an exception, and the outside itself as a parameter.
pub mod Runs
pub mod Trace
pub mod Succeeds
use tcp_server_client.Prelude.{ℕ, Bool, true, false, ◌≡◌, refl, List, [], ◌∷◌, if◌then◌else◌}
use tcp_server_client.Prelude.Int.{ℤ}

-- A `char` is its code; a `std::string` is the list of its bytes.
abbrev pub Bytes : Type 0
Bytes = List ℕ

-- The last argument of `shutdown`.
pub data How : Type 0 where
  shut_rd shut_rdwr : How

-- What the code asks of the system, of OpenSSL, of `std::thread`, of the user's callbacks and of the
-- console.
pub data Call : Type 0 where
  socket : Call
  setsockopt : ℤ → Call
  bind : ℤ → ℤ → Call
  listen : ℤ → Call
  accept : ℤ → Call
  gethostbyname : Bytes → Call
  connect : ℤ → Bytes → ℤ → Call
  shutdown : ℤ → How → Call
  close : ℤ → Call
  recv : ℤ → ℕ → Call
  send : ℤ → Bytes → Call
  getpeername : ℤ → Call
  access : Bytes → Call
  add_ssl_algorithms : Call
  ssl_ctx_new : Call
  load_verify_locations : Bytes → Call
  set_client_ca_list : Bytes → Call
  use_certificate_file : Bytes → Call
  use_private_key_file : Bytes → Call
  set_mode_auto_retry : Call
  set_verify : Bool → Call  -- with SSL_VERIFY_CLIENT_ONCE or not
  set_verify_depth : ℕ → Call
  set_ciphersuites : Call
  ssl_new : Call
  ssl_set_fd : ℤ → ℤ → Call
  ssl_accept : ℤ → Call
  ssl_connect : ℤ → Call
  ssl_shutdown : ℤ → Call
  ssl_free : ℤ → Call
  ssl_read : ℤ → ℕ → Call
  ssl_write : ℤ → Bytes → ℤ → Call
  get_peer_certificate : ℤ → Call
  get_text_by_nid : ℤ → ℤ → Call
  spawn_acceptor : Call
  spawn_receiver : ℤ → Call
  spawn_worker : ℤ → Bytes → Call
  join_acceptor : Call
  join_receiver : ℤ → Call
  join_worker : ℤ → Call
  load_running : Call
  read_flag : ℤ → Call
  clear_flag : ℤ → Call
  create_stream : ℤ → Call
  write_stream : ℤ → Bytes → Call
  work_on_established : ℤ → Call
  work_on_message : ℤ → Bytes → Call
  work_on_closed : ℤ → Call
  open_file : Bytes → Call
  print : Bytes → Call
  read_char : Call
  sleep : ℕ → Call  -- in milliseconds

-- The outside: what each call returns, and the bytes that it hands over, after all the calls before
-- it (latest first). Nothing else is known of it.
pub record Os : Type 0 where
  pub result : List Call → Call → ℤ
  pub bytes : List Call → Call → Bytes

-- What is thrown. `system_error` is what `std::thread::join` throws on a thread that is not
-- joinable;
-- `undefined_behaviour` is no exception: it stands for an index out of range and for a null pointer
-- that is read.
pub data Exception : Type 0 where
  thread_already_running : Exception
  no_connected_client : ℤ → Exception
  not_connected : Exception
  invalid_nid : ℤ → Exception
  error_reading_ip : Exception
  system_error : Exception
  undefined_behaviour : Exception

-- `diverges`: a loop ran out of its fuel.
pub data Outcome (A : Type 0) : Type 0 where
  ok : A → Outcome A
  throws : Exception → Outcome A
  diverges : Outcome A

pub record Machine (S : Type 0) : Type 0 where
  pub self : S
  pub log : List Call

abbrev pub Exec : Type 0 → Type 0 → Type 0
Exec S A = Machine S → Outcome A × Machine S

module _ {S A : Type 0} where
  abbrev pub pure : A → Exec S A
  pure a m = (ok a, m)

  abbrev pub throw : Exception → Exec S A
  throw e m = (throws e, m)

  abbrev pub diverge : Exec S A
  diverge m = (diverges, m)

  abbrev pub gets : (S → A) → Exec S A
  gets f m = (ok (f m.self), m)

module _ {S : Type 0} where
  abbrev pub modify : (S → S) → Exec S (Unit {0})
  modify f m = (ok tt, record m { self = f m.self })

  -- One call to the outside.
  abbrev pub call : Os → Call → Exec S ℤ
  call os c m = (ok (os.result m.log c), record m { log = c ∷ m.log })

  abbrev pub call_bytes : Os → Call → Exec S (ℤ × Bytes)
  call_bytes os c m = (ok (os.result m.log c, os.bytes m.log c), record m { log = c ∷ m.log })

module _ {S A B : Type 0} where
  abbrev pub continue : Outcome A → (A → Exec S B) → Exec S B
  continue (ok a) f m = f a m
  continue (throws e) f m = (throws e, m)
  continue diverges f m = (diverges, m)

  infixl 5 ◌>>=◌ ◌>>◌
  abbrev pub ◌>>=◌ : Exec S A → (A → Exec S B) → Exec S B
  ◌>>=◌ x f m = continue (x m).0 f (x m).1

  abbrev pub ◌>>◌ : Exec S A → Exec S B → Exec S B
  x >> y = x >>= λ _. y

module _ {S : Type 0} where
  -- `if (worker) worker(...);`
  unfoldable pub call_if : Os → Bool → Call → Exec S (Unit {0})
  call_if os false c = pure tt
  call_if os true c = call os c >> pure tt

module _ {S A B C : Type 0} where
  continue_assoc :
      (r : Outcome A) (f : A → Exec S B) (g : B → Exec S C) (m : Machine S)
      → continue (continue r f m).0 g (continue r f m).1 ≡ continue r (λ a. f a >>= g) m
  continue_assoc (ok a) f g m = refl
  continue_assoc (throws e) f g m = refl
  continue_assoc diverges f g m = refl

  pub bind_assoc :
      (x : Exec S A) (f : A → Exec S B) (g : B → Exec S C) (m : Machine S)
      → (x >>= f >>= g) m ≡ (x >>= λ a. f a >>= g) m
  bind_assoc x f g m = continue_assoc (x m).0 f g (x m).1

module _ {S A B : Type 0} where
  continue_congr :
      (r : Outcome A) (f g : A → Exec S B) (m : Machine S)
      → ((a : A) (m' : Machine S) → f a m' ≡ g a m')
      → continue r f m ≡ continue r g m
  continue_congr (ok a) f g m h = h a m
  continue_congr (throws e) f g m h = refl
  continue_congr diverges f g m h = refl

  pub bind_congr :
      (x : Exec S A) (f g : A → Exec S B) (m : Machine S)
      → ((a : A) (m' : Machine S) → f a m' ≡ g a m')
      → (x >>= f) m ≡ (x >>= g) m
  bind_congr x f g m h = continue_congr (x m).0 f g (x m).1 h

module _ {S A W : Type 0} where
  -- The action for each item in turn, over local variables `W`.
  unfoldable pub for_each : (W → A → Exec S W) → W → List A → Exec S W
  for_each f w [] = pure w
  for_each f w (a ∷ rest) = do w' ← f w a; for_each f w' rest

  pub for_each-nil : (f : W → A → Exec S W) (w : W) → for_each f w [] ≡ pure w
  unfolding for_each
  for_each-nil f w = refl

  pub for_each-cons :
      (f : W → A → Exec S W) (w : W) (a : A) (rest : List A)
      → for_each f w (a ∷ rest) ≡ (f w a >>= λ w'. for_each f w' rest)
  unfolding for_each
  for_each-cons f w a rest = refl

module _ {S A : Type 0} where
  -- `if (failed(call)) { on_error } next`
  unfoldable pub require : Os → Call → (ℤ → Bool) → Exec S A → Exec S A → Exec S A
  require os c failed on_error next = do r ← call os c; if failed r then on_error else next
