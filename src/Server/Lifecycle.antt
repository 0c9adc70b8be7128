-- ===== src/Server/Lifecycle.antt =====
-- `start` and `stop`: when the server runs, and when its accept thread is joinable.
use tcp_server_client.Prelude.{
  Bool, true, false, not, ◌||◌, ◌≡◌, refl, sym, subst, ◌∙◌, arith, some, List, [], ◌∷◌,
  if◌then◌else◌,
}
use tcp_server_client.Prelude.Int.{ℤ, pos, minus_one, nonzero, ltb_ℤ, eqb_ℤ}
use tcp_server_client.Exec.{Bytes, Os, Machine, Exec, pure, ◌>>◌, listen, bind, setsockopt, socket}
use tcp_server_client.Exec.Runs.{Returns, Returns-weaken, Runs-bind, Runs-if}
use tcp_server_client.Server.{
  Server, Protocol, start, start_socket, start_binding, start_listening, start_accepting, stop,
  delete_entry, delete_connections, destroy,
}

module _ {D : Type 0} where
  -- The accept thread is joinable exactly when the server runs.
  abbrev pub IsConsistent : Server D → Type 0
  IsConsistent s = s.acc_handler ≡ s.running

  abbrev pub IsIdle : Server D → Type 0
  IsIdle s = (s.running ≡ false) × (s.acc_handler ≡ false)

  -- What a return code says of the server.
  abbrev pub IsAsTold : ℤ → Machine (Server D) → Type 0
  IsAsTold r m = (m.self.running ≡ not (nonzero r)) × (m.self.acc_handler ≡ not (nonzero r))

module _ {D : Type 0} (os : Os) where
  pub stop-IsIdle : (m : Machine (Server D)) → Returns (λ _ m'. IsIdle m'.self) (stop os m)
  unfolding stop
  stop-IsIdle m = ground arith

  stop-IsAsTold :
      (r : ℤ) (m : Machine (Server D)) → nonzero r ≡ true → Returns IsAsTold ((stop os >> pure r) m)
  stop-IsAsTold r m e =
      Runs-bind IsAsTold (λ _. ⊥) (stop os) _ m (stop-IsIdle m) (λ _ m' h. ground arith)

  start_accepting-IsAsTold :
      (r : ℤ) (m : Machine (Server D))
      → nonzero r ≡ false
      → IsIdle m.self
      → Returns IsAsTold (start_accepting os r m)
  unfolding start_accepting
  start_accepting-IsAsTold r m e idle = ground arith

  -- A step of `start`: on an error the server is stopped, otherwise the next step follows.
  stop_or-IsAsTold :
      (failed : Bool) (r : ℤ) (next : Exec (Server D) ℤ) (m : Machine (Server D))
      → nonzero r ≡ true
      → Returns IsAsTold (next m)
      → Returns IsAsTold ((if failed then (stop os >> pure r) else next) m)
  stop_or-IsAsTold true r next m e h = stop-IsAsTold r m e
  stop_or-IsAsTold false r next m e h = h

  start_listening-IsAsTold :
      (r fd : ℤ) (m : Machine (Server D))
      → nonzero r ≡ false
      → IsIdle m.self
      → Returns IsAsTold (start_listening os r fd m)
  unfolding start_listening
  start_listening-IsAsTold r fd m e idle =
      stop_or-IsAsTold (nonzero (os.result m.log (listen fd))) _ (start_accepting os r) _ refl
        (start_accepting-IsAsTold r (record m { log = listen fd ∷ m.log }) e idle)

  start_binding-IsAsTold :
      (port r fd : ℤ) (m : Machine (Server D))
      → nonzero r ≡ false
      → IsIdle m.self
      → Returns IsAsTold (start_binding os port r fd m)
  unfolding start_binding
  start_binding-IsAsTold port r fd m e idle =
      stop_or-IsAsTold (nonzero (os.result m.log (bind fd port))) _ (start_listening os r fd) _ refl
        (start_listening-IsAsTold r fd (record m { log = bind fd port ∷ m.log }) e idle)

  start_socket-IsAsTold :
      (port r : ℤ) (m : Machine (Server D))
      → nonzero r ≡ false
      → IsIdle m.self
      → Returns IsAsTold (start_socket os port r m)
  unfolding start_socket
  start_socket-IsAsTold port r m e idle = stop_or-IsAsTold (eqb_ℤ minus_one fd) _ _ m1 refl (
      stop_or-IsAsTold (nonzero (os.result m1.log (setsockopt fd))) _ (start_binding os port r fd)
        (record m1 { log = setsockopt fd ∷ m1.log }) refl
        (start_binding-IsAsTold port r fd (record m1 { log = setsockopt fd ∷ m1.log }) e idle))
    where
      fd : ℤ
      fd = os.result m.log socket

      m1 : Machine (Server D)
      m1 = record { self = record m.self { tcp_socket = fd }; log = socket ∷ m.log }

-- What the API relies on in the virtual functions: `init` does not leave the server running, and
-- `writeMsg` leaves the accept thread and its flag alone.
pub record Lifecycle {D : Type 0} (p : Protocol D) : Type 0 where
  pub init_law :
      (m : Machine (Server D)) → IsIdle m.self → Returns (λ _ m'. IsIdle m'.self) (p.init m)
  pub write_law :
      (client : ℤ) (msg : Bytes) (m : Machine (Server D))
      → IsConsistent m.self
      → Returns (λ _ m'. IsConsistent m'.self) (p.write_msg client msg m)
  pub delete_law :
      (fd : ℤ) (m : Machine (Server D)) → Returns (λ _ m'. m'.self ≡ m.self) (p.delete_socket fd m)

module _ {D : Type 0} (os : Os) {p : Protocol D} (l : Lifecycle p) where
  delete_entry-same :
      (fd : ℤ) (m : Machine (Server D))
      → Returns (λ _ m'. m'.self ≡ m.self) (delete_entry p (some fd) m)
  unfolding delete_entry
  delete_entry-same fd m =
      Runs-if (λ _ m'. m'.self ≡ m.self) (λ _. ⊥) (eqb_ℤ fd (pos 0)) _ _ m (λ _. refl)
        (λ _. l.delete_law fd m)

  delete_connections-same :
      (connections : List (ℤ × ℤ)) (m : Machine (Server D))
      → Returns (λ _ m'. m'.self ≡ m.self) (delete_connections p connections m)
  unfolding delete_connections
  delete_connections-same [] m = refl
  delete_connections-same ((client, fd) ∷ rest) m =
      Runs-bind (λ _ m'. m'.self ≡ m.self) (λ _. ⊥) (delete_entry p (some fd)) _ m
        (delete_entry-same fd m)
        (λ _ m1 same.
          Returns-weaken (λ _ m'. m'.self ≡ m.self) (delete_connections p rest m1)
            (λ _ m2 h. h ∙ same) (delete_connections-same rest m1))

  -- A server that is destroyed does not run, and has no accept thread that is still to be joined.
  pub destroy-IsIdle : (m : Machine (Server D)) → Returns (λ _ m'. IsIdle m'.self) (destroy os p m)
  unfolding destroy
  destroy-IsIdle m =
      Runs-bind (λ _ m'. IsIdle m'.self) (λ _. ⊥) (stop os) _ m (stop-IsIdle os m)
        (λ _ m1 idle.
          Returns-weaken (λ _ m'. IsIdle m'.self)
            (delete_connections p m1.self.active_connections m1)
            (λ _ m2 same. subst IsIdle (sym same) idle)
            (delete_connections-same m1.self.active_connections m1))

  -- What a call of `start` comes to: a running server stays as it is and is told -1.
  abbrev pub IsStarted : Machine (Server D) → ℤ → Machine (Server D) → Type 0
  IsStarted m r m' = IsConsistent m'.self × (m'.self.running ≡ m.self.running || not (nonzero r))

  -- Whatever the outside answers, `start` on a consistent server throws nothing and leaves it
  -- consistent, and the server then runs exactly if it ran before or the code returned is 0.
  pub start-IsStarted :
      (port : ℤ) (m : Machine (Server D))
      → IsConsistent m.self
      → Returns (IsStarted m) (start os p port m)
  unfolding start
  start-IsStarted port m same =
      Runs-if (IsStarted m) (λ _. ⊥) m.self.running _ _ m (λ on. ground arith)
        (λ off.
          Runs-if (IsStarted m) (λ _. ⊥) (ltb_ℤ port (pos 1) || ltb_ℤ (pos 65535) port) _ _ m
            (λ _. ground arith)
            (λ _.
              Runs-bind (IsStarted m) (λ _. ⊥) p.init _ m (l.init_law m (off, same ∙ off))
                (λ r m1 idle.
                  Returns-weaken (IsStarted m) _ (λ r' m2 told. ground arith)
                    (Runs-if IsAsTold (λ _. ⊥) (nonzero r) (pure r) (start_socket os port r) m1
                      (λ e. ground arith) (λ e. start_socket-IsAsTold os port r m1 e idle)))))
