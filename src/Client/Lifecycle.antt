-- ===== src/Client/Lifecycle.antt =====
-- `start` and `stop` of a client: when it runs, and what holds then.
use tcp_server_client.Prelude.{
  true, false, not, ◌||◌, ◌≡◌, refl, sym, subst, ◌∙◌, arith, List, Option, none, some,
}
use tcp_server_client.Prelude.Int.{ℤ, pos, minus_one, nonzero, ltb_ℤ, eqb_ℤ}
use tcp_server_client.Exec.{
  Bytes, Os, Call, Machine, Exec, pure, socket, setsockopt, connect, gethostbyname,
}
use tcp_server_client.Exec.Runs.{Returns, Returns-weaken, Runs-bind, Runs-if, Runs-require}
use tcp_server_client.Client.{
  Client, Protocol, start, start_socket, start_connecting, start_connection, connection_ready,
  delete_old, start_receiving, stop, fail,
}

module _ {D : Type 0} where
  abbrev pub IsIdle : Client D → Type 0
  IsIdle s = (s.running ≡ false) × (s.rec_handler ≡ false)

-- What `start` relies on in the virtual functions.
pub record Lifecycle {D : Type 0} (p : Protocol D) : Type 0 where
  pub init_law :
      (m : Machine (Client D)) → IsIdle m.self → Returns (λ _ m'. IsIdle m'.self) (p.init m)
  pub connection_law :
      (m : Machine (Client D))
      → IsIdle m.self
      → Returns (λ _ m'. IsIdle m'.self) (p.connection_init m)
  pub deinit_law :
      (m : Machine (Client D)) → Returns (λ _ m'. m'.self ≡ m.self) (p.connection_deinit m)
  pub delete_law :
      (s : ℤ) (m : Machine (Client D)) → Returns (λ _ m'. m'.self ≡ m.self) (p.delete_socket s m)

module _ {D : Type 0} (os : Os) where
  pub stop-IsIdle :
      (deinit : Exec (Client D) (Unit {0})) (m : Machine (Client D))
      → ((m' : Machine (Client D)) → Returns (λ _ m''. m''.self ≡ m'.self) (deinit m'))
      → Returns (λ _ m'. IsIdle m'.self) (stop os deinit m)
  unfolding stop
  stop-IsIdle deinit m quiet =
      Runs-bind (λ _ m'. IsIdle m'.self) (λ _. ⊥) deinit _
        (record m { self = record m.self { running = false } })
        (quiet (record m { self = record m.self { running = false } })) (λ _ m' same. ground arith)

module _ {D : Type 0} (os : Os) {p : Protocol D} (l : Lifecycle p) where
  -- What a return code says of the client.
  abbrev pub IsAsTold : ℤ → Machine (Client D) → Type 0
  IsAsTold r m = (m.self.running ≡ not (nonzero r)) × (m.self.rec_handler ≡ not (nonzero r))

  fail-IsAsTold :
      (code : ℤ) (m : Machine (Client D))
      → nonzero code ≡ true
      → Returns IsAsTold (fail os p.connection_deinit code m)
  fail-IsAsTold code m e =
      Runs-bind IsAsTold (λ _. ⊥) (stop os p.connection_deinit) _ m
        (stop-IsIdle os p.connection_deinit m l.deinit_law) (λ _ m' h. ground arith)

  connection_ready-IsAsTold :
      (connection : Option ℤ) (m : Machine (Client D))
      → IsIdle m.self
      → Returns IsAsTold (connection_ready os p connection m)
  unfolding connection_ready start_receiving
  connection_ready-IsAsTold none m idle = fail-IsAsTold _ m refl
  connection_ready-IsAsTold (some connection) m idle = ground arith

  -- What the pointer led to before is deleted, and the client stays as it is.
  pub delete_old-same :
      (old : Option ℤ) (m : Machine (Client D))
      → Returns (λ _ m'. m'.self ≡ m.self) (delete_old os p old m)
  unfolding delete_old
  delete_old-same none m = refl
  delete_old-same (some old) m = l.delete_law old m

  start_connection-IsAsTold :
      (m : Machine (Client D)) → IsIdle m.self → Returns IsAsTold (start_connection os p m)
  unfolding start_connection
  start_connection-IsAsTold m idle =
      Runs-bind IsAsTold (λ _. ⊥) p.connection_init _ m (l.connection_law m idle)
        (λ connection m' idle'.
          let reset = record m' { self = record m'.self { client_socket = connection } } in
          Runs-bind IsAsTold (λ _. ⊥) (delete_old os p m'.self.client_socket) _ reset
            (delete_old-same m'.self.client_socket reset)
            (λ _ m'' same.
              connection_ready-IsAsTold connection m'' (subst IsIdle (sym same) idle')))

  -- The name of the server is found, whatever was called before.
  abbrev pub IsFound : Bytes → Type 0
  IsFound ip = (log : List Call) → eqb_ℤ (os.result log (gethostbyname ip)) (pos 0) ≡ false

  start_connecting-IsAsTold :
      (ip : Bytes) (port fd : ℤ) (m : Machine (Client D))
      → IsFound ip
      → IsIdle m.self
      → Returns IsAsTold (start_connecting os p ip port fd m)
  unfolding start_connecting
  start_connecting-IsAsTold ip port fd m found idle =
      Runs-if IsAsTold (λ _. ⊥) (eqb_ℤ (os.result m.log (gethostbyname ip)) (pos 0)) _ _ _
        (λ e. ground (arith, found m.log))
        (λ _.
          Runs-require IsAsTold (λ _. ⊥) os (connect fd (os.bytes m.log (gethostbyname ip)) port)
            nonzero _ (start_connection os p) _ (fail-IsAsTold _ _ refl)
            (start_connection-IsAsTold _ idle))

  start_socket-IsAsTold :
      (ip : Bytes) (port : ℤ) (m : Machine (Client D))
      → IsFound ip
      → IsIdle m.self
      → Returns IsAsTold (start_socket os p ip port m)
  unfolding start_socket
  start_socket-IsAsTold ip port m found idle =
      Runs-if IsAsTold (λ _. ⊥) (eqb_ℤ minus_one fd) _ _ _ (λ _. fail-IsAsTold _ _ refl)
        (λ _.
          Runs-require IsAsTold (λ _. ⊥) os (setsockopt fd) nonzero _
            (start_connecting os p ip port fd) _ (fail-IsAsTold _ _ refl)
            (start_connecting-IsAsTold ip port fd _ found idle))
    where
      fd : ℤ
      fd = os.result m.log socket

  -- What a call of `start` comes to: a running client stays as it is and is told -1.
  abbrev pub IsStarted : Machine (Client D) → ℤ → Machine (Client D) → Type 0
  IsStarted m r m' =
      (m'.self.rec_handler ≡ m'.self.running)
      × (m'.self.running ≡ m.self.running || not (nonzero r))

  -- If the name of the server is found, `start` on a client whose receive thread is joinable exactly
  -- when it runs throws nothing and leaves it like that, and the client then runs exactly if it ran
  -- before or the code returned is 0, whatever else the outside answers.
  pub client_start-IsStarted :
      (ip : Bytes) (port : ℤ) (m : Machine (Client D))
      → IsFound ip
      → m.self.rec_handler ≡ m.self.running
      → Returns (IsStarted m) (start os p ip port m)
  unfolding start
  client_start-IsStarted ip port m found same =
      Runs-if (IsStarted m) (λ _. ⊥) m.self.running _ _ m (λ on. ground arith)
        (λ off.
          Runs-if (IsStarted m) (λ _. ⊥) (ltb_ℤ port (pos 1) || ltb_ℤ (pos 65535) port) _ _ m
            (λ _. ground arith)
            (λ _.
              Runs-bind (IsStarted m) (λ _. ⊥) p.init _ m (l.init_law m (off, same ∙ off))
                (λ r m1 idle.
                  Returns-weaken (IsStarted m) _ (λ r' m2 told. ground arith)
                    (Runs-if IsAsTold (λ _. ⊥) (nonzero r) (pure r) (start_socket os p ip port) m1
                      (λ e. ground arith) (λ e. start_socket-IsAsTold ip port m1 found idle)))))
