-- ===== src/Client/Service/Framed.antt =====
-- `start` and `stop` of a client leave the framing alone, and which starts are refused.
use tcp_server_client.Prelude.{false, ◌≡◌, refl, ap, ◌∙◌, Option, none, some, arith, inl, inr}
use tcp_server_client.Prelude.Int.{ℤ, pos, minus_one, nonzero, eqb_ℤ}
use tcp_server_client.Exec.{Bytes, Os, Machine, pure, socket, setsockopt, connect, gethostbyname}
use tcp_server_client.Exec.Runs.{
  Returns, Returns-both, Returns-weaken, Runs-bind, Runs-if, Runs-require,
}
use tcp_server_client.Client.{
  Client, Protocol, start, start_socket, start_connecting, start_connection, connection_ready,
  delete_old, start_receiving, stop, fail,
}
use tcp_server_client.Client.Lifecycle.{IsIdle, Lifecycle, delete_old-same, IsFound}
use tcp_server_client.Server.Service.{bad_port}
use tcp_server_client.Server.Service.Refinement.{Refusal}
use tcp_server_client.Client.Service.{IsConsistent, service, Unseen}

module _ {D : Type 0} (os : Os) {p : Protocol D} (l : Lifecycle p) (u : Unseen p) where
  abbrev Framed : {A : Type 0} → Machine (Client D) → A → Machine (Client D) → Type 0
  Framed m _ m' = m'.self.framing ≡ m.self.framing

  pub stop-framing : (m : Machine (Client D)) → Returns (Framed m) (stop os p.connection_deinit m)
  unfolding stop
  stop-framing m =
      Runs-bind (Framed m) (λ _. ⊥) p.connection_deinit _
        (record m { self = record m.self { running = false } })
        (l.deinit_law (record m { self = record m.self { running = false } }))
        (λ _ m' same. ground arith)

  fail-framing :
      (r : ℤ) (m : Machine (Client D)) → Returns (Framed m) (fail os p.connection_deinit r m)
  fail-framing r m =
      Runs-bind (Framed m) (λ _. ⊥) (stop os p.connection_deinit) _ m (stop-framing m) (λ _ m' h. h)

  connection_ready-framing :
      (connection : Option ℤ) (m : Machine (Client D))
      → m.self.rec_handler ≡ false
      → Returns (Framed m) (connection_ready os p connection m)
  unfolding connection_ready start_receiving
  connection_ready-framing none m idle = fail-framing _ m
  connection_ready-framing (some connection) m idle = ground arith

  start_connection-framing :
      (m : Machine (Client D)) → IsIdle m.self → Returns (Framed m) (start_connection os p m)
  unfolding start_connection
  start_connection-framing m idle =
      Runs-bind (Framed m) (λ _. ⊥) p.connection_init _ m
        (Returns-both _ _ (p.connection_init m) (l.connection_law m idle) (u.connection_unseen m))
        (λ connection m' h.
          let reset = record m' { self = record m'.self { client_socket = connection } } in
          Runs-bind (Framed m) (λ _. ⊥) (delete_old os p m'.self.client_socket) _ reset
            (delete_old-same os l m'.self.client_socket reset)
            (λ _ m1 same.
              Returns-weaken (Framed m) (connection_ready os p connection m1)
                (λ _ m'' k. k ∙ ap (λ (s : Client D). s.framing) same ∙ h.1)
                (connection_ready-framing connection m1
                  (ap (λ (s : Client D). s.rec_handler) same ∙ h.0.1))))

  start_connecting-framing :
      (ip : Bytes) (port fd : ℤ) (m : Machine (Client D))
      → IsFound os l ip
      → IsIdle m.self
      → Returns (Framed m) (start_connecting os p ip port fd m)
  unfolding start_connecting
  start_connecting-framing ip port fd m found idle =
      Runs-if (Framed m) (λ _. ⊥) (eqb_ℤ (os.result m.log (gethostbyname ip)) (pos 0)) _ _ _
        (λ e. ground (arith, found m.log))
        (λ _.
          Runs-require (Framed m) (λ _. ⊥) os (connect fd (os.bytes m.log (gethostbyname ip)) port)
            nonzero _ (start_connection os p) _ (fail-framing _ _)
            (start_connection-framing _ idle))

  start_socket-framing :
      (ip : Bytes) (port : ℤ) (m : Machine (Client D))
      → IsFound os l ip
      → IsIdle m.self
      → Returns (Framed m) (start_socket os p ip port m)
  unfolding start_socket
  start_socket-framing ip port m found idle =
      Runs-if (Framed m) (λ _. ⊥) (eqb_ℤ minus_one fd) _ _ _ (λ _. fail-framing _ _)
        (λ _.
          Runs-require (Framed m) (λ _. ⊥) os (setsockopt fd) nonzero _
            (start_connecting os p ip port fd) _ (fail-framing _ _)
            (start_connecting-framing ip port fd _ found idle))
    where
      fd : ℤ
      fd = os.result m.log socket

  pub start-Refusal :
      (ip : Bytes) (port : ℤ) (m : Machine (Client D))
      → IsFound os l ip
      → IsConsistent m.self
      → Returns
          (λ r m'. (m'.self.framing ≡ m.self.framing) × Refusal (service m.self) port r)
          (start os p ip port m)
  unfolding start
  start-Refusal ip port m found same =
      Runs-if Q (λ _. ⊥) m.self.running _ _ m (λ on. (refl, inl (on, refl)))
        (λ off.
          Runs-if Q (λ _. ⊥) (bad_port port) _ _ m (λ bad. (refl, inr (inl (off, bad, refl))))
            (λ good.
              Runs-bind Q (λ _. ⊥) p.init _ m
                (Returns-both _ _ (p.init m) (l.init_law m (off, same ∙ off)) (u.init_unseen m))
                (λ r m1 h.
                  Runs-if Q (λ _. ⊥) (nonzero r) (pure r) (start_socket os p ip port) m1
                    (λ _. (h.1, inr (inr (off, good))))
                    (λ _.
                      Returns-weaken Q (start_socket os p ip port m1)
                        (λ _ m2 k. (k ∙ h.1, inr (inr (off, good))))
                        (start_socket-framing ip port m1 found h.0)))))
    where
      Q : ℤ → Machine (Client D) → Type 0
      Q r m' = (m'.self.framing ≡ m.self.framing) × Refusal (service m.self) port r
