-- ===== src/Server/Tending.antt =====
-- `Server::listenConnection` as a whole: the receive handlers from round to round, and their joins.
use Prim.Native.Nat.{◌≤◌}
use tcp_server_client.Prelude.{length, ℕ, Bool, true, false, Option, none, some, ◌≡◌}
use tcp_server_client.Prelude.Int.{ℤ}
use tcp_server_client.Exec.{
  gets, modify, pure, call, ◌>>=◌, ◌>>◌, Os, Machine, Exec, spawn_receiver,
}
use tcp_server_client.Exec.Runs.{Returns}
use tcp_server_client.Maps.{find, set}
use tcp_server_client.Server.{Server, Protocol, delete_entry}
use tcp_server_client.Server.Accept.{
  accept_round, finished_handlers, remove_handlers, add_handler, finish_accepting,
}
use tcp_server_client.Server.Handlers.{IsTended}

-- What `listenConnection` relies on in `connectionInit`.
pub record Accepting {D : Type 0} (p : Protocol D) : Type 0 where
  pub keeps_handlers :
      (id : ℤ) (m : Machine (Server D))
      → Returns
          (λ _ m'.
            (m'.self.rec_handlers ≡ m.self.rec_handlers)
            × (m'.self.rec_handlers_running ≡ m.self.rec_handlers_running)
            × (length m.log ≤ length m'.log))
          (p.connection_init id m)
  pub deletes :
      (s : ℤ) (m : Machine (Server D))
      → Returns
          (λ _ m'.
            (m'.self.rec_handlers ≡ m.self.rec_handlers)
            × (m'.self.rec_handlers_running ≡ m.self.rec_handlers_running)
            × (length m.log ≤ length m'.log))
          (p.delete_socket s m)

module _ (D : Type 0) (os : Os) where
  -- The handlers after the new thread was started.
  abbrev add_round : ℤ → ℤ → Exec (Server D) (Unit {0})
  add_round id handle = do
    flags ← gets (λ s. s.rec_handlers_running)
    to_remove ← finished_handlers os flags
    remove_handlers os to_remove
    add_handler os id handle

  -- What follows `connectionInit`.
  abbrev after_init : Protocol D → ℤ → Option ℤ → Exec (Server D) (Unit {0})
  after_init p new connection = elim connection [
    | none ↦ pure tt
    | some socket ↦ do
      replaced ← gets (λ s. find new s.active_connections)
      modify (λ s. record s { active_connections = set new socket s.active_connections })
      delete_entry p replaced
      handle ← call os (spawn_receiver new)
      add_round new handle
  ]

  -- The maps are well-formed, and at least `n` calls have been made.
  abbrev Rounded : ℕ → Machine (Server D) → Type 0
  Rounded n m = IsTended m.self × (n ≤ length m.log)

  module _ {p : Protocol D} (t : Accepting p) where
    -- What is done with the flag that was read.
    abbrev looked_at : Exec (Server D) (Unit {0}) → Bool → Exec (Server D) (Unit {0})
    looked_at next running = elim running [
      | true ↦ (accept_round os p >> next)
      | false ↦ finish_accepting os
    ]
