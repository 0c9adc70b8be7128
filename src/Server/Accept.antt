-- ===== src/Server/Accept.antt =====
-- `Server::listenConnection` of src/template/Server.hpp: the thread that accepts connections.
use tcp_server_client.Prelude.{
  ℕ, zero, suc, not, true, false, Option, none, some, List, [], ◌∷◌, if◌then◌else◌,
}
use tcp_server_client.Prelude.Int.{ℤ, minus_one, nonzero, eqb_ℤ}
use tcp_server_client.Exec.{
  shut_rd, shutdown, load_running, accept, spawn_receiver, join_receiver, system_error, Os, Exec,
  pure, throw, gets, modify, call, diverge, ◌>>=◌, ◌>>◌,
}
use tcp_server_client.Workers.{Thread, is_running}
use tcp_server_client.Maps.{find, set, erase, keys}
use tcp_server_client.Server.{delete_entry, Server, Protocol}

module _ {D : Type 0} (os : Os) where
  -- "Get all finished receive handlers"
  unfoldable pub finished_handlers : List (ℤ × ℤ) → Exec (Server D) (List ℤ)
  finished_handlers [] = pure []
  finished_handlers ((id, flag) ∷ rest) = do
    busy ← is_running os flag
    others ← finished_handlers rest
    pure (if not busy then id ∷ others else others)

  unfoldable pub join_thread : ℤ → Thread → Exec (Server D) (Unit {0})
  join_thread id t = if not t.joinable then throw system_error else do
    call os (join_receiver t.handle)
    modify (λ s. record s { rec_handlers = set id (record t { joinable = false }) s.rec_handlers })

  -- `recHandlers[id].join()`: a missing entry is made, and joins no better than one joined before.
  unfoldable pub join_handler : ℤ → Exec (Server D) (Unit {0})
  join_handler id = do
    thread ← gets (λ s. find id s.rec_handlers)
    elim thread [ none ↦ throw system_error | some t ↦ join_thread id t ]

  -- "Remove finished receive handlers"
  unfoldable pub remove_handlers : List ℤ → Exec (Server D) (Unit {0})
  remove_handlers [] = pure tt
  remove_handlers (id ∷ rest) = do
    join_handler id
    modify (λ s. record s {
      rec_handlers = erase id s.rec_handlers;
      rec_handlers_running = erase id s.rec_handlers_running;
    })
    remove_handlers rest

  unfoldable pub check_replaced : Option Thread → Exec (Server D) (Unit {0})
  check_replaced none = pure tt
  check_replaced (some t) = if t.joinable then throw system_error else pure tt

  -- `recHandlers[newConnection] = std::move(rec_t)`: assigning to a joinable thread ends the
  -- program, which stands as `system_error` here.
  unfoldable pub add_handler : ℤ → ℤ → Exec (Server D) (Unit {0})
  add_handler id handle = do
    old ← gets (λ s. find id s.rec_handlers)
    check_replaced old
    modify (λ s. record s {
      rec_handlers = set id (record { handle = handle; joinable = true }) s.rec_handlers;
      rec_handlers_running = set id handle s.rec_handlers_running;
    })

  -- One round of `while (running)`.
  unfoldable pub accept_round : Protocol D → Exec (Server D) (Unit {0})
  accept_round p = do
    fd ← gets (λ s. s.tcp_socket)
    new_connection ← call os (accept fd)
    if eqb_ℤ minus_one new_connection then pure tt else do
      connection ← p.connection_init new_connection
      elim connection [
        | none ↦ pure tt
        | some socket ↦ do
          replaced ← gets (λ s. find new_connection s.active_connections)
          modify (λ s. record s {
            active_connections = set new_connection socket s.active_connections;
          })
          delete_entry p replaced
          handle ← call os (spawn_receiver new_connection)
          flags ← gets (λ s. s.rec_handlers_running)
          to_remove ← finished_handlers flags
          remove_handlers to_remove
          add_handler new_connection handle
      ]

  -- `shutdown(it.first, SHUT_RD)` for every active connection.
  unfoldable pub shutdown_all : List ℤ → Exec (Server D) (Unit {0})
  shutdown_all [] = pure tt
  shutdown_all (id ∷ rest) = do call os (shutdown id shut_rd); shutdown_all rest

  -- `it.second.join()` for every receive handler.
  unfoldable pub join_handlers : List ℤ → Exec (Server D) (Unit {0})
  join_handlers [] = pure tt
  join_handlers (id ∷ rest) = do join_handler id; join_handlers rest

  -- What follows the loop.
  unfoldable pub finish_accepting : Exec (Server D) (Unit {0})
  finish_accepting = do
    ids ← gets (λ s. keys s.active_connections)
    shutdown_all ids
    handlers ← gets (λ s. keys s.rec_handlers)
    join_handlers handlers

  -- `running` is cleared by another thread, so what the loop reads comes from outside. The rounds are
  -- bounded by `fuel`.
  unfoldable pub listen_connection : Protocol D → ℕ → Exec (Server D) (Unit {0})
  listen_connection p zero = diverge
  listen_connection p (suc fuel) = do
    running ← call os load_running
    elim (nonzero running) [
      | true ↦ (accept_round p >> listen_connection p fuel)
      | false ↦ finish_accepting
    ]
