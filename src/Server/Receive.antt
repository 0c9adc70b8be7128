-- ===== src/Server/Receive.antt =====
-- `Server::listenMessage` of src/template/Server.hpp: the thread that serves one connection.
use tcp_server_client.Prelude.{
  ℕ, zero, suc, not, true, Option, none, some, [], ◌∷◌, ◌++◌, if◌then◌else◌,
}
use tcp_server_client.Prelude.Int.{ℤ, pos, eqb_ℤ}
use tcp_server_client.Exec.{
  Bytes, shut_rdwr, shutdown, close, spawn_worker, clear_flag, create_stream, write_stream,
  work_on_established, work_on_message, work_on_closed, undefined_behaviour, Os, Exec, pure, throw,
  gets, modify, call, call_if, diverge, ◌>>=◌, ◌>>◌,
}
use tcp_server_client.Framing.{split_chunk}
use tcp_server_client.Workers.{Workers, no_workers, prune, join_all}
use tcp_server_client.Maps.{find, set, erase}
use tcp_server_client.Server.{Server, Protocol, delete_entry}

module _ {S : Type 0} (os : Os) where
  -- `Server_running_manager`: the flag is cleared when the body is left, also by an exception.
  unfoldable pub running_manager : {A : Type 0} → ℤ → Exec S A → Exec S A
  running_manager flag body m =
      let (r, m') = body m in (r, record m' { log = clear_flag flag ∷ m'.log })

module _ {D : Type 0} (os : Os) where
  -- What the thread of one message runs.
  unfoldable pub worker_thread : ℤ → ℤ → Bytes → Exec (Server D) (Unit {0})
  worker_thread flag client text =
      running_manager os flag
        (do worker ← gets (λ s. s.work_on_message); call_if os worker (work_on_message client text))

  -- A message is complete: start its thread, remove the finished ones, and keep the new one.
  unfoldable pub handle_message : ℤ → Workers → Bytes → Exec (Server D) Workers
  handle_message client w text = do
    handle ← call os (spawn_worker client text)
    left ← prune os w
    pure (record {
      handlers = left.handlers ++ (record { handle = handle; joinable = true }) ∷ [];
      running = left.running ++ handle ∷ [];
    })

  -- What is done with a chunk that is not empty. The locals are the buffer and the workers. The
  -- pointer to a stream is followed without a test for null, which is 0.
  unfoldable pub handle_chunk : ℤ → Workers → Bytes → Bytes → Exec (Server D) (Bytes × Workers)
  handle_chunk client w buffer msg = do
    cfg ← gets (λ s. s.framing)
    if cfg.enabled then split_chunk cfg (handle_message client) w buffer msg else do
      stream ← gets (λ s. find client s.forward_streams)
      elim stream [
        | none ↦ pure (buffer, w)
        | some out ↦
            (if eqb_ℤ out (pos 0)
              then throw undefined_behaviour
              else (call os (write_stream out msg) >> pure (buffer, w)))
      ]

  -- `activeConnections.erase(clientId)`, with the socket of the entry.
  unfoldable pub erase_connection : Protocol D → ℤ → Exec (Server D) (Unit {0})
  erase_connection p client = do
    entry ← gets (λ s. find client s.active_connections)
    modify (λ s. record s { active_connections = erase client s.active_connections })
    delete_entry p entry

  -- The connection is broken.
  unfoldable pub close_connection : Protocol D → ℤ → ℤ → Workers → Exec (Server D) (Unit {0})
  close_connection p client connection w = do
    p.connection_deinit connection
    call os (shutdown client shut_rdwr)
    erase_connection p client
    worker ← gets (λ s. s.work_on_closed)
    call_if os worker (work_on_closed client)
    call os (close client)
    join_all os w.handlers
    modify (λ s. record s { forward_streams = erase client s.forward_streams })

  -- One round of `while (1)` for what was read, and `next` for the rounds after it.
  unfoldable pub receive_round :
      Protocol D
      → (Workers → Bytes → Exec (Server D) (Unit {0}))
      → ℤ
      → ℤ
      → Workers
      → Bytes
      → Bytes
      → Exec (Server D) (Unit {0})
  receive_round p next client connection w buffer [] = close_connection p client connection w
  receive_round p next client connection w buffer (c ∷ cs) = do
    (buffer', w') ← handle_chunk client w buffer (c ∷ cs)
    next w' buffer'

  -- `while (1)`; `fuel` bounds how many rounds there are.
  unfoldable pub receive_loop :
      Protocol D → ℕ → ℤ → ℤ → Workers → Bytes → Exec (Server D) (Unit {0})
  receive_loop p zero client connection w buffer = diverge
  receive_loop p (suc fuel) client connection w buffer = do
    msg ← p.read_msg connection
    receive_round p (receive_loop p fuel client connection) client connection w buffer msg

  -- "Create continuous stream for this connection"
  unfoldable pub add_forward_stream : ℤ → Exec (Server D) (Unit {0})
  add_forward_stream client = do
    creator ← gets (λ s. s.generate_new_forward_stream)
    if not creator then pure tt else do
      stream ← call os (create_stream client)
      modify (λ s. record s { forward_streams = set client stream s.forward_streams })

  -- The new connection, up to the loop.
  unfoldable pub open_connection : ℤ → Exec (Server D) (Unit {0})
  open_connection client = do
    add_forward_stream client
    worker ← gets (λ s. s.work_on_established)
    call_if os worker (work_on_established client)

  -- For the entry of the client in `activeConnections`.
  unfoldable pub serve_connection : Protocol D → ℕ → ℤ → Option ℤ → Exec (Server D) (Unit {0})
  serve_connection p fuel client none = pure tt
  serve_connection p fuel client (some connection) = do
    open_connection client
    receive_loop p fuel client connection no_workers []

  unfoldable pub listen_message : Protocol D → ℕ → ℤ → ℤ → Exec (Server D) (Unit {0})
  listen_message p fuel client flag = running_manager os flag (do
    connection ← gets (λ s. find client s.active_connections)
    serve_connection p fuel client connection)
