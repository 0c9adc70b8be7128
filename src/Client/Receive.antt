-- ===== src/Client/Receive.antt =====
-- `Client::receive` of src/template/Client.hpp: the thread that reads from the server.
use tcp_server_client.Prelude.{ℕ, zero, suc, true, false, [], ◌∷◌, ◌++◌, map, if◌then◌else◌}
use tcp_server_client.Prelude.Int.{ℤ, pos, nonzero}
use tcp_server_client.Exec.{
  Bytes, shut_rdwr, shutdown, close, spawn_worker, clear_flag, write_stream, work_on_message, Os,
  Exec, pure, gets, modify, call, call_if, diverge, ◌>>=◌, ◌>>◌,
}
use tcp_server_client.Framing.{split_chunk}
use tcp_server_client.Workers.{Thread, prune, join_all}
use tcp_server_client.Client.{Client, Protocol}

-- A thread after `join`.
abbrev pub joined : Thread → Thread
joined t = record t { joinable = false }

module _ {S : Type 0} (os : Os) where
  -- `Client_running_manager`: the flag is cleared when the body is left, also by an exception.
  unfoldable pub running_manager : {A : Type 0} → ℤ → Exec S A → Exec S A
  running_manager flag body m =
      let (r, m') = body m in (r, record m' { log = clear_flag flag ∷ m'.log })

module _ {D : Type 0} (os : Os) where
  -- What the thread of one message runs.
  unfoldable pub worker_thread : ℤ → Bytes → Exec (Client D) (Unit {0})
  worker_thread flag text =
      running_manager os flag (do
        worker ← gets (λ s. s.work_on_message)
        call_if os worker (work_on_message (pos 0) text))

  -- A message is complete: start its thread, remove the finished ones, and keep the new one. The
  -- vectors are members, so that the loop over a chunk has no local variable but the buffer.
  unfoldable pub handle_message : Unit {0} → Bytes → Exec (Client D) (Unit {0})
  handle_message _ text = do
    handle ← call os (spawn_worker (pos 0) text)
    w ← gets (λ s. s.work)
    left ← prune os w
    modify (λ s. record s {
      work = record {
        handlers = left.handlers ++ (record { handle = handle; joinable = true }) ∷ [];
        running = left.running ++ handle ∷ [];
      };
    })

  -- What is done with a chunk that is not empty; the result is the buffer.
  unfoldable pub handle_chunk : Bytes → Bytes → Exec (Client D) (Bytes × Unit {0})
  handle_chunk buffer msg = do
    cfg ← gets (λ s. s.framing)
    if cfg.enabled
        then split_chunk cfg handle_message tt buffer msg
        else (call os (write_stream (pos 0) msg) >> pure (buffer, tt))

  -- `for (auto &it : workHandlers) it.join();`, after which the threads are in the vector still.
  unfoldable pub join_workers : Exec (Client D) (Unit {0})
  join_workers = do
    w ← gets (λ s. s.work)
    join_all os w.handlers
    modify (λ s. record s { work = record s.work { handlers = map joined s.work.handlers } })

  -- The connection is broken.
  unfoldable pub lose_connection : Protocol D → Exec (Client D) (Unit {0})
  lose_connection p = do
    modify (λ s. record s { running = false })
    join_workers
    p.connection_deinit
    fd ← gets (λ s. s.tcp_socket)
    shut ← call os (shutdown fd shut_rdwr)
    if nonzero shut then pure tt else do fd ← gets (λ s. s.tcp_socket); call os (close fd); pure tt

  -- One round of `while (1)` for what was read, and `next` for the rounds after it.
  unfoldable pub receive_round :
      Protocol D → (Bytes → Exec (Client D) (Unit {0})) → Bytes → Bytes → Exec (Client D) (Unit {0})
  receive_round p next buffer [] = lose_connection p
  receive_round p next buffer (c ∷ cs) = do
    (buffer', _) ← handle_chunk buffer (c ∷ cs)
    next buffer'

  -- `while (1)`; `fuel` bounds how many rounds there are.
  unfoldable pub receive_loop : Protocol D → ℕ → Bytes → Exec (Client D) (Unit {0})
  receive_loop p zero buffer = diverge
  receive_loop p (suc fuel) buffer = do
    msg ← p.read_msg
    receive_round p (receive_loop p fuel) buffer msg

  unfoldable pub receive : Protocol D → ℕ → Exec (Client D) (Unit {0})
  receive p fuel = receive_loop p fuel []
