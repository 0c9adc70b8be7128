-- ===== src/Server/Threads/Shared.antt =====
-- A connection that two threads use at a time.
use tcp_server_client.Prelude.{ℕ, ◌≡◌, ◌≢◌, refl, arith}
use tcp_server_client.Server.Threads.{
  begun, reading, writing, System, init, looks_up, finds, calls, checks, starts_writing, receiving,
  sending, later, Reach,
}
use tcp_server_client.Server.Threads.Progress.{update_self}
use tcp_server_client.Server.Threads.Reuse.{first_open-Reach}

-- The mutex does not keep `readMsg` and `writeMsg` of one connection apart: for any socket and any two
-- threads, a state can be reached in which one of them, the receive thread, reads from the connection
-- while the other writes to it.
pub reads_while_writing :
    (fd i j : ℕ) → i ≢ j → (s : System) × Reach s × (s.pc i ≡ reading fd) × (s.pc j ≡ writing fd)
reads_while_writing fd i j differ = (
  _,
  later
      (later
        (later
          (later
            (later (first_open-Reach fd i)
              (receiving i fd (looks_up (update_self init.pc i (begun fd)) refl)))
            (receiving i fd (finds (ground arith) (ground arith))))
          (sending j fd (calls (ground arith))))
        (sending j fd (checks (ground arith) refl)))
      (sending j fd (starts_writing (ground arith) (ground arith))),
  ground arith,
  ground arith,
)
