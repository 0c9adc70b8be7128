-- ===== src/Examples/Threads.antt =====
-- Concrete interleavings: the thread 1 serves the socket 5, and the thread 9 sends to it.
use tcp_server_client.Prelude.{true, some, ◌≡◌, ◌≢◌, refl, arith}
use tcp_server_client.Server.Threads.{
  free, thread, begun, reading, closed, calling, checking, writing, finished, crashed, System,
  update, init, leaves, locks_to_shut, shuts, finishes, calls, checks, starts_writing, accepting,
  sending, Goes, here, later, Reach,
}
use tcp_server_client.Server.Threads.Handlers.{serves}
use tcp_server_client.Server.Threads.Safety.{send_to_open, all_ended}
use tcp_server_client.Server.Threads.Progress.{mutex_given_back}
use tcp_server_client.Server.Threads.Shared.{reads_while_writing}
use tcp_server_client.Server.Threads.Reuse.{first_open, first_open-Reach, reuse_crashes}

abbrev being_served : System
being_served = first_open 5 1

-- In the middle of `sendMsg`.
abbrev sending_one : System
sending_one = record being_served {
  lock = thread 9;
  pc = update (update (update being_served.pc 9 (calling 5)) 9 (checking 5)) 9 (writing 5);
}

sending_one-Reach : Reach sending_one
sending_one-Reach =
    later
      (later (later (first_open-Reach 5 1) (sending 9 5 (calls refl)))
        (sending 9 5 (checks refl refl)))
      (sending 9 5 (starts_writing refl refl))

send_to_open_example :
    (sending_one.lock ≡ thread 9) × (sending_one.active 5 ≡ true) × (sending_one.is_open 5 ≡ true)
send_to_open_example = send_to_open sending_one-Reach 9 5 refl

mutex_given_back_example : (t : System) × Goes sending_one t × (t.lock ≡ free)
mutex_given_back_example = mutex_given_back sending_one-Reach

-- A server that stops before any client has come.
abbrev stopped : System
stopped = record init { acc = finished }

stopped-Reach : Reach stopped
stopped-Reach =
    later
      (later
        (later (later here (accepting (leaves refl refl))) (accepting (locks_to_shut refl refl)))
        (accepting (shuts refl)))
      (accepting (finishes refl (λ k. refl)))

all_ended_example : serves (stopped.pc 1) ≢ some 5
all_ended_example = all_ended stopped-Reach refl 1 5

reuse_crashes_example :
    (s : System) × Reach s × (s.acc ≡ crashed) × (s.pc 1 ≡ closed 5) × (s.pc 2 ≡ begun 5)
reuse_crashes_example = reuse_crashes 5 1 2 (λ e. omega (arith, e))

reads_while_writing_example : (s : System) × Reach s × (s.pc 1 ≡ reading 5) × (s.pc 9 ≡ writing 5)
reads_while_writing_example = reads_while_writing 5 1 9 (λ e. omega (arith, e))
