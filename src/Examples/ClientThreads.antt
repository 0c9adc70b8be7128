-- ===== src/Examples/ClientThreads.antt =====
-- Concrete interleavings of the threads of a client.
use tcp_server_client.Prelude.{true, false, ◌≡◌, refl}
use tcp_server_client.Client.Threads.{
  idle, joined, ended, writing, System, init, connects, spawns, sets_running, clears, shuts, joins,
  loses, shut_fails, starting, ending, receiving, Steps, here, later, Reach,
}
use tcp_server_client.Client.Threads.Races.{
  IsQuiet, joined_receiver_ended, closes_twice, runs_without_receiver, writes_to_closed,
}

-- After a start, the client is stopped, and its receive thread has been joined.
abbrev stopped : System
stopped = record init { caller = joined true; receiver = ended }

stopped-Reach : Reach stopped
stopped-Reach =
    later
      (later
        (later
          (later
            (later
              (later
                (later (later here (starting (connects refl refl))) (starting (spawns refl refl)))
                (starting (sets_running refl)))
              (ending (clears refl)))
            (ending (shuts refl)))
          (receiving (loses refl refl)))
        (receiving (shut_fails refl refl)))
      (ending (joins true refl refl refl))

joined_receiver_ended_example : IsQuiet stopped
joined_receiver_ended_example = joined_receiver_ended stopped-Reach true refl

closes_twice_example : (t : System) × Steps init t × (t.caller ≡ idle) × (t.closes ≡ 2)
closes_twice_example = closes_twice init refl refl refl

runs_without_receiver_example :
    (t : System) × Steps init t × (t.caller ≡ idle) × (t.running ≡ true) × (t.receiver ≡ ended)
runs_without_receiver_example = runs_without_receiver init refl refl refl

writes_to_closed_example :
    (t : System) × Steps init t
    × (t.sender ≡ writing)
    × (t.closes ≡ 1)
    × (t.running ≡ false)
    × (t.receiver ≡ ended)
writes_to_closed_example = writes_to_closed init refl refl refl refl
