-- ===== src/Client/Threads/Stopping.antt =====
-- The user's thread of a client can always go on to the end of `stop`.
use tcp_server_client.Prelude.{false, ◌≡◌}
use tcp_server_client.Client.Threads.{idle, System, Goes}
use tcp_server_client.Client.Threads.Races.{IsQuiet}

-- The receive thread can end once the connection has, and the user's thread stays where it is.
abbrev CanEnd : System → Type 0
CanEnd s =
    (t : System) × Goes s t
    × IsQuiet t
    × (t.caller ≡ s.caller)
    × (t.joinable ≡ s.joinable)
    × (s.running ≡ false → t.running ≡ false)

-- The end of `stop`.
abbrev CanFinish : System → Type 0
CanFinish s =
    (t : System) × Goes s t
    × (t.caller ≡ idle)
    × (t.joinable ≡ false)
    × (s.running ≡ false → t.running ≡ false)

-- The client is stopped.
abbrev pub Stoppable : System → Type 0
Stoppable s =
    (t : System) × Goes s t × (t.caller ≡ idle) × (t.running ≡ false) × (t.joinable ≡ false)
