-- ===== src/Client/Service.antt =====
-- What the methods of `Client` in src/template/Client.hpp promise to a user: what a server promises.
pub mod Framed
pub mod Refinement
use tcp_server_client.Prelude.{
  Bool, true, false, not, ◌||◌, ◌≡◌, refl, sym, ◌∙◌, Option, none, some, List, [], ◌∷◌, map, arith,
  inl, inr,
}
use tcp_server_client.Prelude.Int.{ℤ, pos, minus_one, nonzero, eqb_ℤ}
use tcp_server_client.Exec.{
  Bytes, Os, Machine, Exec, pure, socket, setsockopt, connect, gethostbyname, ◌>>=◌, ◌>>◌,
}
use tcp_server_client.Exec.Runs.{
  Returns, Returns-both, Returns-weaken, Runs-bind, Runs-if, Runs-require,
}
use tcp_server_client.Framing.{may_send, frame}
use tcp_server_client.Client.{
  Client, Protocol, start, start_socket, start_connecting, start_connection, connection_ready,
  start_receiving, stop, fail, send_msg, is_running, set_work_on_message,
}
use tcp_server_client.Client.Lifecycle.{
  IsIdle, Lifecycle, IsFound, IsStarted, client_start-IsStarted, stop-IsIdle,
}
use tcp_server_client.Client.Api.{
  ApiCall, starts, stops, sends, asks_running, registers, loses, perform, perform_all,
}
use tcp_server_client.Server.Api.{on_message, Reply, code, told, done}
use tcp_server_client.Server.Api as Server
use tcp_server_client.Server.Service.{
  Service, bad_port, Answers, ends, takes_not, says, registers_it, Conversation, silence, speaks,
}
use tcp_server_client.Server.Service.Refinement.{Refusal, answered, start-answered, takes_told}

-- A call without what a service does not know of: the name of the server, and whom a message is for.
-- A loss is to it what a stop is that somebody else has called.
abbrev pub anyones : ApiCall → Server.ApiCall
anyones (starts ip port) = Server.starts port
anyones stops = Server.stops
anyones (sends msg) = Server.sends (pos 0) msg
anyones asks_running = Server.asks_running
anyones (registers given) = Server.registers on_message given
anyones loses = Server.stops

module _ {D : Type 0} where
  -- The receive thread is joinable exactly when the client runs.
  abbrev pub IsConsistent : Client D → Type 0
  IsConsistent s = s.rec_handler ≡ s.running

  -- After a loss the receive thread may be joinable still, until the next `stop`.
  abbrev pub IsHeld : Bool → Client D → Type 0
  IsHeld true s = s.running ≡ false
  IsHeld false s = IsConsistent s

  abbrev pub service : Client D → Service
  service s = record { framing = s.framing; running = s.running }

-- What a user's view relies on in the virtual functions: the framing is left alone, and `writeMsg`
-- changes neither the flag nor the thread.
pub record Unseen {D : Type 0} (p : Protocol D) : Type 0 where
  pub init_unseen :
      (m : Machine (Client D)) → Returns (λ _ m'. m'.self.framing ≡ m.self.framing) (p.init m)
  pub connection_unseen :
      (m : Machine (Client D))
      → Returns (λ _ m'. m'.self.framing ≡ m.self.framing) (p.connection_init m)
  pub write_unseen :
      (msg : Bytes) (m : Machine (Client D))
      → Returns
          (λ _ m'.
            (m'.self.framing ≡ m.self.framing)
            × (m'.self.running ≡ m.self.running)
            × (m'.self.rec_handler ≡ m.self.rec_handler))
          (p.write_msg msg m)
