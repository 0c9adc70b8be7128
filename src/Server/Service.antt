-- ===== src/Server/Service.antt =====
-- What the methods of `Server` in src/template/Server.hpp promise to a user, as a machine with two
-- values.
pub mod Refinement
use tcp_server_client.Prelude.{
  Bool, true, false, not, ◌||◌, ◌≡◌, refl, sym, subst, ap, ◌∙◌, Option, none, some, List, [], ◌∷◌,
  arith, Bool-cases, inl, inr, ◌⊎◌,
}
use tcp_server_client.Prelude.Int.{ℤ, pos, negsuc, minus_one, nonzero, ltb_ℤ}
use tcp_server_client.Exec.{Bytes, Os, Machine, Exec, pure, ◌>>=◌, ◌>>◌}
use tcp_server_client.Exec.Runs.{Returns, Returns-both, Returns-weaken, Runs-bind, Runs-if}
use tcp_server_client.Framing.{Framing, may_send, frame}
use tcp_server_client.Maps.{find}
use tcp_server_client.Server.{
  Server, Protocol, start, start_socket, start_binding, start_listening, start_accepting, stop,
  send_msg, wrong_port, is_running, set_work_on_message, set_create_forward_stream,
  set_work_on_established, set_work_on_closed,
}
use tcp_server_client.Server.Lifecycle.{
  IsConsistent, IsStarted, Lifecycle, start-IsStarted, stop-IsIdle,
}
use tcp_server_client.Server.Api.{
  Callback, on_message, forward_stream, on_established, on_closed, ApiCall, starts, stops, sends,
  asks_running, registers, Reply, code, told, done, register, perform, perform_all,
}

-- What a user has to know of a server: what it was built with, and whether it runs.
pub record Service : Type 0 where
  pub framing : Framing
  pub running : Bool

abbrev pub bad_port : ℤ → Bool
bad_port port = ltb_ℤ port (pos 1) || ltb_ℤ (pos 65535) port

-- What a call may return, and the service after it.
pub data Answers (s : Service) : ApiCall → Reply → Service → Type 0 where
  runs_already : (port : ℤ) → s.running ≡ true → Answers s (starts port) (code minus_one) s
  refuses_port :
      (port : ℤ)
      → s.running ≡ false
      → bad_port port ≡ true
      → Answers s (starts port) (code wrong_port) s
  starts_up :
      (port : ℤ)
      → s.running ≡ false
      → bad_port port ≡ false
      → Answers s (starts port) (code (pos 0)) (record s { running = true })
  fails :
      (port r : ℤ)
      → s.running ≡ false
      → bad_port port ≡ false
      → nonzero r ≡ true
      → Answers s (starts port) (code r) s
  ends : Answers s stops done (record s { running = false })
  takes :
      (client : ℤ) (msg : Bytes)
      → may_send s.framing msg ≡ true
      → Answers s (sends client msg) (told true) s
  takes_not : (client : ℤ) (msg : Bytes) → Answers s (sends client msg) (told false) s
  says : Answers s asks_running (told s.running) s
  registers_it : (callback : Callback) (given : Bool) → Answers s (registers callback given) done s

-- A conversation is a sequence of calls, each with what it returned.
pub data Conversation : Service → List ApiCall → List Reply → Service → Type 0 where
  silence : (s : Service) → Conversation s [] [] s
  speaks :
      (s s' s'' : Service) (c : ApiCall) (r : Reply) (cs : List ApiCall) (rs : List Reply)
      → Answers s c r s'
      → Conversation s' cs rs s''
      → Conversation s (c ∷ cs) (r ∷ rs) s''

module _ {D : Type 0} where
  abbrev pub service : Server D → Service
  service s = record { framing = s.framing; running = s.running }

-- What a user's view relies on in the virtual functions: `init` leaves the framing alone, and
-- `writeMsg` the flag as well.
pub record Unseen {D : Type 0} (p : Protocol D) : Type 0 where
  pub init_unseen :
      (m : Machine (Server D)) → Returns (λ _ m'. m'.self.framing ≡ m.self.framing) (p.init m)
  pub write_unseen :
      (client : ℤ) (msg : Bytes) (m : Machine (Server D))
      → Returns
          (λ _ m'. (m'.self.framing ≡ m.self.framing) × (m'.self.running ≡ m.self.running))
          (p.write_msg client msg m)
