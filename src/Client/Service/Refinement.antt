-- ===== src/Client/Service/Refinement.antt =====
-- That `Client` of src/template/Client.hpp keeps to what `Service` says, like a server.
use tcp_server_client.Prelude.{
  Bool, true, false, not, ◌≡◌, refl, sym, ◌∙◌, List, [], ◌∷◌, map, arith, inl, inr, Bool-cases,
}
use tcp_server_client.Prelude.Int.{ℤ, pos}
use tcp_server_client.Exec.{Bytes, Os, Machine, pure}
use tcp_server_client.Exec.Runs.{Returns, Returns-both, Returns-weaken, Runs-bind, Runs-if}
use tcp_server_client.Framing.{may_send, frame}
use tcp_server_client.Client.{
  Client, Protocol, start, stop, send_msg, is_running, set_work_on_message,
}
use tcp_server_client.Client.Lifecycle.{Lifecycle, IsFound, client_start-IsStarted, stop-IsIdle}
use tcp_server_client.Client.Api.{
  ApiCall, starts, stops, sends, asks_running, registers, loses, clear_running, perform,
  perform_all,
}
use tcp_server_client.Server.Api.{on_message, Reply, code, told, done}
use tcp_server_client.Server.Api as Server
use tcp_server_client.Server.Service.{
  Answers, ends, takes_not, says, registers_it, Conversation, silence, speaks,
}
use tcp_server_client.Server.Service.Refinement.{answered, start-answered, takes_told}
use tcp_server_client.Client.Service.{anyones, IsConsistent, IsHeld, service, Unseen}
use tcp_server_client.Client.Service.Framed.{stop-framing, start-Refusal}

module _ {D : Type 0} (os : Os) {p : Protocol D} (l : Lifecycle p) (u : Unseen p) where
  -- Has the connection been lost since the last `stop`, after this call?
  abbrev pub loss : Bool → ApiCall → Bool
  loss lost stops = false
  loss lost loses = true
  loss lost _ = lost

  -- What a call comes to.
  abbrev Kept : Bool → Machine (Client D) → ApiCall → Reply → Machine (Client D) → Type 0
  Kept lost m c r m' =
      IsHeld (loss lost c) m'.self × Answers (service m.self) (anyones c) r (service m'.self)

  start-Kept :
      (ip : Bytes) (port : ℤ) (m : Machine (Client D))
      → IsFound os l ip
      → IsConsistent m.self
      → Returns (λ r m'. Kept false m (starts ip port) (code r) m') (start os p ip port m)
  start-Kept ip port m found same =
      Returns-weaken (λ r m'. Kept false m (starts ip port) (code r) m') (start os p ip port m)
        (λ r m' h.
          (h.0.0, start-answered (service m.self) (service m'.self) port r h.1.0 h.0.1 h.1.1))
        (Returns-both _ _ (start os p ip port m) (client_start-IsStarted os l ip port m found same)
          (start-Refusal os l u ip port m found same))

  stop-Kept :
      (lost : Bool) (m : Machine (Client D))
      → Returns (λ _ m'. Kept lost m stops done m') (stop os p.connection_deinit m)
  stop-Kept lost m =
      Returns-weaken (λ _ m'. Kept lost m stops done m') (stop os p.connection_deinit m)
        (λ _ m' h. (
          h.0.1 ∙ sym h.0.0,
          answered (service m.self) (service m'.self) Server.stops done false h.1 h.0.0 ends,
        ))
        (Returns-both _ _ (stop os p.connection_deinit m)
          (stop-IsIdle os p.connection_deinit m l.deinit_law) (stop-framing os l u m))

  -- A message changes neither the flag nor the thread.
  same-IsHeld :
      (lost : Bool) (s s' : Client D)
      → s'.running ≡ s.running
      → s'.rec_handler ≡ s.rec_handler
      → IsHeld lost s
      → IsHeld lost s'
  same-IsHeld true s s' flag thread h = flag ∙ h
  same-IsHeld false s s' flag thread h = thread ∙ h ∙ sym flag

  send_msg-Kept :
      (lost : Bool) (msg : Bytes) (m : Machine (Client D))
      → IsHeld lost m.self
      → Returns (λ sent m'. Kept lost m (sends msg) (told sent) m') (send_msg os p msg m)
  unfolding send_msg
  send_msg-Kept lost msg m same =
      Runs-if Q (λ _. ⊥) (not (may_send m.self.framing msg)) _ _ m
        (λ _. (same, takes_not (pos 0) msg))
        (λ may.
          Runs-if Q (λ _. ⊥) m.self.running (p.write_msg (frame m.self.framing msg)) (pure false) m
            (λ _.
              Returns-weaken Q (p.write_msg (frame m.self.framing msg) m)
                (λ sent m' h. (
                  same-IsHeld lost m.self m'.self h.1 h.2 same,
                  answered (service m.self) (service m'.self) (Server.sends (pos 0) msg) (told sent)
                      m.self.running h.0 h.1
                      (takes_told (service m.self) (pos 0) msg sent (ground arith)),
                ))
                (u.write_unseen (frame m.self.framing msg) m))
            (λ _. (same, takes_not (pos 0) msg)))
    where
      Q : Bool → Machine (Client D) → Type 0
      Q sent m' = Kept lost m (sends msg) (told sent) m'

  loses-Kept :
      (lost : Bool) (m : Machine (Client D))
      → IsHeld lost m.self
      → Returns (λ _ m'. Kept lost m loses done m') (clear_running os p m)
  unfolding clear_running
  loses-Kept lost m held = elim (Bool-cases m.self.rec_handler) [
    | inl e ↦ rw e (refl, ends)
    | inr e ↦
        let off = stopped lost e held in
        rw e (off, answered (service m.self) (service m.self) Server.stops done false refl off ends)
  ]
    where
      stopped :
          (lost : Bool) → m.self.rec_handler ≡ false → IsHeld lost m.self → m.self.running ≡ false
      stopped true e h = h
      stopped false e h = sym h ∙ e

  -- The name of the server is found, and `stop` has been called since the connection was lost.
  abbrev pub MayStart : Bool → ApiCall → Type 0
  MayStart lost (starts ip port) = IsFound os l ip × (lost ≡ false)
  MayStart lost _ = Unit

  abbrev pub AllMayStart : Bool → List ApiCall → Type 0
  AllMayStart lost [] = Unit
  AllMayStart lost (c ∷ cs) = MayStart lost c × AllMayStart (loss lost c) cs

  abbrev pub loss_after : Bool → List ApiCall → Bool
  loss_after lost [] = lost
  loss_after lost (c ∷ cs) = loss_after (loss lost c) cs

  perform-Kept :
      (lost : Bool) (c : ApiCall) (m : Machine (Client D))
      → MayStart lost c
      → IsHeld lost m.self
      → Returns (Kept lost m c) (perform os p c m)
  unfolding perform is_running set_work_on_message
  perform-Kept true (starts ip port) m may held = ground (arith, may.1)
  perform-Kept false (starts ip port) m may held =
      Runs-bind (Kept false m (starts ip port)) (λ _. ⊥) (start os p ip port) _ m
        (start-Kept ip port m may.0 held) (λ _ m' h. h)
  perform-Kept lost stops m may held =
      Runs-bind (Kept lost m stops) (λ _. ⊥) (stop os p.connection_deinit) _ m (stop-Kept lost m)
        (λ _ m' h. h)
  perform-Kept lost (sends msg) m may held =
      Runs-bind (Kept lost m (sends msg)) (λ _. ⊥) (send_msg os p msg) _ m
        (send_msg-Kept lost msg m held) (λ _ m' h. h)
  perform-Kept lost asks_running m may held = (held, says)
  perform-Kept lost (registers given) m may held =
      (same-IsHeld lost m.self _ refl refl held, registers_it on_message given)
  perform-Kept lost loses m may held =
      Runs-bind (Kept lost m loses) (λ _. ⊥) (clear_running os p) _ m (loses-Kept lost m held)
        (λ _ m' h. h)

  all-Kept :
      (lost : Bool) (cs : List ApiCall) (m : Machine (Client D))
      → AllMayStart lost cs
      → IsHeld lost m.self
      → Returns
          (λ replies m'.
            IsHeld (loss_after lost cs) m'.self
            × Conversation (service m.self) (map anyones cs) replies (service m'.self))
          (perform_all os p cs m)
  unfolding perform_all
  all-Kept lost [] m may held = (held, silence (service m.self))
  all-Kept lost (c ∷ cs) m may held =
      Runs-bind Q (λ _. ⊥) (perform os p c) _ m (perform-Kept lost c m may.0 held)
        (λ r m1 h.
          Runs-bind Q (λ _. ⊥) (perform_all os p cs) _ m1 (all-Kept (loss lost c) cs m1 may.1 h.0)
            (λ rs m2 k. (
              k.0,
              speaks (service m.self) (service m1.self) (service m2.self) (anyones c) r
                  (map anyones cs) rs h.1 k.1,
            )))
    where
      Q : List Reply → Machine (Client D) → Type 0
      Q rs m' =
          IsHeld (loss_after lost (c ∷ cs)) m'.self
          × Conversation (service m.self) (anyones c ∷ map anyones cs) rs (service m'.self)

  -- Any sequence of calls of `start`, `stop`, `sendMsg`, `isRunning` and `setWorkOnMessage`, by one
  -- thread on a client whose receive thread is joinable exactly if it runs, in between which the
  -- receive thread may at any time find the connection broken and clear the flag. If names of servers
  -- are found, and if `stop` is called between such a loss and the next `start`, the calls throw
  -- nothing, and what they return is a conversation with the machine of two values that a server's
  -- user sees too: the framing, and whether the client runs. A loss is to that machine what a stop is.
  -- In the end the client does not run, if the connection was lost since the last stop, and otherwise
  -- its receive thread is again joinable exactly if it runs.
  pub client_perform_all-Refines :
      (cs : List ApiCall) (m : Machine (Client D))
      → AllMayStart false cs
      → IsConsistent m.self
      → Returns
          (λ replies m'.
            IsHeld (loss_after false cs) m'.self
            × Conversation (service m.self) (map anyones cs) replies (service m'.self))
          (perform_all os p cs m)
  client_perform_all-Refines cs m may same = all-Kept false cs m may same
