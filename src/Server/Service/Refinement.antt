-- ===== src/Server/Service/Refinement.antt =====
-- That `Server` of src/template/Server.hpp keeps to what `Service` says.
use tcp_server_client.Prelude.{
  Bool, true, false, not, ◌||◌, ◌≡◌, refl, sym, subst, ◌∙◌, Option, none, some, List, [], ◌∷◌,
  arith, Bool-cases, inl, inr, ◌⊎◌,
}
use tcp_server_client.Prelude.Int.{ℤ, pos, minus_one, nonzero}
use tcp_server_client.Exec.{Bytes, Os, Machine, Exec, pure}
use tcp_server_client.Exec.Runs.{Returns, Returns-both, Returns-weaken, Runs-bind, Runs-if}
use tcp_server_client.Framing.{may_send, frame}
use tcp_server_client.Maps.{find}
use tcp_server_client.Server.{
  Server, Protocol, start, start_socket, start_binding, start_listening, start_accepting, stop,
  send_msg, wrong_port, is_running, set_work_on_message, set_create_forward_stream,
  set_work_on_established, set_work_on_closed,
}
use tcp_server_client.Server.Lifecycle.{IsConsistent, Lifecycle, start-IsStarted, stop-IsIdle}
use tcp_server_client.Server.Api.{
  Callback, on_message, forward_stream, on_established, on_closed, ApiCall, starts, stops, sends,
  asks_running, registers, Reply, code, told, done, register, perform, perform_all,
}
use tcp_server_client.Server.Service.{
  Service, bad_port, Answers, runs_already, refuses_port, starts_up, fails, ends, takes, takes_not,
  says, registers_it, Conversation, silence, speaks, service, Unseen,
}

-- The code of a start that is refused.
abbrev pub Refusal : Service → ℤ → ℤ → Type 0
Refusal s port r =
    (s.running ≡ true) × (r ≡ minus_one)
    ⊎ (s.running ≡ false) × (bad_port port ≡ true) × (r ≡ wrong_port)
    ⊎ (s.running ≡ false) × (bad_port port ≡ false)

pub answered :
    (s s' : Service) (c : ApiCall) (r : Reply) (running : Bool)
    → s'.framing ≡ s.framing
    → s'.running ≡ running
    → Answers s c r (record s { running = running })
    → Answers s c r s'
answered s s' c r running same e h =
    subst (λ f. Answers s c r (record { framing = f; running = s'.running })) (sym same)
      (subst (λ b. Answers s c r (record s { running = b })) (sym e) h)

zero-is : (r : ℤ) → nonzero r ≡ false → r ≡ pos 0
zero-is r h = ground arith

-- What is known of a start makes an answer.
pub start-answered :
    (s s' : Service) (port r : ℤ)
    → s'.framing ≡ s.framing
    → s'.running ≡ s.running || not (nonzero r)
    → Refusal s port r
    → Answers s (starts port) (code r) s'
start-answered s s' port r same e (inl (on, refused)) =
    answered s s' (starts port) (code r) s.running same (rw (refused, on) at e ∙ sym on)
      (subst (λ r. Answers s (starts port) (code r) s) (sym refused) (runs_already port on))
start-answered s s' port r same e (inr (inl (off, bad, refused))) =
    answered s s' (starts port) (code r) s.running same (ground arith)
      (subst (λ r. Answers s (starts port) (code r) s) (sym refused) (refuses_port port off bad))
start-answered s s' port r same e (inr (inr (off, good))) = elim (Bool-cases (nonzero r)) [
  | inl failed ↦
      answered s s' (starts port) (code r) s.running same (ground arith)
        (fails port r off good failed)
  | inr up ↦ answered s s' (starts port) (code r) true same (ground arith) (
      subst (λ r. Answers s (starts port) (code r) (record s { running = true }))
        (sym (zero-is r up)) (starts_up port off good))
]

pub takes_told :
    (s : Service) (client : ℤ) (msg : Bytes) (sent : Bool)
    → may_send s.framing msg ≡ true
    → Answers s (sends client msg) (told sent) s
takes_told s client msg true may = takes client msg may
takes_told s client msg false may = takes_not client msg

module _ {D : Type 0} (os : Os) where
  start_socket-framing :
      (port r : ℤ) (m : Machine (Server D))
      → m.self.acc_handler ≡ false
      → Returns (λ _ m'. m'.self.framing ≡ m.self.framing) (start_socket os port r m)
  unfolding start_socket start_binding start_listening start_accepting stop
  start_socket-framing port r m idle = ground arith

  pub stop-framing :
      (m : Machine (Server D)) → Returns (λ _ m'. m'.self.framing ≡ m.self.framing) (stop os m)
  unfolding stop
  stop-framing m = ground arith

  module _ {p : Protocol D} (l : Lifecycle p) (u : Unseen p) where
    start-Refusal :
        (port : ℤ) (m : Machine (Server D))
        → IsConsistent m.self
        → Returns
            (λ r m'. (m'.self.framing ≡ m.self.framing) × Refusal (service m.self) port r)
            (start os p port m)
    unfolding start
    start-Refusal port m same =
        Runs-if Q (λ _. ⊥) m.self.running _ _ m (λ on. (refl, inl (on, refl)))
          (λ off.
            Runs-if Q (λ _. ⊥) (bad_port port) _ _ m (λ bad. (refl, inr (inl (off, bad, refl))))
              (λ good.
                Runs-bind Q (λ _. ⊥) p.init _ m
                  (Returns-both _ _ (p.init m) (l.init_law m (off, same ∙ off)) (u.init_unseen m))
                  (λ r m1 h.
                    Runs-if Q (λ _. ⊥) (nonzero r) (pure r) (start_socket os port r) m1
                      (λ _. (h.1, inr (inr (off, good))))
                      (λ _.
                        Returns-weaken Q (start_socket os port r m1)
                          (λ _ m2 k. (k ∙ h.1, inr (inr (off, good))))
                          (start_socket-framing port r m1 h.0.1)))))
      where
        Q : ℤ → Machine (Server D) → Type 0
        Q r m' = (m'.self.framing ≡ m.self.framing) × Refusal (service m.self) port r

    -- What a call comes to.
    abbrev Kept : Machine (Server D) → ApiCall → Reply → Machine (Server D) → Type 0
    Kept m c r m' = IsConsistent m'.self × Answers (service m.self) c r (service m'.self)

    start-Kept :
        (port : ℤ) (m : Machine (Server D))
        → IsConsistent m.self
        → Returns (λ r m'. Kept m (starts port) (code r) m') (start os p port m)
    start-Kept port m same =
        Returns-weaken (λ r m'. Kept m (starts port) (code r) m') (start os p port m)
          (λ r m' h.
            (h.0.0, start-answered (service m.self) (service m'.self) port r h.1.0 h.0.1 h.1.1))
          (Returns-both _ _ (start os p port m) (start-IsStarted os l port m same)
            (start-Refusal port m same))

    stop-Kept : (m : Machine (Server D)) → Returns (λ _ m'. Kept m stops done m') (stop os m)
    stop-Kept m =
        Returns-weaken (λ _ m'. Kept m stops done m') (stop os m)
          (λ _ m' h. (
            h.0.1 ∙ sym h.0.0,
            answered (service m.self) (service m'.self) stops done false h.1 h.0.0 ends,
          ))
          (Returns-both _ _ (stop os m) (stop-IsIdle os m) (stop-framing m))

    written-Kept :
        (connection : Option ℤ) (client : ℤ) (msg text : Bytes) (m : Machine (Server D))
        → IsConsistent m.self
        → may_send m.self.framing msg ≡ true
        → Returns
            (λ sent m'. Kept m (sends client msg) (told sent) m')
            (let x : Exec (Server D) Bool = elim connection [
              | none ↦ pure false
              | some _ ↦ p.write_msg client text
            ] in
              x m)
    written-Kept none client msg text m same may = (same, takes_not client msg)
    written-Kept (some _) client msg text m same may =
        Returns-weaken (λ sent m'. Kept m (sends client msg) (told sent) m')
          (p.write_msg client text m)
          (λ sent m' h. (
            h.0,
            answered (service m.self) (service m'.self) (sends client msg) (told sent)
                m.self.running h.1.0 h.1.1 (takes_told (service m.self) client msg sent may),
          ))
          (Returns-both _ _ (p.write_msg client text m) (l.write_law client text m same)
            (u.write_unseen client text m))

    send_msg-Kept :
        (client : ℤ) (msg : Bytes) (m : Machine (Server D))
        → IsConsistent m.self
        → Returns (λ sent m'. Kept m (sends client msg) (told sent) m') (send_msg os p client msg m)
    unfolding send_msg
    send_msg-Kept client msg m same =
        Runs-if (λ sent m'. Kept m (sends client msg) (told sent) m') (λ _. ⊥)
          (not (may_send m.self.framing msg)) _ _ m (λ _. (same, takes_not client msg))
          (λ may.
            written-Kept (find client m.self.active_connections) client msg
              (frame m.self.framing msg) m same (ground arith))

    register-Kept :
        (callback : Callback) (given : Bool) (m : Machine (Server D))
        → IsConsistent m.self
        → Returns
            (λ _ m'. Kept m (registers callback given) done m')
            (register os p callback given m)
    unfolding register set_work_on_message set_create_forward_stream set_work_on_established
        set_work_on_closed
    register-Kept on_message given m same = (same, registers_it on_message given)
    register-Kept forward_stream given m same = (same, registers_it forward_stream given)
    register-Kept on_established given m same = (same, registers_it on_established given)
    register-Kept on_closed given m same = (same, registers_it on_closed given)

    perform-Kept :
        (c : ApiCall) (m : Machine (Server D))
        → IsConsistent m.self
        → Returns (Kept m c) (perform os p c m)
    unfolding perform is_running
    perform-Kept (starts port) m same =
        Runs-bind (Kept m (starts port)) (λ _. ⊥) (start os p port) _ m (start-Kept port m same)
          (λ _ m' h. h)
    perform-Kept stops m same =
        Runs-bind (Kept m stops) (λ _. ⊥) (stop os) _ m (stop-Kept m) (λ _ m' h. h)
    perform-Kept (sends client msg) m same =
        Runs-bind (Kept m (sends client msg)) (λ _. ⊥) (send_msg os p client msg) _ m
          (send_msg-Kept client msg m same) (λ _ m' h. h)
    perform-Kept asks_running m same = (same, says)
    perform-Kept (registers callback given) m same =
        Runs-bind (Kept m (registers callback given)) (λ _. ⊥) (register os p callback given) _ m
          (register-Kept callback given m same) (λ _ m' h. h)

    -- Any sequence of calls of `start`, `stop`, `sendMsg`, `isRunning` and the setters of callbacks,
    -- by one thread on a server whose accept thread is joinable exactly if it runs, throws nothing, and
    -- what the calls return is a conversation with a machine of two values, the framing and whether
    -- the server runs. A start is refused with -1 while it runs and with 10 at a bad port, and otherwise
    -- returns 0 and it runs, or another code and it does not; a stop ends it; a message that breaks
    -- the framing's rules is never told to be sent; nothing else changes the two values. The server is
    -- again one whose accept thread is joinable exactly if it runs.
    pub perform_all-Refines :
        (cs : List ApiCall) (m : Machine (Server D))
        → IsConsistent m.self
        → Returns
            (λ replies m'.
              IsConsistent m'.self × Conversation (service m.self) cs replies (service m'.self))
            (perform_all os p cs m)
    unfolding perform_all
    perform_all-Refines [] m same = (same, silence (service m.self))
    perform_all-Refines (c ∷ cs) m same =
        Runs-bind Q (λ _. ⊥) (perform os p c) _ m (perform-Kept c m same)
          (λ r m1 h.
            Runs-bind Q (λ _. ⊥) (perform_all os p cs) _ m1 (perform_all-Refines cs m1 h.0)
              (λ rs m2 k. (
                k.0,
                speaks (service m.self) (service m1.self) (service m2.self) c r cs rs h.1 k.1,
              )))
      where
        Q : List Reply → Machine (Server D) → Type 0
        Q replies m' =
            IsConsistent m'.self × Conversation (service m.self) (c ∷ cs) replies (service m'.self)

    -- The accept thread is joinable after any sequence of calls exactly if the server runs, so that
    -- `start` never meets a joinable one.
    pub perform_all-IsConsistent :
        (cs : List ApiCall) (m : Machine (Server D))
        → IsConsistent m.self
        → Returns (λ _ m'. IsConsistent m'.self) (perform_all os p cs m)
    perform_all-IsConsistent cs m same =
        Returns-weaken (λ _ m'. IsConsistent m'.self) (perform_all os p cs m) (λ _ m' h. h.0)
          (perform_all-Refines cs m same)
