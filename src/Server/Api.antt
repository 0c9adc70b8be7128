-- ===== src/Server/Api.antt =====
-- Any sequence of calls of `start`, `stop`, `sendMsg`, `isRunning` and the setters.
use tcp_server_client.Prelude.{Bool, List, [], ◌∷◌}
use tcp_server_client.Prelude.Int.{ℤ}
use tcp_server_client.Exec.{Bytes, Os, Exec, pure, ◌>>=◌, ◌>>◌}
use tcp_server_client.Server.{
  Server, Protocol, start, stop, send_msg, is_running, set_work_on_message,
  set_create_forward_stream, set_work_on_established, set_work_on_closed,
}

-- The callbacks, with the creator of forward streams.
pub data Callback : Type 0 where
  on_message forward_stream on_established on_closed : Callback

pub data ApiCall : Type 0 where
  starts : ℤ → ApiCall
  stops : ApiCall
  sends : ℤ → Bytes → ApiCall
  asks_running : ApiCall
  registers : Callback → Bool → ApiCall

-- What such a call returns.
pub data Reply : Type 0 where
  code : ℤ → Reply
  told : Bool → Reply
  done : Reply

module _ {D : Type 0} (os : Os) (p : Protocol D) where
  -- Is the callback set from now on?
  unfoldable pub register : Callback → Bool → Exec (Server D) (Unit {0})
  unfolding set_work_on_message set_create_forward_stream set_work_on_established set_work_on_closed
  register on_message given = set_work_on_message given
  register forward_stream given = set_create_forward_stream given
  register on_established given = set_work_on_established given
  register on_closed given = set_work_on_closed given

  unfoldable pub perform : ApiCall → Exec (Server D) Reply
  perform (starts port) = do r ← start os p port; pure (code r)
  perform stops = do stop os; pure done
  perform (sends client msg) = do sent ← send_msg os p client msg; pure (told sent)
  perform asks_running = do running ← is_running; pure (told running)
  perform (registers callback given) = do register callback given; pure done

  unfoldable pub perform_all : List ApiCall → Exec (Server D) (List Reply)
  perform_all [] = pure []
  perform_all (c ∷ cs) = do reply ← perform c; replies ← perform_all cs; pure (reply ∷ replies)
