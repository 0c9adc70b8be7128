-- ===== src/Client/Api.antt =====
-- Any sequence of calls of `start`, `stop`, `sendMsg`, `isRunning` and `setWorkOnMessage` of a client,
-- in between which its receive thread may write the flag.
use tcp_server_client.Prelude.{Bool, false, if◌then◌else◌, List, [], ◌∷◌}
use tcp_server_client.Prelude.Int.{ℤ}
use tcp_server_client.Exec.{Bytes, Os, Exec, pure, gets, modify, ◌>>=◌, ◌>>◌}
use tcp_server_client.Client.{
  Client, Protocol, start, stop, send_msg, is_running, set_work_on_message,
}
use tcp_server_client.Server.Api.{Reply, code, told, done}

pub data ApiCall : Type 0 where
  starts : Bytes → ℤ → ApiCall
  stops : ApiCall
  sends : Bytes → ApiCall
  asks_running : ApiCall
  registers : Bool → ApiCall
  -- No call: the receive thread, if there is one, finds the connection broken.
  loses : ApiCall

module _ {D : Type 0} (os : Os) (p : Protocol D) where
  -- `running = false` in `receive`.
  unfoldable pub clear_running : Exec (Client D) (Unit {0})
  clear_running = do
    joinable ← gets (λ s. s.rec_handler)
    if joinable then modify (λ s. record s { running = false }) else pure tt

  unfoldable pub perform : ApiCall → Exec (Client D) Reply
  perform (starts ip port) = do r ← start os p ip port; pure (code r)
  perform stops = do stop os p.connection_deinit; pure done
  perform (sends msg) = do sent ← send_msg os p msg; pure (told sent)
  perform asks_running = do running ← is_running; pure (told running)
  perform (registers given) = do set_work_on_message given; pure done
  perform loses = do clear_running; pure done

  unfoldable pub perform_all : List ApiCall → Exec (Client D) (List Reply)
  perform_all [] = pure []
  perform_all (c ∷ cs) = do reply ← perform c; replies ← perform_all cs; pure (reply ∷ replies)
