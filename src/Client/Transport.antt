-- ===== src/Client/Transport.antt =====
-- What `receive` relies on in `readMsg` and `connectionDeinit`.
use tcp_server_client.Prelude.{true, ◌≡◌, [], ◌∷◌}
use tcp_server_client.Exec.{Call, Os, Machine, ok}
use tcp_server_client.Exec.Runs.{Returns}
use tcp_server_client.Exec.Trace.{is_read, spawned_by, written_by, IsQuiet}
use tcp_server_client.Prelude.Int.{ℤ}
use tcp_server_client.ReadMsg.{received}
use tcp_server_client.Client.{Client, Protocol}

-- One read is one call, whose bytes are the message; the end of a connection goes unseen by the
-- trace.
pub record Transport {D : Type 0} (os : Os) (p : Protocol D) : Type 0 where
  pub read_call : Client D → Call
  pub reads : (s : Client D) → is_read (read_call s) ≡ true
  pub hands_on_nothing : (s : Client D) → spawned_by (read_call s) ≡ []
  pub forwards_nothing : (s : Client D) (out : ℤ) → written_by out (read_call s) ≡ []
  pub read_law :
      (m : Machine (Client D))
      → p.read_msg m ≡ (
        ok (received (os.result m.log (read_call m.self)) (os.bytes m.log (read_call m.self))),
        record m { log = read_call m.self ∷ m.log },
      )
  pub deinit_law :
      (m : Machine (Client D)) → Returns (λ _ m'. IsQuiet os m m') (p.connection_deinit m)
