-- ===== src/Server/Transport.antt =====
-- What `listenMessage` relies on in `readMsg` and `connectionDeinit`.
use Prim.Native.Nat.{◌≤◌}
use tcp_server_client.Prelude.{true, ◌≡◌, List, [], ◌∷◌, length, arith}
use tcp_server_client.Prelude.Int.{ℤ, pos_part}
use tcp_server_client.Exec.{Call, Os, Machine, ok}
use tcp_server_client.Exec.Runs.{Returns}
use tcp_server_client.Exec.Trace.{is_read, spawned_by, written_by, IsQuiet}
use tcp_server_client.ReadMsg.{received, length-received, maximum_receive_package_size}
use tcp_server_client.Server.{Protocol}

-- One read is one call, whose bytes are the message; the end of a connection goes unseen by the
-- trace.
pub record Transport {D : Type 0} (os : Os) (p : Protocol D) : Type 0 where
  pub read_call : ℤ → Call
  pub reads : (s : ℤ) → is_read (read_call s) ≡ true
  pub hands_on_nothing : (s : ℤ) → spawned_by (read_call s) ≡ []
  pub forwards_nothing : (s out : ℤ) → written_by out (read_call s) ≡ []
  pub read_law :
      (s : ℤ) (m : Machine _)
      → p.read_msg s m ≡ (
        ok (received (os.result m.log (read_call s)) (os.bytes m.log (read_call s))),
        record m { log = read_call s ∷ m.log },
      )
  pub delete_law : (s : ℤ) (m : Machine _) → Returns (λ _ m'. IsQuiet os m m') (p.delete_socket s m)
  pub deinit_law :
      (s : ℤ) (m : Machine _) → Returns (λ _ m'. IsQuiet os m m') (p.connection_deinit s m)

-- A read hands over no more bytes than it was asked for, as `recv` and `SSL_read` promise.
abbrev pub ReadsAtMost : Os → Type 0
ReadsAtMost os =
    (log : List Call) (c : Call)
    → is_read c ≡ true
    → pos_part (os.result log c) ≤ maximum_receive_package_size

pub length-read :
    (os : Os)
    → ReadsAtMost os
    → (log : List Call) (c : Call) → is_read c ≡ true
    → length (received (os.result log c) (os.bytes log c)) ≤ maximum_receive_package_size
length-read os most log c h =
    omega (arith, most log c h, length-received (os.result log c) (os.bytes log c))
