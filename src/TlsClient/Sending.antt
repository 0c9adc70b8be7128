-- ===== src/TlsClient/Sending.antt =====
-- `sendMsg` of `TlsClient`, which hands the length of a message to OpenSSL as an `int`.
use tcp_server_client.Prelude.{ℕ, ◌<◌, true, false, ◌&&◌, length, ◌∷◌, ◌≡◌, ◌⊎◌, ◌↔◌, arith}
use tcp_server_client.Prelude.Int.{pos, eqb_ℤ, to_signed}
use tcp_server_client.Exec.{Bytes, Os, Machine, ssl_write}
use tcp_server_client.Exec.Runs.{Returns}
use tcp_server_client.Framing.{may_send, frame}
use tcp_server_client.Client.{send_msg}
use tcp_server_client.TlsClient.{TlsClient, ssl_of, write_msg, tls_client}

-- An `int` holds exactly the lengths below 2^31.
pub to_signed-fits : (n : ℕ) → (to_signed 32 n ≡ pos n) ↔ (n < 2147483648)
to_signed-fits n = ground arith

module _ (os : Os) where
  -- `sendMsg` of a TLS client never throws and leaves the object as it is. It calls `SSL_write` exactly
  -- once, with the message, the appended text and the delimiter, if the message passes the tests and
  -- the client runs, and is then true exactly if the result is the length that it passed; otherwise
  -- it calls nothing and is false. The length that it passes is that of what is to be sent exactly
  -- if this is below 2^31.
  pub tls_send_msg_sends :
      (msg : Bytes) (m : Machine TlsClient)
      → let framed = frame m.self.framing msg in
        let asked = to_signed 32 (length framed) in
        let sending = ssl_write (ssl_of m.self.client_socket) framed asked in
        Returns
          (λ sent m'.
            (m'.self ≡ m.self)
            × (((may_send m.self.framing msg && m.self.running) ≡ true)
                  × (m'.log ≡ sending ∷ m.log)
                  × (sent ≡ eqb_ℤ (os.result m.log sending) asked)
                ⊎ ((may_send m.self.framing msg && m.self.running) ≡ false)
                  × (m'.log ≡ m.log)
                  × (sent ≡ false))
            × ((asked ≡ pos (length framed)) ↔ (length framed < 2147483648)))
          (send_msg os (tls_client os) msg m)
  unfolding send_msg write_msg
  tls_send_msg_sends msg m = ground (arith, to_signed-fits (length (frame m.self.framing msg)))
