-- ===== src/Exchange/Tls.antt =====
-- A TLS server and a TLS client that were built with the same arguments, in fragmented mode.
use tcp_server_client.Prelude.{
  ◌+◌, ◌&&◌, ◌⊎◌, ◌∷◌, Bool, none, some, arith, ℕ, ◌*◌, ◌<◌, ◌++◌, true, false, List, [], length,
  ◌≡◌, subst,
}
use tcp_server_client.Prelude.Int.{ℤ, pos, eqb_ℤ, to_signed}
use tcp_server_client.Exec.{Bytes, Os, Machine, Outcome, ok}
use tcp_server_client.Exec.Runs.{Returns, Returns-weaken}
use tcp_server_client.Exec.Trace.{stream_of, spawned}
use tcp_server_client.Framing.{Framing, size_mod, contains, may_send, frame}
use tcp_server_client.Framing.RoundTrip.{stream, appended}
use tcp_server_client.ReadMsg.{maximum_receive_package_size}
use tcp_server_client.Client.{send_msg}
use tcp_server_client.Server.Transport.{ReadsAtMost}
use tcp_server_client.Server.Receive.{listen_message}
use tcp_server_client.Server as Server
use tcp_server_client.TlsServer as TlsServerModule
use tcp_server_client.TlsServer.{TlsServer, tls_server}
use tcp_server_client.Maps.{find}
use tcp_server_client.Workers.Prune.{Worker, vectors}
use tcp_server_client.Workers.Total.{AllJoinable}
use tcp_server_client.Client.Receive.{receive}
use tcp_server_client.TlsClient.Laws.{tls_client-Transport}
use tcp_server_client.TlsServer.Laws.{tls_server-Transport}
use tcp_server_client.TlsClient.{TlsClient, ssl_of, tls_client}
use tcp_server_client.TlsClient.Sending.{tls_send_msg_sends}
use tcp_server_client.Exchange.Sent.{
  texts_for, tls_wire, sent, AllShort, SentBy, SendsFrames, send_all,
}
use tcp_server_client.Exchange.Prefix.{LacksAtMost}
use tcp_server_client.Exchange.Between.{
  told-sent, texts_for-all, arrived, sent_whole, server_heard, client_heard,
}

tls_client-SendsFrames :
    (os : Os) (s : TlsClient)
    → SendsFrames tls_wire os s s.framing
        (λ (_ : Bytes). ssl_of s.client_socket)
        (λ msg. msg)
        (send_msg os (tls_client os))
tls_client-SendsFrames os s = record {
  law = λ msg m same.
      subst
        (λ s.
          Returns (SentBy tls_wire os s s.framing (ssl_of s.client_socket) msg m)
            (send_msg os (tls_client os) msg m))
        same
        (Returns-weaken
          (SentBy tls_wire os m.self m.self.framing (ssl_of m.self.client_socket) msg m)
          (send_msg os (tls_client os) msg m)
          (λ done m' h. (
            h.0,
            told-sent tls_wire os (ssl_of m.self.client_socket) m.self.framing msg m.self.running
                done m.log m'.log h.1,
          ))
          (tls_send_msg_sends os msg m));
}

-- The TLS object of a client, or a null pointer.
abbrev pub object_of : TlsServer → ℤ → ℤ
object_of s client = elim (find client s.active_connections) [ none ↦ pos 0 | some ssl ↦ ssl ]

abbrev has_object : TlsServer → ℤ → Bool
has_object s client = elim (find client s.active_connections) [ none ↦ false | some _ ↦ true ]

-- `sendMsg` of a TLS server calls `SSL_write` once, on the object of the client, or nothing.
tls_server_sends :
    (os : Os) (client : ℤ) (msg : Bytes) (m : Machine TlsServer)
    → let sending = tls_wire.write (object_of m.self client) (frame m.self.framing msg) in
      Returns
        (λ sent m'.
          (m'.self ≡ m.self)
          × (((may_send m.self.framing msg && has_object m.self client) ≡ true)
                × (m'.log ≡ sending ∷ m.log)
                × (sent
                    ≡ eqb_ℤ
                        (os.result m.log sending)
                        (to_signed 32 (length (frame m.self.framing msg))))
              ⊎ ((may_send m.self.framing msg && has_object m.self client) ≡ false)
                × (m'.log ≡ m.log)
                × (sent ≡ false)))
        (Server.send_msg os (tls_server os) client msg m)
unfolding Server.send_msg TlsServerModule.write_msg TlsServerModule.connection_of
tls_server_sends os client msg m = ground arith

tls_server-SendsFrames :
    (os : Os) (s : TlsServer)
    → SendsFrames tls_wire os s s.framing
        (λ (i : ℤ × Bytes). object_of s i.0)
        (λ i. i.1)
        (λ i. Server.send_msg os (tls_server os) i.0 i.1)
tls_server-SendsFrames os s = record {
  law = λ i m same.
      subst
        (λ s.
          Returns (SentBy tls_wire os s s.framing (object_of s i.0) i.1 m)
            (Server.send_msg os (tls_server os) i.0 i.1 m))
        same
        (Returns-weaken (SentBy tls_wire os m.self m.self.framing (object_of m.self i.0) i.1 m)
          (Server.send_msg os (tls_server os) i.0 i.1 m)
          (λ done m' h. (
            h.0,
            told-sent tls_wire os (object_of m.self i.0) m.self.framing i.1 (has_object m.self i.0)
                done m.log m'.log h.1,
          ))
          (tls_server_sends os i.0 i.1 m));
}

module _ (cfg : Framing) (on : cfg.enabled ≡ true)
    (clean : contains cfg.delimiter cfg.append ≡ false) (os_c os_s : Os) (c : TlsClient)
    (s : TlsServer) (same_c : c.framing ≡ cfg) (same_s : s.framing ≡ cfg) where
  -- A TLS client and a TLS server that were built with the same arguments, in fragmented mode, with an
  -- appended text that holds no delimiter. The client has sent messages of the documented length,
  -- less than 2^31 bytes in all, and was told each time that it had. If the receive thread of the
  -- connection has read the bytes that OpenSSL has taken from the client, but for some at the end that
  -- are on the way, the messages that it has handed on are those sent, each with the appended text, in
  -- order and unchanged, but for some at the end, at most one for each byte on the way. No read hands
  -- over more than it was asked for, and the bytes of `fuel` reads of full size are below 2^64.
  pub tls_client_to_server :
      (msgs : List Bytes) (client flag : ℤ) (fuel : ℕ) (late : Bytes) (r : Outcome (Unit {0}))
      (mc : Machine TlsClient) (ms : Machine TlsServer)
      → AllShort cfg msgs
      → length (stream cfg msgs) < 2147483648
      → ReadsAtMost os_s
      → maximum_receive_package_size * fuel < size_mod
      → send_all (send_msg os_c (tls_client os_c)) msgs (record { self = c; log = [] })
        ≡ (ok true, mc)
      → listen_message os_s (tls_server os_s) fuel client flag (record { self = s; log = [] })
        ≡ (r, ms)
      → sent os_c (ssl_of c.client_socket) mc.log ≡ stream_of os_s ms.log ++ late
      → LacksAtMost (spawned ms.log) late (appended cfg msgs)
  tls_client_to_server msgs client flag fuel late r mc ms short small most fits all_sent listened
        cut =
      let l =
        subst
          (λ f.
            SendsFrames tls_wire os_c c f (λ (_ : Bytes). ssl_of c.client_socket) (λ msg. msg)
              (send_msg os_c (tls_client os_c)))
          same_c (tls_client-SendsFrames os_c c) in
      let all = texts_for-all (ssl_of c.client_socket) msgs in
      let (taken, may) =
        sent_whole cfg on clean l (ssl_of c.client_socket) msgs mc (rw all small) all_sent in
      arrived cfg on clean msgs (spawned ms.log) (sent os_c (ssl_of c.client_socket) mc.log)
        (stream_of os_s ms.log) late (rw all at may) short (rw all at taken) cut
        (server_heard cfg on clean os_s (tls_server-Transport os_s) s client flag fuel r ms same_s
          most fits listened)

  -- The other way: the server has sent messages to any of its clients in any order, those for the
  -- TLS object `ssl` of the documented length and less than 2^31 bytes in all, and was told each time
  -- that it had. If the receive thread of a client, which starts with joinable workers only, has read
  -- the bytes that OpenSSL has taken for that object, but for some at the end that are on the way, what
  -- it has handed on is what was sent for the object, each message with the appended text, in order and
  -- unchanged, but for some at the end, at most one for each byte on the way. No read hands over more
  -- than it was asked for, and the workers and the bytes of `fuel` reads of full size are together
  -- below 2^64.
  pub tls_server_to_client :
      (items : List (ℤ × Bytes)) (ssl : ℤ) (fuel : ℕ) (ws : List Worker) (late : Bytes)
      (r : Outcome (Unit {0})) (ms : Machine TlsServer) (mc : Machine TlsClient)
      → AllShort cfg (texts_for (λ i. object_of s i.0) (λ i. i.1) ssl items)
      → length (stream cfg (texts_for (λ i. object_of s i.0) (λ i. i.1) ssl items)) < 2147483648
      → ReadsAtMost os_c
      → c.work ≡ vectors ws
      → AllJoinable ws
      → length ws + maximum_receive_package_size * fuel < size_mod
      → send_all
          (λ (i : ℤ × Bytes). Server.send_msg os_s (tls_server os_s) i.0 i.1)
          items
          (record { self = s; log = [] })
        ≡ (ok true, ms)
      → receive os_c (tls_client os_c) fuel (record { self = c; log = [] }) ≡ (r, mc)
      → sent os_s ssl ms.log ≡ stream_of os_c mc.log ++ late
      → LacksAtMost
          (spawned mc.log)
          late
          (appended cfg (texts_for (λ i. object_of s i.0) (λ i. i.1) ssl items))
  tls_server_to_client items ssl fuel ws late r ms mc short small most e all fits all_sent received
        cut =
      let l =
        subst
          (λ f.
            SendsFrames tls_wire os_s s f (λ (i : ℤ × Bytes). object_of s i.0) (λ i. i.1)
              (λ i. Server.send_msg os_s (tls_server os_s) i.0 i.1))
          same_s (tls_server-SendsFrames os_s s) in
      let (taken, may) = sent_whole cfg on clean l ssl items ms small all_sent in
      arrived cfg on clean (texts_for (λ i. object_of s i.0) (λ i. i.1) ssl items) (spawned mc.log)
        (sent os_s ssl ms.log) (stream_of os_c mc.log) late may short taken cut
        (client_heard cfg on clean os_c (tls_client-Transport os_c) c fuel ws r mc same_c most e all
          fits received)
