-- ===== src/Exchange/Tcp.antt =====
-- A TCP server and a TCP client that were built with the same arguments, in fragmented mode.
use tcp_server_client.Prelude.{ℕ, ◌+◌, ◌*◌, ◌<◌, true, false, List, [], ◌++◌, length, ◌≡◌, subst}
use tcp_server_client.Prelude.Int.{ℤ}
use tcp_server_client.Exec.{Bytes, Os, Machine, Outcome, ok}
use tcp_server_client.Exec.Runs.{Returns, Returns-weaken}
use tcp_server_client.Exec.Trace.{stream_of, spawned}
use tcp_server_client.Framing.{Framing, size_mod, contains}
use tcp_server_client.Framing.RoundTrip.{stream, appended}
use tcp_server_client.ReadMsg.{maximum_receive_package_size}
use tcp_server_client.Server.{send_msg}
use tcp_server_client.Server.Transport.{ReadsAtMost}
use tcp_server_client.Server.Receive.{listen_message}
use tcp_server_client.Client as Client
use tcp_server_client.Client.Receive.{receive}
use tcp_server_client.Workers.Prune.{Worker, vectors}
use tcp_server_client.Workers.Total.{AllJoinable}
use tcp_server_client.TcpServer.{TcpServer, tcp_server}
use tcp_server_client.TcpServer.Laws.{tcp_server-Transport, connected, send_msg_sends}
use tcp_server_client.TcpClient.{TcpClient, tcp_client}
use tcp_server_client.TcpClient.Laws.{tcp_client-Transport, client_send_msg_sends}
use tcp_server_client.Exchange.Sent.{
  tcp_wire, sent, texts_for, AllShort, SentBy, SendsFrames, send_all,
}
use tcp_server_client.Exchange.Prefix.{LacksAtMost}
use tcp_server_client.Exchange.Between.{
  told-sent, texts_for-all, arrived, sent_whole, server_heard, client_heard,
}

pub tcp_client-SendsFrames :
    (os : Os) (s : TcpClient)
    → SendsFrames tcp_wire os s s.framing
        (λ (_ : Bytes). s.tcp_socket)
        (λ msg. msg)
        (Client.send_msg os (tcp_client os))
tcp_client-SendsFrames os s = record {
  law = λ msg m same.
      subst
        (λ s.
          Returns (SentBy tcp_wire os s s.framing s.tcp_socket msg m)
            (Client.send_msg os (tcp_client os) msg m))
        same
        (Returns-weaken (SentBy tcp_wire os m.self m.self.framing m.self.tcp_socket msg m)
          (Client.send_msg os (tcp_client os) msg m)
          (λ done m' h. (
            h.0,
            told-sent tcp_wire os m.self.tcp_socket m.self.framing msg m.self.running done m.log
                m'.log h.1,
          ))
          (client_send_msg_sends os msg m));
}

pub tcp_server-SendsFrames :
    (os : Os) (s : TcpServer)
    → SendsFrames tcp_wire os s s.framing
        (λ (i : ℤ × Bytes). i.0)
        (λ i. i.1)
        (λ i. send_msg os (tcp_server os) i.0 i.1)
tcp_server-SendsFrames os s = record {
  law = λ i m same.
      subst
        (λ s.
          Returns (SentBy tcp_wire os s s.framing i.0 i.1 m)
            (send_msg os (tcp_server os) i.0 i.1 m))
        same
        (Returns-weaken (SentBy tcp_wire os m.self m.self.framing i.0 i.1 m)
          (send_msg os (tcp_server os) i.0 i.1 m)
          (λ done m' h. (
            h.0,
            told-sent tcp_wire os i.0 m.self.framing i.1 (connected os i.0 m.self) done m.log m'.log
                h.1,
          ))
          (send_msg_sends os i.0 i.1 m));
}

module _ (cfg : Framing) (on : cfg.enabled ≡ true)
    (clean : contains cfg.delimiter cfg.append ≡ false) where
  module _ (os_c os_s : Os) (c : TcpClient) (s : TcpServer) (same_c : c.framing ≡ cfg)
      (same_s : s.framing ≡ cfg) where
    -- A client and a server that were built with the same arguments, in fragmented mode, with an
    -- appended text that holds no delimiter. The client has sent messages of the documented length,
    -- less than 2^63 bytes in all, and was told each time that it had. Whatever the bytes are cut
    -- into, and at whatever time one looks: if the receive thread of the connection has read the
    -- bytes that were sent, but for some at the end that are on the way, the messages that it has
    -- handed on are those sent, each with the appended text, in order and unchanged, but for some at
    -- the end, at most one for each byte on the way; all of them, when no byte is. No read hands over
    -- more than it was asked for, and the bytes of `fuel` reads of full size are below 2^64.
    pub client_to_server :
        (msgs : List Bytes) (client flag : ℤ) (fuel : ℕ) (late : Bytes) (r : Outcome (Unit {0}))
        (mc : Machine TcpClient) (ms : Machine TcpServer)
        → AllShort cfg msgs
        → length (stream cfg msgs) < 9223372036854775808
        → ReadsAtMost os_s
        → maximum_receive_package_size * fuel < size_mod
        → send_all (Client.send_msg os_c (tcp_client os_c)) msgs (record { self = c; log = [] })
          ≡ (ok true, mc)
        → listen_message os_s (tcp_server os_s) fuel client flag (record { self = s; log = [] })
          ≡ (r, ms)
        → sent os_c c.tcp_socket mc.log ≡ stream_of os_s ms.log ++ late
        → LacksAtMost (spawned ms.log) late (appended cfg msgs)
    client_to_server msgs client flag fuel late r mc ms short small most fits all_sent listened
          cut =
        let l =
          subst
            (λ f.
              SendsFrames tcp_wire os_c c f (λ (_ : Bytes). c.tcp_socket) (λ msg. msg)
                (Client.send_msg os_c (tcp_client os_c)))
            same_c (tcp_client-SendsFrames os_c c) in
        let all = texts_for-all c.tcp_socket msgs in
        let (taken, may) = sent_whole cfg on clean l c.tcp_socket msgs mc (rw all small) all_sent in
        arrived cfg on clean msgs (spawned ms.log) (sent os_c c.tcp_socket mc.log)
          (stream_of os_s ms.log) late (rw all at may) short (rw all at taken) cut
          (server_heard cfg on clean os_s (tcp_server-Transport os_s) s client flag fuel r ms same_s
            most fits listened)

    -- The other way: the server has sent messages to any of its clients in any order, those for the
    -- client `fd` of the documented length and less than 2^63 bytes in all, and was told each time that
    -- it had. What the receive thread of that client, which starts with joinable workers only, has
    -- handed on is what was sent to it, each message with the appended text, in order and unchanged, but
    -- for some at the end, at most one for each byte on the way. No read hands over more than it was
    -- asked for, and the workers and the bytes of `fuel` reads of full size are together below 2^64.
    pub server_to_client :
        (items : List (ℤ × Bytes)) (fd : ℤ) (fuel : ℕ) (ws : List Worker) (late : Bytes)
        (r : Outcome (Unit {0})) (ms : Machine TcpServer) (mc : Machine TcpClient)
        → AllShort cfg (texts_for (λ i. i.0) (λ i. i.1) fd items)
        → length (stream cfg (texts_for (λ i. i.0) (λ i. i.1) fd items)) < 9223372036854775808
        → ReadsAtMost os_c
        → c.work ≡ vectors ws
        → AllJoinable ws
        → length ws + maximum_receive_package_size * fuel < size_mod
        → send_all
            (λ (i : ℤ × Bytes). send_msg os_s (tcp_server os_s) i.0 i.1)
            items
            (record { self = s; log = [] })
          ≡ (ok true, ms)
        → receive os_c (tcp_client os_c) fuel (record { self = c; log = [] }) ≡ (r, mc)
        → sent os_s fd ms.log ≡ stream_of os_c mc.log ++ late
        → LacksAtMost
            (spawned mc.log)
            late
            (appended cfg (texts_for (λ i. i.0) (λ i. i.1) fd items))
    server_to_client items fd fuel ws late r ms mc short small most e all fits all_sent received
          cut =
        let l =
          subst
            (λ f.
              SendsFrames tcp_wire os_s s f (λ (i : ℤ × Bytes). i.0) (λ i. i.1)
                (λ i. send_msg os_s (tcp_server os_s) i.0 i.1))
            same_s (tcp_server-SendsFrames os_s s) in
        let (taken, may) = sent_whole cfg on clean l fd items ms small all_sent in
        arrived cfg on clean (texts_for (λ i. i.0) (λ i. i.1) fd items) (spawned mc.log)
          (sent os_s fd ms.log) (stream_of os_c mc.log) late may short taken cut
          (client_heard cfg on clean os_c (tcp_client-Transport os_c) c fuel ws r mc same_c most e
            all fits received)
