-- ===== src/Examples/Exchanges.antt =====
-- A client and a server that exchange two messages: "a" and "b" are sent, as "a!|b!|", and the other
-- side reads "a!|b" while "!|" is on the way.
use tcp_server_client.Prelude.{
  Bool, true, ◌++◌, if◌then◌else◌, ◌≡◌, refl, List, [], ◌∷◌, length, arith,
}
use tcp_server_client.Prelude.Int.{ℤ, pos}
use tcp_server_client.Exec.{Bytes, Call, send, ssl_write, Os, Machine, call_if, Outcome, ok}
use tcp_server_client.Exec.Trace.{spawned, is_read, stream_of}
use tcp_server_client.Server.{send_msg, delete_entry}
use tcp_server_client.Server.Receive.{
  listen_message, running_manager, serve_connection, open_connection, add_forward_stream,
  receive_loop, receive_round, handle_chunk, handle_message, close_connection, erase_connection,
}
use tcp_server_client.Server.Transport.{ReadsAtMost}
use tcp_server_client.Client as Client
use tcp_server_client.Client.Receive.{receive}
use tcp_server_client.TcpServer.{TcpServer, tcp_server}
use tcp_server_client.Framing.{may_send, frame, contains, split_chunk}
use tcp_server_client.Maps.{find}
use tcp_server_client.ReadMsg.{received}
use tcp_server_client.Workers.{prune, join_all}
use tcp_server_client.Client.Receive as Receive
use tcp_server_client.TcpClient as Tcp
use tcp_server_client.TcpServer as TcpServerModule
use tcp_server_client.TcpClient.{TcpClient, tcp_client}
use tcp_server_client.Exchange.Sent.{send_all, sent}
use tcp_server_client.Exchange.Prefix.{LacksAtMost}
use tcp_server_client.Framing.RoundTrip.{appended}
use tcp_server_client.Exchange.Tcp.{client_to_server, server_to_client}
use tcp_server_client.Examples.{framing, server, client}

-- A `send` takes everything; the very first call gets 4 if it is a read, and every later read 0.
abbrev taken : Call → ℤ
taken (send fd text) = pos (length text)
taken (ssl_write fd text len) = pos (length text)
taken _ = pos 0

abbrev handed_over : List Call → ℤ
handed_over [] = pos 4
handed_over (_ ∷ _) = pos 0

abbrev pub both : Os
both = record {
  result = λ log c. if is_read c then handed_over log else taken c;
  bytes = λ log c. 97 ∷ 33 ∷ 124 ∷ 98 ∷ [];
}

abbrev pub messages : List Bytes
messages = (97 ∷ []) ∷ (98 ∷ []) ∷ []

abbrev running_client : TcpClient
running_client = record client { running = true }

-- The client's thread, and the receive thread of the server.
abbrev client_sent : Outcome Bool × Machine TcpClient
client_sent =
    send_all (Client.send_msg both (tcp_client both)) messages
      (record { self = running_client; log = [] })

abbrev server_heard : Outcome (Unit {0}) × Machine TcpServer
server_heard =
    listen_message both (tcp_server both) 2 (pos 5) (pos 5) (record { self = server; log = [] })

pub both-ReadsAtMost : ReadsAtMost both
both-ReadsAtMost [] c h = rw h (omega arith)
both-ReadsAtMost (_ ∷ _) c h = rw h (omega arith)

client_sent-ok : client_sent ≡ (ok true, client_sent.1)
unfolding send_all Client.send_msg Tcp.write_msg may_send frame
client_sent-ok = refl

cut_client :
    sent both (pos 0) client_sent.1.log ≡ stream_of both server_heard.1.log ++ 33 ∷ 124 ∷ []
unfolding send_all Client.send_msg Tcp.write_msg may_send frame sent stream_of received
    listen_message running_manager serve_connection find open_connection add_forward_stream call_if
    receive_loop TcpServerModule.read_msg receive_round handle_chunk split_chunk handle_message
    prune close_connection TcpServerModule.connection_deinit erase_connection delete_entry
    TcpServerModule.delete_socket join_all
cut_client = refl

client_to_server_example :
    LacksAtMost (spawned server_heard.1.log) (33 ∷ 124 ∷ []) (appended framing messages)
unfolding contains frame
client_to_server_example =
    client_to_server framing refl refl both both running_client server refl refl messages (pos 5)
      (pos 5) 2 (33 ∷ 124 ∷ []) server_heard.0 client_sent.1 server_heard.1
      (omega arith, (omega arith, tt)) (omega arith) both-ReadsAtMost (omega arith) client_sent-ok
      refl cut_client

abbrev pub items : List (ℤ × Bytes)
items = (pos 5, 97 ∷ []) ∷ (pos 5, 98 ∷ []) ∷ []

abbrev server_sent : Outcome Bool × Machine TcpServer
server_sent =
    send_all (λ (i : ℤ × Bytes). send_msg both (tcp_server both) i.0 i.1) items
      (record { self = server; log = [] })

abbrev client_heard : Outcome (Unit {0}) × Machine TcpClient
client_heard = receive both (tcp_client both) 2 (record { self = running_client; log = [] })

server_sent-ok : server_sent ≡ (ok true, server_sent.1)
unfolding send_all send_msg TcpServerModule.write_msg may_send find frame
server_sent-ok = refl

cut_server :
    sent both (pos 5) server_sent.1.log ≡ stream_of both client_heard.1.log ++ 33 ∷ 124 ∷ []
unfolding send_all send_msg TcpServerModule.write_msg may_send frame sent stream_of received receive
    Receive.receive_loop find Tcp.read_msg Receive.receive_round Receive.handle_chunk split_chunk
    Receive.handle_message prune Receive.lose_connection Receive.join_workers join_all
    Tcp.connection_deinit
cut_server = refl

server_to_client_example :
    LacksAtMost (spawned client_heard.1.log) (33 ∷ 124 ∷ []) (appended framing messages)
unfolding contains frame
server_to_client_example =
    server_to_client framing refl refl both both running_client server refl refl items (pos 5) 2 []
      (33 ∷ 124 ∷ []) client_heard.0 server_sent.1 client_heard.1 (omega arith, (omega arith, tt))
      (omega arith) both-ReadsAtMost refl tt (omega arith) server_sent-ok refl cut_server
