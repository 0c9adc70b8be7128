-- ===== src/Examples/TlsExchanges.antt =====
-- The exchange of Exchanges over TLS, with the objects number 1.
use tcp_server_client.Prelude.{some, Bool, true, ◌++◌, ◌≡◌, refl, [], ◌∷◌, arith}
use tcp_server_client.Prelude.Int.{ℤ, pos}
use tcp_server_client.Exec.{Bytes, Machine, call_if, Outcome, ok}
use tcp_server_client.Exec.Trace.{spawned, stream_of}
use tcp_server_client.Server.{send_msg, delete_entry}
use tcp_server_client.Server.Receive.{
  listen_message, running_manager, serve_connection, open_connection, add_forward_stream,
  receive_loop, receive_round, handle_chunk, handle_message, close_connection, erase_connection,
}
use tcp_server_client.Client as Client
use tcp_server_client.Client.Receive.{receive}
use tcp_server_client.Framing.{may_send, frame, contains, split_chunk}
use tcp_server_client.Maps.{find}
use tcp_server_client.ReadMsg.{received}
use tcp_server_client.Workers.{prune, join_all}
use tcp_server_client.Client.Receive as Receive
use tcp_server_client.Exchange.Sent.{send_all, sent}
use tcp_server_client.Exchange.Prefix.{LacksAtMost}
use tcp_server_client.Framing.RoundTrip.{appended}
use tcp_server_client.TlsClient as Tls
use tcp_server_client.TlsClient.{TlsClient, fragmented_tls_client, tls_client}
use tcp_server_client.TlsServer as TlsServerModule
use tcp_server_client.TlsServer.{TlsServer, fragmented_tls_server, tls_server}
use tcp_server_client.Exchange.Tls.{tls_client_to_server, tls_server_to_client}
use tcp_server_client.Examples.{framing}
use tcp_server_client.Examples.Exchanges.{both, both-ReadsAtMost, messages, items}

abbrev tls_client_object : TlsClient
tls_client_object = record (fragmented_tls_client (pos 0) 124 (33 ∷ []) 10) {
  running = true;
  client_socket = some (pos 1);
}

abbrev tls_server_object : TlsServer
tls_server_object = record (fragmented_tls_server 124 (33 ∷ []) 10) {
  active_connections = (pos 5, pos 1) ∷ [];
}

abbrev tls_client_sent : Outcome Bool × Machine TlsClient
tls_client_sent =
    send_all (Client.send_msg both (tls_client both)) messages
      (record { self = tls_client_object; log = [] })

abbrev tls_server_heard : Outcome (Unit {0}) × Machine TlsServer
tls_server_heard =
    listen_message both (tls_server both) 2 (pos 5) (pos 5)
      (record { self = tls_server_object; log = [] })

tls_client_sent-ok : tls_client_sent ≡ (ok true, tls_client_sent.1)
unfolding send_all Client.send_msg Tls.write_msg may_send frame
tls_client_sent-ok = refl

cut_tls :
    sent both (pos 1) tls_client_sent.1.log ≡ stream_of both tls_server_heard.1.log ++ 33 ∷ 124 ∷ []
unfolding send_all Client.send_msg Tls.write_msg may_send frame sent stream_of received
    listen_message running_manager serve_connection find open_connection add_forward_stream call_if
    receive_loop TlsServerModule.read_msg receive_round handle_chunk split_chunk handle_message
    prune close_connection TlsServerModule.connection_deinit erase_connection delete_entry
    TlsServerModule.delete_socket join_all
cut_tls = refl

tls_client_to_server_example :
    LacksAtMost (spawned tls_server_heard.1.log) (33 ∷ 124 ∷ []) (appended framing messages)
unfolding contains frame
tls_client_to_server_example =
    tls_client_to_server framing refl refl both both tls_client_object tls_server_object refl refl
      messages (pos 5) (pos 5) 2 (33 ∷ 124 ∷ []) tls_server_heard.0 tls_client_sent.1
      tls_server_heard.1 (omega arith, (omega arith, tt)) (omega arith) both-ReadsAtMost
      (omega arith) tls_client_sent-ok refl cut_tls

abbrev tls_server_sent : Outcome Bool × Machine TlsServer
tls_server_sent =
    send_all (λ (i : ℤ × Bytes). send_msg both (tls_server both) i.0 i.1) items
      (record { self = tls_server_object; log = [] })

abbrev tls_client_heard : Outcome (Unit {0}) × Machine TlsClient
tls_client_heard = receive both (tls_client both) 2 (record { self = tls_client_object; log = [] })

tls_server_sent-ok : tls_server_sent ≡ (ok true, tls_server_sent.1)
unfolding send_all send_msg TlsServerModule.write_msg TlsServerModule.connection_of may_send find
    frame
tls_server_sent-ok = refl

cut_tls_server :
    sent both (pos 1) tls_server_sent.1.log ≡ stream_of both tls_client_heard.1.log ++ 33 ∷ 124 ∷ []
unfolding send_all send_msg TlsServerModule.write_msg TlsServerModule.connection_of may_send frame
    sent stream_of received receive Receive.receive_loop find Tls.read_msg Receive.receive_round
    Receive.handle_chunk split_chunk Receive.handle_message prune Receive.lose_connection
    Receive.join_workers join_all Tls.connection_deinit Tls.shut_ssl_down
cut_tls_server = refl

tls_server_to_client_example :
    LacksAtMost (spawned tls_client_heard.1.log) (33 ∷ 124 ∷ []) (appended framing messages)
unfolding contains frame find
tls_server_to_client_example =
    tls_server_to_client framing refl refl both both tls_client_object tls_server_object refl refl
      items (pos 1) 2 [] (33 ∷ 124 ∷ []) tls_client_heard.0 tls_server_sent.1 tls_client_heard.1
      (omega arith, (omega arith, tt)) (omega arith) both-ReadsAtMost refl tt (omega arith)
      tls_server_sent-ok refl cut_tls_server
