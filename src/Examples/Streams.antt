-- ===== src/Examples/Streams.antt =====
-- Runs of the receive threads, of the loop over a chunk and of the removal of workers.
use tcp_server_client.Prelude.{◌≤◌, true, List, [], ◌∷◌, ◌≡◌, ◌↔◌, refl, arith}
use tcp_server_client.Prelude.Int.{pos}
use tcp_server_client.Exec.{
  Bytes, Machine, Exec, ok, pure, call, work_on_message, for_each, ◌>>=◌, ◌>>◌,
}
use tcp_server_client.Exec.Runs.{Runs, Returns}
use tcp_server_client.Framing.{Framing, fragmented, contains, may_send, frame, split_chunk}
use tcp_server_client.Framing.Scan.{scan}
use tcp_server_client.Framing.RoundTrip.{
  appended, accepted_but_dropped, default_max_length, may_send-default,
}
use tcp_server_client.Framing.Chunks.{split_chunks, split_chunks-scan, round_trip}
use tcp_server_client.Workers.{prune}
use tcp_server_client.Workers.Prune.{Worker, vectors, pruned, prune-pruned}
use tcp_server_client.Server.Receive.{listen_message}
use tcp_server_client.Server.Stream.{IsClosed, close_connection-Returns}
use tcp_server_client.Server.Stream as ServerStream
use tcp_server_client.Server.Faithful as ServerFaithful
use tcp_server_client.TcpServer.{tcp_server}
use tcp_server_client.TcpServer.Laws.{tcp_server-Transport}
use tcp_server_client.TcpClient.{tcp_client}
use tcp_server_client.TcpClient.Laws.{tcp_client-Transport}
use tcp_server_client.Client.Receive.{receive}
use tcp_server_client.Client.Faithful as ClientFaithful
use tcp_server_client.Examples.{
  three_bytes, three_bytes-ReadsAtMost, three_bytes-length, framing, server, client,
}

listen_message-IsFaithful_example :
    Runs
      (λ _. ServerStream.IsFaithful (Unit {0}) three_bytes (pos 5) framing)
      (ServerFaithful.IsLong
        (Unit {0})
        three_bytes
        (pos 5)
        (tcp_server-Transport three_bytes)
        framing
        refl
        three_bytes-ReadsAtMost
        1)
      (listen_message three_bytes
        (tcp_server three_bytes)
        1
        (pos 5)
        (pos 1)
        (record { self = server; log = [] }))
listen_message-IsFaithful_example =
    ServerFaithful.listen_message-IsFaithful (Unit {0}) three_bytes (pos 5)
      (tcp_server-Transport three_bytes) framing refl three_bytes-ReadsAtMost 1 (pos 1) server refl
      (omega arith)

listen_message-Returns_example :
    Returns
      (λ _. ServerStream.IsFaithful (Unit {0}) three_bytes (pos 5) framing)
      (listen_message three_bytes
        (tcp_server three_bytes)
        4
        (pos 5)
        (pos 1)
        (record { self = server; log = [] }))
listen_message-Returns_example =
    ServerFaithful.listen_message-Returns (Unit {0}) three_bytes (pos 5)
      (tcp_server-Transport three_bytes) framing refl three_bytes-ReadsAtMost 4 (pos 1) server refl
      (omega arith) three_bytes-length

receive-IsFaithful_example :
    Runs
      (λ _.
        ClientFaithful.IsDone
          (Unit {0})
          three_bytes
          (tcp_client-Transport three_bytes)
          framing
          refl
          three_bytes-ReadsAtMost)
      (ClientFaithful.IsLong
        (Unit {0})
        three_bytes
        (tcp_client-Transport three_bytes)
        framing
        refl
        three_bytes-ReadsAtMost
        1)
      (receive three_bytes (tcp_client three_bytes) 1 (record { self = client; log = [] }))
receive-IsFaithful_example =
    ClientFaithful.receive-IsFaithful (Unit {0}) three_bytes (tcp_client-Transport three_bytes)
      framing refl three_bytes-ReadsAtMost 1 [] client refl refl tt (omega arith)

receive-Returns_example :
    Returns
      (λ _.
        ClientFaithful.IsDone
          (Unit {0})
          three_bytes
          (tcp_client-Transport three_bytes)
          framing
          refl
          three_bytes-ReadsAtMost)
      (receive three_bytes (tcp_client three_bytes) 4 (record { self = client; log = [] }))
receive-Returns_example =
    ClientFaithful.receive-Returns (Unit {0}) three_bytes (tcp_client-Transport three_bytes) framing
      refl three_bytes-ReadsAtMost 4 [] client refl refl tt (omega arith) three_bytes-length

-- What is done with a message here: the callback is called with it.
abbrev work : Unit {0} → Bytes → Exec (Unit {0}) (Unit {0})
work _ text = call three_bytes (work_on_message (pos 5) text) >> pure tt

abbrev start_of_log : Machine (Unit {0})
start_of_log = record { self = tt; log = [] }

round_trip_example :
    split_chunks framing work tt [] ((97 ∷ 33 ∷ []) ∷ (124 ∷ 33 ∷ 124 ∷ []) ∷ []) start_of_log
    ≡ (for_each work tt (appended framing ((97 ∷ []) ∷ [] ∷ [])) >>= λ w. pure ([], w)) start_of_log
round_trip_example =
    round_trip framing work ((97 ∷ []) ∷ [] ∷ []) ((97 ∷ 33 ∷ []) ∷ (124 ∷ 33 ∷ 124 ∷ []) ∷ []) tt
      start_of_log refl (unfold contains in refl)
      (unfold may_send in (refl, omega arith, (refl, omega arith, tt))) (unfold frame in refl)
      (omega arith)

split_chunks-scan_example :
    split_chunks framing work tt (97 ∷ []) ((98 ∷ 124 ∷ []) ∷ (99 ∷ []) ∷ []) start_of_log
    ≡ (for_each work tt (scan 124 10 (97 ∷ []) (98 ∷ 124 ∷ 99 ∷ [])).messages >>= λ w.
          pure ((scan 124 10 (97 ∷ []) (98 ∷ 124 ∷ 99 ∷ [])).buffer, w))
        start_of_log
split_chunks-scan_example =
    split_chunks-scan framing work ((98 ∷ 124 ∷ []) ∷ (99 ∷ []) ∷ []) tt (97 ∷ []) start_of_log
      (omega arith)

-- Five bytes and one appended, where the maximum is five.
abbrev tight : Framing
tight = fragmented 124 (33 ∷ []) 5

abbrev five : Bytes
five = 97 ∷ 98 ∷ 99 ∷ 100 ∷ 101 ∷ []

accepted_but_dropped_example :
    (may_send tight five ≡ true)
    × (split_chunk tight work tt [] (frame tight five) start_of_log ≡ (ok ([], tt), start_of_log))
accepted_but_dropped_example =
    accepted_but_dropped tight work tt five start_of_log refl refl (unfold contains in refl)
      (unfold contains in refl) (omega arith) (omega arith) (omega arith)
      (unfold frame in omega arith)

may_send-default_example :
    (may_send (fragmented 10 (33 ∷ 33 ∷ 33 ∷ []) default_max_length) (97 ∷ []) ≡ true) ↔ (3 ≤ 3)
may_send-default_example =
    may_send-default 10 (33 ∷ 33 ∷ 33 ∷ []) (97 ∷ []) (omega arith) (omega arith)
      (unfold contains in refl)

abbrev two_workers : List Worker
two_workers =
    (record { thread = record { handle = pos 1; joinable = true }; flag = pos 1 })
    ∷ (record { thread = record { handle = pos 2; joinable = true }; flag = pos 2 })
    ∷ []

prune-pruned_example :
    prune three_bytes (vectors two_workers) start_of_log
    ≡ (pruned three_bytes two_workers >>= λ rest. pure (vectors rest)) start_of_log
prune-pruned_example = prune-pruned (Unit {0}) three_bytes two_workers start_of_log (omega arith)
