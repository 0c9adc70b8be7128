-- ===== src/Examples.antt =====
-- Concrete outsides and objects for the runs in the modules below.
mod Streams
mod Starts
mod Calls
mod Threads
mod Forwarding
mod ClientThreads
mod Mains
mod Accepting
mod TlsClients
mod Exchanges
mod TlsExchanges
use Prim.Native.Nat.{◌≤◌}
use tcp_server_client.Prelude.{
  ℕ, ◌+◌, ◌<◌, length-append, true, false, List, [], ◌∷◌, length, ◌≡◌, arith, Bool-cases, inl, inr,
}
use tcp_server_client.Prelude.Int.{ℤ, pos, pos_part}
use tcp_server_client.Exec.{Bytes, Call, Os}
use tcp_server_client.Exec.Trace.{is_read, stream_of}
use tcp_server_client.ReadMsg.{received, length-received}
use tcp_server_client.Framing.{Framing, fragmented}
use tcp_server_client.TcpServer.{TcpServer, fragmented_tcp_server}
use tcp_server_client.TcpClient.{TcpClient, fragmented_tcp_client}
use tcp_server_client.Server.Transport.{ReadsAtMost}

-- The very first call gets 3, and every later one 0. The bytes are "a|b".
abbrev first_result : List Call → Call → ℤ
first_result [] c = pos 3
first_result (_ ∷ _) c = pos 0

abbrev pub three_bytes : Os
three_bytes = record { result = first_result; bytes = λ log c. 97 ∷ 124 ∷ 98 ∷ [] }

pub three_bytes-ReadsAtMost : ReadsAtMost three_bytes
three_bytes-ReadsAtMost [] c h = omega arith
three_bytes-ReadsAtMost (_ ∷ _) c h = omega arith

one_more :
    (log : List Call) (c : Call)
    → length (stream_of three_bytes (c ∷ log))
      ≤ length (stream_of three_bytes log) + pos_part (first_result log c)
unfolding stream_of
one_more log c = elim (Bool-cases (is_read c)) [
  | inl e ↦
      rw (e, stream_of)
        (omega (
          arith,
          length-append (stream_of three_bytes log)
              (received (first_result log c) (97 ∷ 124 ∷ 98 ∷ [])),
          length-received (first_result log c) (97 ∷ 124 ∷ 98 ∷ []),
        ))
  | inr e ↦ rw (e, stream_of) (omega arith)
]

-- No more than 3 bytes ever come.
pub three_bytes-length : (log : List Call) → length (stream_of three_bytes log) < 4
three_bytes-length [] = unfold stream_of in omega arith
three_bytes-length (c ∷ []) = let more = one_more [] c in unfold stream_of in omega arith
three_bytes-length (c ∷ d ∷ log) = omega (arith, one_more (d ∷ log) c, three_bytes-length (d ∷ log))

-- All calls succeed: a new object is number 7, a connection is accepted once.
abbrev pub framing : Framing
framing = fragmented 124 (33 ∷ []) 10

abbrev pub server : TcpServer
server = record (fragmented_tcp_server 124 (33 ∷ []) 10) {
  active_connections = (pos 5, pos 5) ∷ [];
}

abbrev pub client : TcpClient
client = fragmented_tcp_client (pos 0) 124 (33 ∷ []) 10
