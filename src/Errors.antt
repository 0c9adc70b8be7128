-- ===== src/Errors.antt =====
-- The exceptions of src/template/exception.hpp, and the texts that the classes of
-- src/template/Server.hpp, src/template/Client.hpp, src/TlsServer.hpp and src/TlsClient.hpp throw them
-- with.
use tcp_server_client.Prelude.{Option, none, some, ◌++◌}
use tcp_server_client.Prelude.Int.{ℤ}
use tcp_server_client.Exec.{
  Bytes, Exception, thread_already_running, no_connected_client, not_connected, invalid_nid,
  error_reading_ip, system_error, undefined_behaviour,
}
use tcp_server_client.Programs.{codes}
use tcp_server_client.TlsServer.{c_string}

pub record Error : Type 0 where
  pub msg : Bytes

-- `what()`: the text up to a NUL.
abbrev pub what : Error → Bytes
what e = c_string e.msg

-- The constructors, with their default arguments.
abbrev pub error : Option Bytes → Error
error none = record { msg = codes "unexpected error" }
error (some msg) = record { msg = msg }

abbrev pub server_error : Option Bytes → Error
server_error none = error (some (codes "unexpected server error"))
server_error (some msg) = error (some msg)

abbrev pub client_error : Option Bytes → Error
client_error none = error (some (codes "unexpected client error"))
client_error (some msg) = error (some msg)

-- `decimal` is what `std::to_string` makes of a number.
module _ (decimal : ℤ → Bytes) where
  -- What a server throws. What the library throws, and what is no exception, has no text here.
  abbrev pub thrown_by_server : Exception → Option Error
  thrown_by_server thread_already_running =
      some (server_error (some (codes "Start server thread failed: Thread is already running")))
  thrown_by_server (no_connected_client client) = some (
      server_error (
        some (
          codes "No connected client "
          ++ decimal client
          ++ codes " to read certificate subject part from")))
  thrown_by_server (invalid_nid part) = some (
      server_error
        (some (codes "Invalid NID " ++ decimal part ++ codes " for client certificate subject")))
  thrown_by_server error_reading_ip =
      some (server_error (some (codes "Error reading client's IP address")))
  thrown_by_server not_connected = none
  thrown_by_server system_error = none
  thrown_by_server undefined_behaviour = none

  -- What a client throws.
  abbrev pub thrown_by_client : Exception → Option Error
  thrown_by_client thread_already_running = some (
      client_error (
        some
          (codes "Error while starting background receive task. Background task already exists")))
  thrown_by_client not_connected = some (
      client_error
        (some (codes "Not connected to any server to read certificate subject part from")))
  thrown_by_client (invalid_nid part) = some (
      client_error
        (some (codes "Invalid NID " ++ decimal part ++ codes " for server certificate subject")))
  thrown_by_client (no_connected_client client) = none
  thrown_by_client error_reading_ip = none
  thrown_by_client system_error = none
  thrown_by_client undefined_behaviour = none
