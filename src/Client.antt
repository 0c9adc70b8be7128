-- ===== src/Client.antt =====
-- `Client` of src/template/Client.hpp: the object, the functions that a derived class supplies, and
-- the methods that the user calls.
pub mod Receive
pub mod Lifecycle
pub mod Transport
pub mod Stream
pub mod Faithful
pub mod Forward
pub mod Restart
pub mod Threads
pub mod Api
pub mod Service
use tcp_server_client.Prelude.{
  Bool, true, false, not, ◌||◌, Option, none, some, List, [], ◌∷◌, if◌then◌else◌,
}
use tcp_server_client.Prelude.Int.{ℤ, pos, minus_one, nonzero, ltb_ℤ, eqb_ℤ}
use tcp_server_client.Exec.{
  Bytes, shut_rdwr, Call, socket, setsockopt, gethostbyname, connect, shutdown, close,
  join_receiver, spawn_receiver, Os, thread_already_running, undefined_behaviour, Exec, pure, throw,
  gets, modify, call, call_bytes, ◌>>=◌, ◌>>◌, require,
}
use tcp_server_client.Framing.{Framing, may_send, frame}
use tcp_server_client.Workers.{Workers, no_workers}

-- The return codes of `start`.
abbrev pub client_start_ok : ℤ
client_start_ok = pos 0

abbrev pub wrong_port : ℤ
wrong_port = pos 10

abbrev pub create_socket_error : ℤ
create_socket_error = pos 40

abbrev pub set_socket_opt_error : ℤ
set_socket_opt_error = pos 41

abbrev pub connect_error : ℤ
connect_error = pos 50

abbrev pub connect_init_error : ℤ
connect_init_error = pos 60

-- The members. `client_socket` is the socket that its pointer leads to, a TLS object is its number;
-- `work` is `workHandlers` and `workHandlersRunning`; the callback is whether it is set; `derived`
-- is what a derived class adds.
pub record Client (D : Type 0) : Type 0 where
  pub framing : Framing
  pub tcp_socket : ℤ
  pub client_socket : Option ℤ
  pub running : Bool  -- also written by `receive`: see Client/Receive, Client/Api, Client/Threads
  pub rec_handler : Bool  -- joinable
  pub work : Workers
  pub work_on_message : Bool
  pub derived : D

-- The pure virtual functions.
pub record Protocol (D : Type 0) : Type 0 where
  pub init : Exec (Client D) ℤ
  pub connection_init : Exec (Client D) (Option ℤ)
  pub connection_deinit : Exec (Client D) (Unit {0})
  pub read_msg : Exec (Client D) Bytes
  pub write_msg : Bytes → Exec (Client D) Bool
  -- `SocketDeleter`, which the class gives as an argument of the template.
  pub delete_socket : ℤ → Exec (Client D) (Unit {0})

module _ {D : Type 0} where
  -- The two constructors, by their framing. Nothing sets `tcpSocket`: what it holds is an argument.
  abbrev pub new_client : ℤ → Framing → D → Client D
  new_client indeterminate framing derived = record {
    framing = framing;
    tcp_socket = indeterminate;
    client_socket = none;
    running = false;
    rec_handler = false;
    work = no_workers;
    work_on_message = false;
    derived = derived;
  }

  unfoldable pub set_work_on_message : Bool → Exec (Client D) (Unit {0})
  set_work_on_message worker = modify (λ s. record s { work_on_message = worker })

  unfoldable pub is_running : Exec (Client D) Bool
  is_running = gets (λ s. s.running)

-- What needs `connectionDeinit` alone, since `init` of a derived class may call it.
module _ {D : Type 0} (os : Os) (deinit : Exec (Client D) (Unit {0})) where
  -- `if (recHandler.joinable()) recHandler.join();`
  unfoldable pub join_rec_handler : Exec (Client D) (Unit {0})
  join_rec_handler = do
    joinable ← gets (λ s. s.rec_handler)
    if joinable
        then (call os (join_receiver (pos 0)) >> modify (λ s. record s { rec_handler = false }))
        else pure tt

  unfoldable pub stop : Exec (Client D) (Unit {0})
  unfolding join_rec_handler
  stop = do
    modify (λ s. record s { running = false })
    deinit
    fd ← gets (λ s. s.tcp_socket)
    shut ← call os (shutdown fd shut_rdwr)
    join_rec_handler
    fd ← gets (λ s. s.tcp_socket)
    if nonzero shut then pure tt else (call os (close fd) >> pure tt)

  -- `stop(); return code;`
  abbrev pub fail : ℤ → Exec (Client D) ℤ
  fail code = stop >> pure code

module _ {D : Type 0} (os : Os) (p : Protocol D) where
  -- The end of `start`: the thread, and then the flag.
  unfoldable pub start_receiving : Exec (Client D) ℤ
  start_receiving = do
    joinable ← gets (λ s. s.rec_handler)
    if joinable then throw thread_already_running else do
      call os (spawn_receiver (pos 0))
      modify (λ s. record s { rec_handler = true })
      modify (λ s. record s { running = true })
      pure client_start_ok

  -- For what `connectionInit` hands over.
  unfoldable pub connection_ready : Option ℤ → Exec (Client D) ℤ
  connection_ready none = fail os p.connection_deinit connect_init_error
  connection_ready (some connection) = start_receiving

  -- What `unique_ptr` does with the socket that it leads to.
  unfoldable pub delete_old : Option ℤ → Exec (Client D) (Unit {0})
  delete_old none = pure tt
  delete_old (some old) = p.delete_socket old

  -- `clientSocket.reset(connectionInit())`, and what follows.
  unfoldable pub start_connection : Exec (Client D) ℤ
  start_connection = do
    connection ← p.connection_init
    old ← gets (λ s. s.client_socket)
    modify (λ s. record s { client_socket = connection })
    delete_old old
    connection_ready connection

  -- `start` from `gethostbyname` on. The answer for a name that is not found is a null pointer,
  -- through which the address is read.
  unfoldable pub start_connecting : Bytes → ℤ → ℤ → Exec (Client D) ℤ
  start_connecting ip port fd = do
    (host, address) ← call_bytes os (gethostbyname ip)
    if eqb_ℤ host (pos 0)
        then throw undefined_behaviour
        else require os (connect fd address port) nonzero
            (fail os p.connection_deinit connect_error) start_connection

  -- `start` from `socket` on.
  unfoldable pub start_socket : Bytes → ℤ → Exec (Client D) ℤ
  start_socket ip port = do
    fd ← call os socket
    modify (λ s. record s { tcp_socket = fd })
    if eqb_ℤ minus_one fd
        then fail os p.connection_deinit create_socket_error
        else require os (setsockopt fd) nonzero (fail os p.connection_deinit set_socket_opt_error)
            (start_connecting ip port fd)

  unfoldable pub start : Bytes → ℤ → Exec (Client D) ℤ
  start ip port = do
    running ← gets (λ s. s.running)
    if running
        then pure minus_one
        else if ltb_ℤ port (pos 1) || ltb_ℤ (pos 65535) port
        then pure wrong_port
        else do
          init_code ← p.init
          if nonzero init_code then pure init_code else start_socket ip port

  unfoldable pub send_msg : Bytes → Exec (Client D) Bool
  send_msg msg = do
    cfg ← gets (λ s. s.framing)
    if not (may_send cfg msg) then pure false else do
      running ← gets (λ s. s.running)
      if running then p.write_msg (frame cfg msg) else pure false
