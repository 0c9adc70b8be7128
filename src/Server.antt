-- ===== src/Server.antt =====
-- `Server` of src/template/Server.hpp: the object, the functions that a derived class supplies, and
-- the methods that the user calls.
pub mod Lifecycle
pub mod Api
pub mod Service
pub mod Trace
pub mod Transport
pub mod Receive
pub mod Chunk
pub mod Stream
pub mod Faithful
pub mod Accept
pub mod Restart
pub mod Forward
pub mod Handlers
pub mod Joins
pub mod Tending
pub mod Threads
use tcp_server_client.Prelude.{
  Bool, true, false, not, ◌||◌, Option, none, some, List, [], ◌∷◌, if◌then◌else◌,
}
use tcp_server_client.Prelude.Int.{ℤ, pos, minus_one, nonzero, ltb_ℤ, eqb_ℤ}
use tcp_server_client.Exec.{
  Bytes, How, shut_rdwr, Call, socket, setsockopt, bind, listen, shutdown, close, getpeername,
  join_acceptor, spawn_acceptor, Os, thread_already_running, error_reading_ip, Exec, pure, throw,
  gets, modify, call, call_bytes, ◌>>=◌, ◌>>◌,
}
use tcp_server_client.Framing.{Framing, continuous, fragmented, may_send, frame}
use tcp_server_client.Workers.{Thread}
use tcp_server_client.Maps.{find, keys}

-- The return codes of `start`.
abbrev pub server_start_ok : ℤ
server_start_ok = pos 0

abbrev pub wrong_port : ℤ
wrong_port = pos 10

abbrev pub create_socket_error : ℤ
create_socket_error = pos 40

abbrev pub set_socket_opt_error : ℤ
set_socket_opt_error = pos 41

abbrev pub bind_port_error : ℤ
bind_port_error = pos 42

abbrev pub start_server_error : ℤ
start_server_error = pos 43

-- The members. A socket is the number that its object holds or stands for; a thread's running flag
-- is the number of the thread; a callback is whether it is set. `derived` is what a derived class
-- adds.
pub record Server (D : Type 0) : Type 0 where
  pub framing : Framing
  pub active_connections : List (ℤ × ℤ)
  pub tcp_socket : ℤ
  pub acc_handler : Bool  -- joinable
  pub rec_handlers : List (ℤ × Thread)
  pub rec_handlers_running : List (ℤ × ℤ)
  pub running : Bool
  pub generate_new_forward_stream : Bool
  pub forward_streams : List (ℤ × ℤ)
  pub work_on_message : Bool
  pub work_on_established : Bool
  pub work_on_closed : Bool
  pub derived : D

-- The pure virtual functions.
pub record Protocol (D : Type 0) : Type 0 where
  pub init : Exec (Server D) ℤ
  pub connection_init : ℤ → Exec (Server D) (Option ℤ)
  pub connection_deinit : ℤ → Exec (Server D) (Unit {0})
  pub read_msg : ℤ → Exec (Server D) Bytes
  pub write_msg : ℤ → Bytes → Exec (Server D) Bool
  -- `SocketDeleter`, which the class gives as an argument of the template.
  pub delete_socket : ℤ → Exec (Server D) (Unit {0})

module _ {D : Type 0} where
  -- What `unique_ptr` does with the socket of an entry that goes: nothing for a null pointer.
  unfoldable pub delete_entry : Protocol D → Option ℤ → Exec (Server D) (Unit {0})
  delete_entry p none = pure tt
  delete_entry p (some fd) = if eqb_ℤ fd (pos 0) then pure tt else p.delete_socket fd

  -- The two constructors, by their framing.
  abbrev pub new_server : Framing → D → Server D
  new_server framing derived = record {
    framing = framing;
    active_connections = [];
    tcp_socket = pos 0;
    acc_handler = false;
    rec_handlers = [];
    rec_handlers_running = [];
    running = false;
    generate_new_forward_stream = false;
    forward_streams = [];
    work_on_message = false;
    work_on_established = false;
    work_on_closed = false;
    derived = derived;
  }

  -- The end of `activeConnections`, with the socket of each entry.
  unfoldable pub delete_connections : Protocol D → List (ℤ × ℤ) → Exec (Server D) (Unit {0})
  delete_connections p [] = pure tt
  delete_connections p ((client, fd) ∷ rest) = do
    delete_entry p (some fd)
    delete_connections p rest

  unfoldable pub set_work_on_message : Bool → Exec (Server D) (Unit {0})
  set_work_on_message worker = modify (λ s. record s { work_on_message = worker })

  unfoldable pub set_create_forward_stream : Bool → Exec (Server D) (Unit {0})
  set_create_forward_stream creator =
      modify (λ s. record s { generate_new_forward_stream = creator })

  unfoldable pub set_work_on_established : Bool → Exec (Server D) (Unit {0})
  set_work_on_established worker = modify (λ s. record s { work_on_established = worker })

  unfoldable pub set_work_on_closed : Bool → Exec (Server D) (Unit {0})
  set_work_on_closed worker = modify (λ s. record s { work_on_closed = worker })

  pub get_all_client_ids : Exec (Server D) (List ℤ)
  get_all_client_ids = gets (λ s. keys s.active_connections)

  unfoldable pub is_running : Exec (Server D) Bool
  is_running = gets (λ s. s.running)

module _ {D : Type 0} (os : Os) where
  -- The address is the text that `inet_ntoa` makes of what `getpeername` hands over.
  pub get_client_ip : ℤ → Exec (Server D) Bytes
  get_client_ip client = do
    (r, ip) ← call_bytes os (getpeername client)
    if nonzero r then throw error_reading_ip else pure ip

  -- `if (accHandler.joinable()) accHandler.join();`
  unfoldable pub join_acc_handler : Exec (Server D) (Unit {0})
  join_acc_handler = do
    joinable ← gets (λ s. s.acc_handler)
    if joinable
        then (call os join_acceptor >> modify (λ s. record s { acc_handler = false }))
        else pure tt

  unfoldable pub stop : Exec (Server D) (Unit {0})
  unfolding join_acc_handler
  stop = do
    modify (λ s. record s { running = false })
    fd ← gets (λ s. s.tcp_socket)
    shut ← call os (shutdown fd shut_rdwr)
    join_acc_handler
    if nonzero shut then pure tt else (call os (close fd) >> pure tt)

  -- The destructor of a class derived from `Server`: `stop`, and then the members.
  unfoldable pub destroy : Protocol D → Exec (Server D) (Unit {0})
  destroy p = do
    stop
    connections ← gets (λ s. s.active_connections)
    delete_connections p connections

  -- The end of `start`: the thread, and then the flag.
  unfoldable pub start_accepting : ℤ → Exec (Server D) ℤ
  start_accepting init_code = do
    joinable ← gets (λ s. s.acc_handler)
    if joinable then throw thread_already_running else do
      call os spawn_acceptor
      modify (λ s. record s { acc_handler = true })
      modify (λ s. record s { running = true })
      pure init_code

  -- `start` from `listen` on.
  unfoldable pub start_listening : ℤ → ℤ → Exec (Server D) ℤ
  start_listening init_code fd = do
    r ← call os (listen fd)
    if nonzero r then (stop >> pure start_server_error) else start_accepting init_code

  -- `start` from `bind` on.
  unfoldable pub start_binding : ℤ → ℤ → ℤ → Exec (Server D) ℤ
  start_binding port init_code fd = do
    r ← call os (bind fd port)
    if nonzero r then (stop >> pure bind_port_error) else start_listening init_code fd

  -- `start` from `socket` on.
  unfoldable pub start_socket : ℤ → ℤ → Exec (Server D) ℤ
  start_socket port init_code = do
    fd ← call os socket
    modify (λ s. record s { tcp_socket = fd })
    if eqb_ℤ minus_one fd then (stop >> pure create_socket_error) else do
      r ← call os (setsockopt fd)
      if nonzero r then (stop >> pure set_socket_opt_error) else start_binding port init_code fd

  unfoldable pub start : Protocol D → ℤ → Exec (Server D) ℤ
  start p port = do
    running ← gets (λ s. s.running)
    if running
        then pure minus_one
        else if ltb_ℤ port (pos 1) || ltb_ℤ (pos 65535) port
        then pure wrong_port
        else do
          init_code ← p.init
          if nonzero init_code then pure init_code else start_socket port init_code

  unfoldable pub send_msg : Protocol D → ℤ → Bytes → Exec (Server D) Bool
  send_msg p client msg = do
    cfg ← gets (λ s. s.framing)
    if not (may_send cfg msg) then pure false else do
      connection ← gets (λ s. find client s.active_connections)
      elim connection [ none ↦ pure false | some _ ↦ p.write_msg client (frame cfg msg) ]
