-- ===== src/Lib.antt =====
-- Verification library for TCP_ServerClient: a header-only C++ library with a server and a client
-- over TCP or TLS, which hand on received data as messages cut at a delimiter or as a stream.
--
-- Parts, with the files that model them:
--   src/template/Server.hpp   Server (object, start, stop, sendMsg), Server/Receive (listenMessage,
--                             the thread of a connection), Server/Accept (listenConnection),
--                             Server/Threads (all threads of a server, interleaved), Server/Service
--                             (what its methods promise to a user, as a machine of two values)
--   src/template/Client.hpp   Client (object, start, stop, sendMsg), Client/Receive (receive),
--                             Client/Threads (start and stop in one thread, sendMsg in another and
--                             the receive thread, interleaved), Client/Service (the same promise,
--                             with losses of the connection between the calls)
--   src/TcpServer.hpp, src/TlsServer.hpp, src/TcpClient.hpp, src/TlsClient.hpp
--                             TcpServer, TlsServer, TcpClient, TlsClient: the virtual functions that
--                             `Server` and `Client` call, and the deleter of a socket, as a record
--                             `Protocol` of functions
--   both ends                 Exchange: what a client or a server sends by sendMsg and what the
--                             receive thread at the other end hands on
--   code that both templates have
--                             Framing (tests of sendMsg, loop over a chunk), Workers (threads that
--                             work on messages), ReadMsg (the string made of a read)
--   example/server.cpp, example/client.cpp
--                             Programs: ServerMain and ClientMain, several objects in one program
--   src/template/exception.hpp
--                             Exec (what is thrown), Errors (with which text)
--   the setting of all methods
--                             Exec
-- Maps is std::map<int, T>; Prelude holds names and lemmas that all parts share; Examples holds
-- concrete runs.
--
-- A method is a function on a `Machine`, the object beside the log of the calls that this thread has
-- made to the outside, latest first; it returns, throws or runs out of fuel. The outside (system,
-- OpenSSL, std::thread, callbacks, and what other threads do to flags) is the parameter `Os`: an
-- arbitrary function from the calls made so far, and the call, to a number and bytes. Theorems hold
-- for every `Os`, except where a hypothesis says what is relied on: `ReadsAtMost` (a read hands over
-- no more than it was asked for), `IsFound` (the name of the server is found). `Lifecycle`,
-- `Transport` and `Unseen` are what the templates rely on in the virtual functions, and `Accepting` what
-- the accept thread does; the classes supply them in their files Laws and Accepting. In Exchange, each
-- end has an `Os` of its own: a hypothesis says that what one has taken by `send` on the socket is
-- what the other has handed over by `recv`, but for some bytes at the end that are on the way.
--
-- A socket is its number, an OpenSSL object a number with 0 for a null pointer, a thread its handle
-- and whether it is joinable, a callback whether it is set, a char its code. A size_t wraps at 2^64.
-- The string that is moved into a thread is taken to be empty after it, which the standard leaves
-- open and implementations do. Assigning to a joinable thread, which ends the program, stands as the
-- exception of a second join.
--
-- Server/Threads and Client/Threads have step relations instead: the state is what the threads
-- share (mutex, map of connections, sockets, map of handlers, flag; for a client the flag and its
-- socket) and where each thread stands, and a step is one access of one thread, so that its theorems
-- hold for every order. A read comes back empty, and waits no longer, only once the peer or a shutdown
-- on this side has ended the connection, and `accept` hands over nothing only on a bad attempt of a
-- peer or once the listening socket has been shut down: `Goes` has the steps of the threads alone,
-- `Steps` those of the peers too. The system may hand out any number that no open socket has. Calls of
-- `connectionInit` are one step with the `accept` before them: that a TLS handshake waits for its peer
-- is not seen there.
--
-- Fuel: the loop over a chunk gets the length of the chunk and one, since each round takes a byte or
-- more off the chunk; the removal of workers gets their number and one, since each round moves past a
-- worker or erases one. The loops of the threads get a number of rounds, since the peer decides how
-- many there are; each round but the last reads a byte or more, so that a number above that of the
-- bytes that ever come is enough. The rounds times the size of a read are kept below 2^64. The accept
-- thread makes a call in each round, so that one round more than the calls after which `running` reads
-- as false is enough. How often the menu of example/client.cpp comes is up to its user.
--
-- Not modelled: what a receive thread does between two reads in Server/Threads and Client/Threads,
-- thread creation that fails, the output of DEVELOP builds, what smart pointers call to free contexts
-- and certificates of OpenSSL (its TLS objects are freed where their pointer goes), the empty stream of
-- the client in fragmented mode (NullBuffer), which is never written to, tests and build files.
pub mod Prelude
pub mod Exec
pub mod Framing
pub mod Workers
pub mod Maps
pub mod ReadMsg
pub mod Server
pub mod TcpServer
pub mod TlsServer
pub mod Client
pub mod TcpClient
pub mod TlsClient
pub mod Errors
pub mod Exchange
pub mod Examples
pub mod Programs
