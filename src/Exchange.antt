-- ===== src/Exchange.antt =====
-- A server and a client together, over a connection that hands on the bytes that `send` has taken:
-- the classes of src/TcpServer.hpp, src/TcpClient.hpp, src/TlsServer.hpp and src/TlsClient.hpp, with
-- what they inherit.
pub mod Sent
pub mod Prefix
pub mod Between
pub mod Tcp
pub mod Tls
