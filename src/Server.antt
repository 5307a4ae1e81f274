-- ===== src/Server.antt =====
-- The server: the pool of io_contexts, the accept loops and the TLS connection.
mod Tests
pub mod Pool
pub mod Accept
pub mod SslConnection
pub mod System
