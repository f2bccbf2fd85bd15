-- ===== src/Tcp.antt =====
-- luce/net/tcp: connections over watched sockets, and the server that accepts them.
pub mod Connection
pub mod Lifetime
pub mod Server
pub mod Accepting
pub mod Starting
