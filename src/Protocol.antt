-- ===== src/Protocol.antt =====
-- pkg/migp: the protocol between a client and a server.
pub mod Common
pub mod Libraries
pub mod Encryptor
pub mod Hasher
pub mod Server
pub mod Client
pub mod Exchange
pub mod Json
pub mod ServerConfig
pub mod Query
pub mod Toy
pub mod Tests
