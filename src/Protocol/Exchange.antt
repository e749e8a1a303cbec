-- ===== src/Protocol/Exchange.antt =====
-- Exchanges between the client and the server of pkg/migp: `NewServer` and `NewClient` from one
-- configuration, `Request`, `HandleRequest` and `Finalize`.
pub mod Parties
pub mod Version
pub mod Correct
pub mod Tests
