-- ===== src/Program.antt =====
-- cmd/client/main.go and cmd/server/main.go: the two programs around the protocol and the store.
pub mod Client
pub mod Buckets
pub mod Server
pub mod Queried
pub mod Tests
