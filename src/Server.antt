-- ===== src/Server.antt =====
-- internal/server/server.go: requests to an app.
pub mod Http
pub mod Accounts
pub mod Objects
pub mod Admin
pub mod Stream
pub mod Streams
pub mod Broadcast
pub mod Router
pub mod Keeps
pub mod Histories
pub mod AdminKey
pub mod Isolation
pub mod Sessions
pub mod Readers
pub mod Answers
pub mod Limits
pub mod Data
pub mod Integrity
pub mod Database
pub mod Guards
pub mod Reads
pub mod Sample
mod Tests
mod Runs
