-- ===== src/Cmd.antt =====
-- cmd/firego/main.go: how the program gets its keys and its server.
pub mod Start
pub mod Keys
mod Tests
