-- ===== src/Realtime.antt =====
-- internal/realtime/hub.go: the hub that passes on database changes.
pub mod Hub
pub mod Channels
pub mod Matching
pub mod Delivery
pub mod Reading
mod Tests
