-- ===== src/Storage.antt =====
-- internal/storage/storage.go: objects, by their names.
pub mod Names
pub mod Store
pub mod Contents
mod Tests
