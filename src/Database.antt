-- ===== src/Database.antt =====
-- internal/database/database.go: the tree of JSON values that clients read and write.
pub mod Tree
pub mod Laws
pub mod Deletion
pub mod PushId
pub mod Order
pub mod Store
pub mod Effects
pub mod Leaves
pub mod Placed
pub mod Refinement
mod Tests
