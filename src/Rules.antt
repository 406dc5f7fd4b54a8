-- ===== src/Rules.antt =====
-- internal/rules/rules.go: the security rules engine.
pub mod Lexer
pub mod Eval
pub mod Total
pub mod Grammar
pub mod Correct
pub mod Spelling
pub mod Meaning
pub mod Tree
pub mod Check
pub mod Reach
pub mod Access
pub mod Policies
pub mod Persist
mod Tests
