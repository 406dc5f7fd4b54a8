-- ===== src/Auth.antt =====
-- internal/auth/auth.go: accounts, their tokens, and the revoked tokens.
pub mod Email
pub mod Service
pub mod Accounts
pub mod Sessions
pub mod Revocation
pub mod Loading
pub mod Secrets
pub mod Sample
mod Tests
