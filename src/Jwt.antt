-- ===== src/Jwt.antt =====
-- internal/jwt/jwt.go: tokens that carry claims, signed with a secret.
pub mod Base64
pub mod Token
pub mod Signed
pub mod Issued
pub mod Secrets
pub mod Sample
mod Tests
