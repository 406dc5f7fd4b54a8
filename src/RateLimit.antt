-- ===== src/RateLimit.antt =====
-- internal/ratelimit/ratelimit.go: the limiter of requests.
pub mod Limiter
pub mod ClientIp
pub mod Addresses
pub mod Budget
pub mod Idle
mod Tests
