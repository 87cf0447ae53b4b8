-- ===== src/Rate.antt =====
-- internal/rate: the token bucket in Redis (limiter.go) and the middleware that uses it
-- (middleware.go).
pub mod Number
pub mod Limiter
pub mod Middleware
pub mod Tests
