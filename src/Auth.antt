-- ===== src/Auth.antt =====
-- internal/auth: tokens (auth.go) and the middleware that asks for one (middleware.go).
pub mod Base64
pub mod Scan
pub mod Passwords
pub mod Tokens
pub mod Middleware
pub mod Tests
