-- ===== src/Server.antt =====
-- cmd/monolith/main.go: the middleware that every request passes, and the handlers.
pub mod Stack
pub mod Socket
pub mod App
pub mod Routes
pub mod Money
pub mod Accounts
pub mod Pages
mod Tests
