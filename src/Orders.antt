-- ===== src/Orders.antt =====
-- internal/orders/service.go: orders from the request to the payment of their trades. Matching them
-- is in Limitbook.
pub mod Service
pub mod Exchange
pub mod Create
mod Tests
