-- ===== src/Limitbook.antt =====
-- internal/limitbook: the order book of a symbol.
pub mod Memory
pub mod PriceHeap
pub mod Side
pub mod Book
pub mod Match
mod Tests
