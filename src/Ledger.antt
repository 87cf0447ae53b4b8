-- ===== src/Ledger.antt =====
-- internal/ledger: the repository of balanced journals and the service that moves money.
pub mod Journal
pub mod Service
pub mod Spec
pub mod Session
pub mod Overlap
pub mod Tests
