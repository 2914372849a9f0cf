-- ===== src/Actions.antt =====
-- Prepared actions: their tables, the operations on them and the service that reports on them.
pub mod Store
pub mod Repository
pub mod Receipts
pub mod Binding
pub mod Service
mod Tests
