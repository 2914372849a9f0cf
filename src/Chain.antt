-- ===== src/Chain.antt =====
-- Reading a vault and preparing the calls to it: packages/chain/src.
pub mod Capabilities
pub mod Prepare
mod Tests
