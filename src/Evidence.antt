-- ===== src/Evidence.antt =====
-- The evidence engine, packages/evidence/src.
pub mod Failure
pub mod Rational
pub mod Flows
pub mod ShareValue
pub mod Capability
pub mod Input
pub mod Identity
pub mod Report
pub mod Draft
pub mod Attach
pub mod Tests
