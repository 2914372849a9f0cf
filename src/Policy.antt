-- ===== src/Policy.antt =====
-- The policy engine, packages/policy/src/evaluate.ts.
pub mod Rules
pub mod Evaluate
mod Tests
