-- ===== src/Worker.antt =====
-- Which blocks a run of the worker promotes: apps/worker/src/promote-confirmed.ts and the ceiling of
-- packages/db/src/repositories/cursors.ts.
pub mod Promotion
pub mod Confirmed
pub mod DeepReorg
pub mod Reachable
mod Tests
