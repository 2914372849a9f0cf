-- ===== src/Observations.antt =====
-- Confirmed observations, the reports that cite them, and the reorganisations that withdraw both:
-- packages/db/src/repositories/observations.ts, cursors.ts, reports.ts and the lookups of vaults.ts.
pub mod Tables
pub mod Registry
pub mod Staging
pub mod Upsert
pub mod Promote
pub mod Orphans
pub mod Reports
pub mod Sound
pub mod Cursors
pub mod Window
