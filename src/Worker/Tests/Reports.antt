-- ===== src/Worker/Tests/Reports.antt =====
-- A report on the sample's deposit, written twice.
