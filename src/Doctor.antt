-- ===== src/Doctor.antt =====
-- The checks that doctor and the launch's preflight run.
pub mod Registry
pub mod Report
