-- ===== src/Run.antt =====
-- The run stage: what a launch changes on the machine, and how it comes off.
pub mod Guards
pub mod Carry
pub mod Goldberg
pub mod Forwards
pub mod Launch
