-- ===== src/Fixes.antt =====
-- The fixes that a user, doctor or a launch applies.
pub mod Adb
