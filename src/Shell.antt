-- ===== src/Shell.antt =====
-- The desktop shell: what its commands keep between calls, and how the application ends.
pub mod Stop
pub mod Quit
pub mod Tails
pub mod Runs
pub mod Options
