-- ===== src/Logs.antt =====
-- logs.rs: the tailing of a growing log.
pub mod Tailer
pub mod Poll
pub mod Start
