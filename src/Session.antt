-- ===== src/Session.antt =====
-- The session layer: the record on disk, the recovery pass, the status and the doors.
pub mod State
pub mod Audio
pub mod Reconcile
pub mod Status
pub mod Doors
pub mod Watcher
