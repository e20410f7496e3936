-- ===== src/Session/Reconcile.antt =====
-- session/reconcile.rs: recovery of a session that this process does not supervise.
pub mod Classify
pub mod Restore
pub mod Forwards
pub mod Pass
pub mod Guarded
pub mod Safety
pub mod Entry
pub mod Ending
pub mod HandsOff
pub mod Detach
