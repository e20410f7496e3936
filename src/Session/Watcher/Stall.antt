-- ===== src/Session/Watcher/Stall.antt =====
-- When a snapshot reports a stall.
use wine_vr.Prelude.{ℕ, ◌-◌, ◌<◌, ◌≡◌, true, false, Option, some}
use wine_vr.Session.Status.{SessionStatus}
use wine_vr.Session.Doors.{Sources}
use wine_vr.Session.Watcher.{SessionMonitor, Draft}
use wine_vr.Session.Watcher.Memory.{scanned}

-- The evidence for a stall that the monitor and the clock give.
pub record Stalling (now : ℕ) (m : SessionMonitor) (started : ℕ) (run_id : Option ℕ) : Type 0 where
  -- a stamp of this very run was fresh in an earlier poll
  pub seen_fresh : m.ever_fresh ≡ true
  pub same_run : m.fresh_run_id ≡ run_id
  pub grace_over : 30000 < now - started
  pub stale : (t : ℕ) → m.last_fresh_unix_ms ≡ some t → 10000 < now - t

-- What the steps before the stall rule leave of the derived status.
abbrev SameRun : SessionStatus → SessionStatus → Type 0
SameRun a b = (b.run_id ≡ a.run_id) × (b.started_at_unix_ms ≡ a.started_at_unix_ms)

module _ (src : Sources) (m : SessionMonitor) where
  abbrev ready : Draft
  ready = record (scanned src m) {
    monitor = record (scanned src m).monitor { preload_pending = false };
  }
