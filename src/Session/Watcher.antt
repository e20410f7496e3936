-- ===== src/Session/Watcher.antt =====
-- session/watcher.rs: one snapshot of the session, folded from files, polls and the two slots.
pub mod Snapshot
pub mod Agreement
pub mod Memory
pub mod Encoder
pub mod Stall
pub mod Stopping
use wine_vr.Prelude.{
  ℕ, ◌-◌, String, Bool, true, false, not, ◌&&◌, ◌||◌, Option, none, some, List, [], ◌∷◌, ◌==◌, leb,
  ltb, is_some, is_some_and, unwrap_or, opt_eq, str_eq, if◌then◌else◌,
}
use wine_vr.Host.Process.{Os}
use wine_vr.Host.Phase.{SessionPhase, RunPhaseInfo, is_idle_or_exited}
use wine_vr.Host.Record.{SessionState}
use wine_vr.Host.World.{Disk, absent, unreadable, holds}
use wine_vr.Session.Status.{EncoderInfo, SessionStatus, idle_status, LiveSessionHandle, Globals}
use wine_vr.Session.Reconcile.Classify.{is_live, classify, classify_identity}
use wine_vr.Session.Doors.{RuntimeStatus, is_fresh, runtime_status_live, Sources, running_game_pid}

abbrev pub session_startup_grace_ms : ℕ
session_startup_grace_ms = 30000

abbrev pub stall_grace_after_fresh_ms : ℕ
stall_grace_after_fresh_ms = 10000

-- One line of the runtime log, as `parse_encoder_ready` and `parse_log_timestamp` read it.
pub record LogLine : Type 0 where
  pub encoder : Option EncoderInfo
  pub stamp : Option ℕ

-- `SessionMonitor`, less its paths and the log cursor: the batch of each poll is an argument.
pub record SessionMonitor : Type 0 where
  pub encoder : Option EncoderInfo
  pub encoder_run_id : Option ℕ
  pub created_at_unix_ms : ℕ
  pub preload_pending : Bool
  pub runtime_status : Option RuntimeStatus
  pub ever_fresh : Bool
  pub last_fresh_unix_ms : Option ℕ
  pub fresh_run_id : Option ℕ
  pub last_phase : SessionPhase

-- `SessionMonitor::new`
unfoldable pub new_monitor : ℕ → SessionMonitor
new_monitor now = record {
  encoder = none;
  encoder_run_id = none;
  created_at_unix_ms = now;
  preload_pending = true;
  runtime_status = none;
  ever_fresh = false;
  last_fresh_unix_ms = none;
  fresh_run_id = none;
  last_phase = SessionPhase.idle;
}

-- Which derived source produced the phase.
pub data Base : Type 0 where
  live persisted external no_base : Base

abbrev pub is_no_base : Base → Bool
is_no_base Base.no_base = true
is_no_base _ = false

abbrev pub persisted_phase : Bool → Bool → SessionPhase
persisted_phase true true = SessionPhase.detached
persisted_phase true false = SessionPhase.running
persisted_phase false _ = SessionPhase.exited

-- The status and its source, from the live handle or else the record.
unfoldable pub derive_persisted : Os → Disk → SessionStatus × Base
derive_persisted os (holds s) = (
  record idle_status {
    run_id = some s.run_id;
    bottle = some s.bottle;
    started_at_unix_ms = some s.started_at_unix_ms;
    log_path = some s.log_path;
    pid = elim s.wine [ none ↦ none | some w ↦ some w.pid ];
    phase = persisted_phase (is_live (classify os s)) s.detached;
    detached = s.detached;
  },
  Base.persisted,
)
derive_persisted os _ = (idle_status, Base.no_base)

unfoldable pub derive_live : Os → Disk → Option LiveSessionHandle → SessionStatus × Base
derive_live os d none = derive_persisted os d
derive_live os d (some h) = (
  record idle_status {
    owned_by_this_process = true;
    run_id = some h.run_id;
    bottle = some h.bottle;
    pid = some h.identity.pid;
    started_at_unix_ms = some h.started_at_unix_ms;
    log_path = some h.log_path;
    phase =
        if is_live (classify_identity os (some h.identity))
        then SessionPhase.running
        else SessionPhase.exited;
  },
  Base.live,
)

-- Freshness history never crosses from one session to the next.
unfoldable pub reset_history : Option ℕ → SessionMonitor → SessionMonitor
reset_history run_id m = if opt_eq m.fresh_run_id run_id then m else record m {
  fresh_run_id = run_id;
  ever_fresh = false;
  last_fresh_unix_ms = none;
  runtime_status = none;
}

-- The three things that a snapshot builds up.
pub record Draft : Type 0 where
  pub monitor : SessionMonitor
  pub status : SessionStatus
  pub base : Base

abbrev pub status_is_fresh : RuntimeStatus → ℕ → SessionStatus → Bool
status_is_fresh rs now st =
    is_fresh rs.updated_at_unix_ms now
    && not (is_some_and st.started_at_unix_ms (λ started. ltb rs.updated_at_unix_ms started))

abbrev pub note_fresh : Os → RuntimeStatus → ℕ → Draft → Draft
note_fresh os rs now d =
    let seen = record d {
      monitor = record d.monitor { ever_fresh = true; last_fresh_unix_ms = some now };
    } in
    if is_no_base d.base && runtime_status_live os rs now
    then record seen {
      base = Base.external;
      status = record seen.status { phase = SessionPhase.external; pid = rs.process_id };
    }
    else seen
