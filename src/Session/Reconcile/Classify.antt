-- ===== src/Session/Reconcile/Classify.antt =====
-- session/reconcile.rs: what the record's process is now, and whose the record is.
use wine_vr.Prelude.{Bool, true, false, Option, none, some, ◌==◌, not, if◌then◌else◌, ◌&&◌}
use wine_vr.Host.Process.{ProcInfo, Os, is_same_process}
use wine_vr.Host.Phase.{RunPhaseInfo, is_in_flight}
use wine_vr.Host.Error.{Message}
use wine_vr.Host.Record.{SessionState, is_supported_version, has_live_foreign_owner}

pub data Classification : Type 0 where
  live dead identity_mismatch unverifiable : Classification

-- `Classification::is_live`
abbrev pub is_live : Classification → Bool
is_live live = true
is_live unverifiable = true
is_live _ = false

pub data RestoreMode : Type 0 where
  full safe_only : RestoreMode

unfoldable pub classify_identity : Os → Option ProcInfo → Classification
classify_identity os none = dead
classify_identity os (some wine) =
    if wine.pid == 0
    then dead
    else if is_same_process os wine
    then live
    else if not (os.is_alive wine.pid)
    then dead
    else if wine.start_time == 0
    then unverifiable
    else identity_mismatch

unfoldable pub classify : Os → SessionState → Classification
unfolding classify_identity
classify os s = classify_identity os s.wine

abbrev pub restore_mode : Classification → Option RestoreMode
restore_mode live = none
restore_mode unverifiable = none
restore_mode dead = some full
restore_mode identity_mismatch = some safe_only

-- Why a record may not be touched, and whether that is worth no row.
pub record Untouchable : Type 0 where
  pub reason : Message
  pub silent : Bool

-- The published phase is that of a launch in flight for this record.
abbrev pub launch_in_flight : Option RunPhaseInfo → SessionState → Bool
launch_in_flight none s = false
launch_in_flight (some i) s = is_in_flight i.phase && i.run_id == s.run_id

unfoldable pub untouchable : Os → SessionState → Option RunPhaseInfo → Option Untouchable
untouchable os s run_phase =
    if launch_in_flight run_phase s
    then some (record { reason = Message.record_in_flight; silent = true })
    else if has_live_foreign_owner os s
    then some (record { reason = Message.owned_elsewhere_row s.owner_pid; silent = false })
    else if not (is_supported_version s)
    then some (record { reason = Message.newer_schema_row s.version; silent = false })
    else none

unfoldable pub signalable : Os → ProcInfo → Bool
signalable os id = not (id.pid == 0) && is_same_process os id
