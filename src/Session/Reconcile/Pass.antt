-- ===== src/Session/Reconcile/Pass.antt =====
-- session/reconcile.rs: the two entry points, `reconcile` and the tail of `stop`.
use wine_vr.Prelude.{
  ℕ, Bool, false, not, Option, none, some, List, [], ◌==◌, is_some_and, str_eq, if◌then◌else◌,
}
use wine_vr.Host.Phase.{RunPhaseInfo}
use wine_vr.Host.Error.{Message, SabrageError, Result, ok, err}
use wine_vr.Host.Record.{SessionState}
use wine_vr.Host.Effect.{pure, ◌>>=◌, ◌>>◌}
use wine_vr.Host.World.{Disk, absent, unreadable, holds, info, warn, Event, M, emit, load}
use wine_vr.Session.Reconcile.Classify.{
  Classification, classify, restore_mode, RestoreMode, Untouchable, untouchable,
}
use wine_vr.Session.Reconcile.Restore.{StageCtx, AudioProbe}
use wine_vr.Session.Reconcile.Forwards.{restore_and_finish}

pub data Reconciled : Type 0 where
  no_session : Reconciled
  live : SessionState → Reconciled
  -- the record, the rows of what was restored, and whether a guard is still pending
  dead : SessionState → List Message → Bool → Reconciled
  identity_mismatch : SessionState → List Message → Bool → Reconciled
  -- the record, the reason, and whether it is worth no row
  busy : SessionState → Message → Bool → Reconciled

unfoldable pub busy_refusal : Reconciled → Option Message
busy_refusal (Reconciled.busy s reason false) = some reason
busy_refusal _ = none

-- An unreadable record is reported and then is as good as none.
unfoldable pub load_record : Disk → M (Option SessionState)
load_record absent = pure none
load_record (holds s) = pure (some s)
load_record unreadable = do
  emit (Event.line warn Message.state_unreadable)
  emit (Event.line info Message.delete_record_hint)
  pure none

abbrev pub warn_unless : Bool → Message → M (Unit {0})
warn_unless silent text = if silent then pure tt else emit (Event.line warn text)

-- What a supervised session's record is reported as.
abbrev pub supervised : Classification → SessionState → Reconciled
supervised Classification.live s = Reconciled.live s
supervised Classification.unverifiable s = Reconciled.live s
supervised Classification.dead s = Reconciled.dead s [] false
supervised Classification.identity_mismatch s = Reconciled.identity_mismatch s [] false

abbrev pub recovered : Classification → SessionState → List Message → Bool → Reconciled
recovered Classification.identity_mismatch s rows pending =
    Reconciled.identity_mismatch s rows pending
recovered _ s rows pending = Reconciled.dead s rows pending

unfoldable pub reconcile_by :
    StageCtx
    → Result (Option AudioProbe)
    → SessionState
    → Classification
    → Option RestoreMode
    → M Reconciled
reconcile_by c probe s class none = pure (Reconciled.live s)
reconcile_by c probe s class (some mode) = do
  r ← restore_and_finish c s mode probe
  pure (recovered class r.1.state r.1.restored r.0)

unfoldable pub reconcile_ours :
    StageCtx
    → Option ℕ
    → Result (Option AudioProbe)
    → SessionState
    → Option Untouchable
    → M Reconciled
reconcile_ours c live_run_id probe s (some u) = do
  warn_unless u.silent u.reason
  pure (Reconciled.busy s u.reason u.silent)
reconcile_ours c live_run_id probe s none =
    let class = classify c.env.os s in
    if is_some_and live_run_id (λ id. id == s.run_id)
    then pure (supervised class s)
    else reconcile_by c probe s class (restore_mode class)

unfoldable pub reconcile_loaded :
    StageCtx
    → Option ℕ
    → Option RunPhaseInfo
    → Result (Option AudioProbe)
    → Option SessionState
    → M Reconciled
reconcile_loaded c live_run_id run_phase probe none = pure Reconciled.no_session
reconcile_loaded c live_run_id run_phase probe (some s) =
    reconcile_ours c live_run_id probe s (untouchable c.env.os s run_phase)

unfoldable pub reconcile_with :
    StageCtx → Option ℕ → Option RunPhaseInfo → Result (Option AudioProbe) → M Reconciled
reconcile_with c live_run_id run_phase probe = do
  d ← load c.env
  s ← load_record d
  reconcile_loaded c live_run_id run_phase probe s

abbrev pub wine_pid : SessionState → ℕ
wine_pid s = elim s.wine [ none ↦ 0 | some w ↦ w.pid ]

abbrev pub kept_alive_row : Classification → SessionState → Message
kept_alive_row Classification.unverifiable s = Message.wine_unidentified (wine_pid s)
kept_alive_row _ s = Message.wine_still_alive (wine_pid s)

unfoldable pub finish_by :
    StageCtx
    → Result (Option AudioProbe)
    → SessionState
    → Classification
    → Option RestoreMode
    → M (Unit {0})
finish_by c probe s class none = emit (Event.line warn (kept_alive_row class s))
finish_by c probe s class (some mode) = do restore_and_finish c s mode probe; pure tt

unfoldable pub finish_ours :
    StageCtx → Result (Option AudioProbe) → SessionState → Option Untouchable → M (Unit {0})
finish_ours c probe s (some u) = warn_unless u.silent u.reason
finish_ours c probe s none =
    let class = classify c.env.os s in finish_by c probe s class (restore_mode class)

-- The stage's bottle is the record's.
abbrev pub same_bottle : StageCtx → SessionState → Bool
same_bottle c s = is_some_and c.bottle_name (λ b. str_eq b s.bottle)

unfoldable pub finish_loaded :
    StageCtx
    → Option ℕ
    → Option RunPhaseInfo
    → Result (Option AudioProbe)
    → Option SessionState
    → M (Unit {0})
finish_loaded c live_run_id run_phase probe none = pure tt
finish_loaded c live_run_id run_phase probe (some s) =
    if not (same_bottle c s)
    then pure tt
    else if is_some_and live_run_id (λ id. id == s.run_id)
    then pure tt
    else finish_ours c probe s (untouchable c.env.os s run_phase)

unfoldable pub finish_stopped_session_inner :
    StageCtx → Option ℕ → Option RunPhaseInfo → Result (Option AudioProbe) → M (Unit {0})
finish_stopped_session_inner c live_run_id run_phase probe = do
  d ← load c.env
  s ← load_record d
  finish_loaded c live_run_id run_phase probe s

-- Only a cancellation passes: any other failure becomes two rows.
unfoldable pub tolerate_reconcile_failure : Result (Unit {0}) → M (Unit {0})
tolerate_reconcile_failure (ok _) w = (ok tt, w)
tolerate_reconcile_failure (err SabrageError.cancelled) w = (err SabrageError.cancelled, w)
tolerate_reconcile_failure (err x) w =
    (do
      emit (Event.line warn (Message.reconcile_failed x))
      emit (Event.line info Message.reconcile_retry_hint))
      w

unfoldable pub finish_stopped_session_with :
    StageCtx → Option ℕ → Option RunPhaseInfo → Result (Option AudioProbe) → M (Unit {0})
finish_stopped_session_with c live_run_id run_phase probe w =
    let (r, w') = finish_stopped_session_inner c live_run_id run_phase probe w in
    tolerate_reconcile_failure r w'
