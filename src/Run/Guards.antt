-- ===== src/Run/Guards.antt =====
-- stages/run/guards.rs: the audio guard and the dashboard guard of one launch. The record is the
-- caller's: each operation returns it beside its result, whether it failed or not.
pub mod Teardown
pub mod WriteAhead
pub mod Carried
pub mod Attempted
use wine_vr.Prelude.{
  String, Bool, true, false, not, ◌&&◌, Option, none, some, List, any, is_some, str_eq,
  if◌then◌else◌,
}
use wine_vr.Host.Error.{Message, SabrageError, Result, ok, err}
use wine_vr.Host.Record.{SessionState}
use wine_vr.Host.Effect.{pure, attempt, ◌>>=◌, ◌>>◌}
use wine_vr.Host.World.{info, warn, Command, Event, M, emit, run_child}
use wine_vr.Session.State.{save}
use wine_vr.Session.Reconcile.Restore.{StageCtx, Captured, blackhole}

-- The options, preflight facts and binaries that the guards read.
pub record LaunchFacts : Type 0 where
  pub no_audio : Bool
  pub no_dashboard : Bool
  pub protocol : String
  pub switch_bin : Option String
  pub dashboard_bin : String
  pub dashboard_executable : Bool

pub data AudioEligibility : Type 0 where
  disabled skip : AudioEligibility
  probe : String → AudioEligibility

unfoldable pub audio_eligibility : Bool → String → Option String → AudioEligibility
audio_eligibility no_audio protocol none = if no_audio then disabled else skip
audio_eligibility no_audio protocol (some bin) =
    if no_audio then disabled else if str_eq protocol "alvr" then probe bin else skip

unfoldable pub blackhole_listed : List String → Bool
blackhole_listed lines = any (λ l. str_eq l blackhole) lines

-- `AudioGuard`, less the sink and the run id of its rows.
pub record AudioGuard : Type 0 where
  pub previous_output : Option String
  pub switch_bin : Option String
  pub carried : Bool
  pub dry_run : Bool
  pub released : Bool
  pub disarmed : Bool

-- `AudioGuard::inert`
unfoldable pub inert_audio : StageCtx → AudioGuard
inert_audio c = record {
  previous_output = none;
  switch_bin = none;
  carried = false;
  dry_run = c.env.dry_run;
  released = false;
  disarmed = false;
}

-- The record names a device that an earlier session did not put back.
abbrev pub carries_device : SessionState → Bool
carries_device s = is_some s.prev_audio_output && not s.guards.audio_restored

abbrev pub previous_device : Option String → Bool → String → String
previous_device (some pending) true reading = pending
previous_device _ _ reading = reading

abbrev pub armed_record : String → SessionState → SessionState
armed_record reading s = record s {
  prev_audio_output = some (previous_device s.prev_audio_output (carries_device s) reading);
}

abbrev pub armed_guard : StageCtx → String → String → SessionState → AudioGuard
armed_guard c bin reading s = record (inert_audio c) {
  previous_output = some (previous_device s.prev_audio_output (carries_device s) reading);
  switch_bin = some bin;
  carried = carries_device s;
}

abbrev pub armed_if : AudioGuard → Result (Unit {0}) → Result AudioGuard
armed_if g (ok u) = ok g
armed_if g (err x) = err x

-- The record is saved before the guard is armed, and the guard is armed before the switch.
unfoldable pub arm_reading :
    StageCtx → String → String → SessionState → M (Result AudioGuard × SessionState)
arm_reading c bin reading s = do
  r ← attempt (save c.env (armed_record reading s))
  pure (armed_if (armed_guard c bin reading s) r, armed_record reading s)

unfoldable pub arm_current :
    StageCtx → String → Result Captured → SessionState → M (Result AudioGuard × SessionState)
arm_current c bin (err x) s = pure (err x, s)
arm_current c bin (ok current) s = arm_reading c bin current.untailed s

unfoldable pub arm_listed :
    StageCtx
    → String
    → Result Captured
    → Result Captured
    → SessionState
    → M (Result AudioGuard × SessionState)
arm_listed c bin (err x) current s = pure (err x, s)
arm_listed c bin (ok listing) current s =
    if not (blackhole_listed listing.lines)
    then (do
      emit (Event.line warn Message.blackhole_not_present)
      pure (ok (record (inert_audio c) { switch_bin = some bin }), s))
    else arm_current c bin current s

unfoldable pub arm_by :
    StageCtx
    → AudioEligibility
    → Result Captured
    → Result Captured
    → SessionState
    → M (Result AudioGuard × SessionState)
arm_by c disabled listing current s = do
  emit (Event.line info Message.audio_disabled)
  pure (ok (inert_audio c), s)
arm_by c skip listing current s = pure (ok (inert_audio c), s)
arm_by c (probe bin) listing current s = arm_listed c bin listing current s

-- `AudioGuard::arm`: `listing` and `current` are what the two read-only calls answer.
unfoldable pub arm :
    StageCtx
    → LaunchFacts
    → Result Captured
    → Result Captured
    → SessionState
    → M (Result AudioGuard × SessionState)
arm c f listing current s =
    arm_by c (audio_eligibility f.no_audio f.protocol f.switch_bin) listing current s

-- The switch did not take: forget the device, but not one that this run inherited.
unfoldable pub forget_device :
    StageCtx → AudioGuard → SessionState → M (Result (Unit {0}) × AudioGuard × SessionState)
forget_device c g s = if g.carried then pure (ok tt, g, s) else (do
  r ← attempt (save c.env (record s { prev_audio_output = none }))
  pure (r, g, record s { prev_audio_output = none }))

unfoldable pub switched :
    StageCtx
    → String
    → AudioGuard
    → SessionState
    → Result Bool
    → M (Result (Unit {0}) × AudioGuard × SessionState)
switched c previous g s (err x) = pure (err x, g, s)
switched c previous g s (ok true) = do
  emit (Event.text (Message.audio_switched previous))
  attempt (run_child c.env Command.set_volume)
  pure (ok tt, g, s)
switched c previous g s (ok false) = do
  emit (Event.line warn Message.blackhole_switch_failed)
  forget_device c (record g { previous_output = none }) s

unfoldable pub apply_by :
    StageCtx
    → Option String
    → Option String
    → AudioGuard
    → SessionState
    → M (Result (Unit {0}) × AudioGuard × SessionState)
apply_by c (some previous) (some bin) g s = do
  r ← attempt (run_child c.env (Command.switch_output bin blackhole))
  switched c previous g s r
apply_by c _ _ g s = pure (ok tt, g, s)

-- `AudioGuard::apply_switch`
unfoldable pub apply_switch :
    StageCtx → AudioGuard → SessionState → M (Result (Unit {0}) × AudioGuard × SessionState)
apply_switch c g s = apply_by c g.previous_output g.switch_bin g s

-- The audio part of `guarded`: what the launch holds afterwards, with the record.
unfoldable pub route_armed :
    StageCtx
    → Result AudioGuard × SessionState
    → M (Result (Unit {0}) × Option AudioGuard × SessionState)
route_armed c (err x, s) = pure (err x, none, s)
route_armed c (ok g, s) = do r ← apply_switch c g s; pure (r.0, some r.1, r.2)

unfoldable pub route_audio :
    StageCtx
    → LaunchFacts
    → Result Captured
    → Result Captured
    → SessionState
    → M (Result (Unit {0}) × Option AudioGuard × SessionState)
route_audio c f listing current s = do armed ← arm c f listing current s; route_armed c armed
