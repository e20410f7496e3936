-- ===== src/Session/Reconcile/Restore.antt =====
-- session/reconcile.rs: the restore pass, guard by guard, each followed by its own save.
use wine_vr.Prelude.{
  String, Bool, true, not, Option, none, some, List, [], ◌∷◌, ◌++◌, retain, str_eq, if◌then◌else◌,
}
use wine_vr.Host.Process.{ProcInfo}
use wine_vr.Host.Error.{Message, SabrageError, Result, ok, err}
use wine_vr.Host.Record.{SessionState}
use wine_vr.Host.Effect.{pure, throw, ◌>>=◌, ◌>>◌}
use wine_vr.Host.World.{Severity, okay, warn, Command, Event, Env, M, emit, run_child}
use wine_vr.Session.State.{save}
use wine_vr.Session.Audio.{fallback_output_device}
use wine_vr.Session.Reconcile.Classify.{signalable}

abbrev pub blackhole : String
blackhole = "BlackHole 2ch"

-- The parts of `StageCtx` that the pass reads: the machine, the stage's bottle and the adb binary.
pub record StageCtx : Type 0 where
  pub env : Env
  pub bottle_name : Option String
  pub adb : Option String

pub record AudioProbe : Type 0 where
  pub bin : String
  pub current : String
  pub outputs : List String

-- One child's captured output: its text trimmed, its text less the trailing newlines, and its lines.
pub record Captured : Type 0 where
  pub success : Bool
  pub trimmed : String
  pub untailed : String
  pub lines : List String

-- `probe_capture`: only a cancellation passes.
unfoldable pub probe_capture : Result Captured → Result (Option Captured)
probe_capture (ok c) = ok (some c)
probe_capture (err SabrageError.cancelled) = err SabrageError.cancelled
probe_capture (err _) = ok none

unfoldable pub output_device_names : List String → List String
output_device_names lines = retain (λ l. not (str_eq l "")) lines

abbrev pub listed : Option Captured → List String
listed none = []
listed (some l) = if l.success then output_device_names l.lines else []

abbrev pub probed : String → Option Captured → Option Captured → Option AudioProbe
probed bin none listing = none
probed bin (some c) listing =
    if c.success
    then some (record { bin = bin; current = c.trimmed; outputs = listed listing })
    else none

abbrev pub both_probed :
    String → Result (Option Captured) → Result (Option Captured) → Result (Option AudioProbe)
both_probed bin (err x) _ = err x
both_probed bin (ok c) (err x) = err x
both_probed bin (ok c) (ok l) = ok (probed bin c l)

-- `current_output_device`: the binary that was found, and what its two read-only calls answered.
unfoldable pub current_output_device :
    Option String → Result Captured → Result Captured → Result (Option AudioProbe)
unfolding probe_capture output_device_names
current_output_device none current listing = ok none
current_output_device (some bin) current listing =
    both_probed bin (probe_capture current) (probe_capture listing)

-- The pass's own state: the record, whether the banner was shown, and the rows of what was restored.
pub record Progress : Type 0 where
  pub state : SessionState
  pub shown : Bool
  pub restored : List Message

abbrev pub with_state : Progress → SessionState → Progress
with_state p s = record p { state = s }

-- `Banner::show`
unfoldable pub show_banner : Progress → M Progress
show_banner p =
    if p.shown then pure p else (do emit Event.section; pure (record p { shown = true }))

-- `banner.show()`, the row, and `restored.push(line)`.
unfoldable pub report : Severity → Message → Progress → M Progress
report sev text p = do
  p' ← show_banner p
  emit (Event.line sev text)
  pure (record p' { restored = p'.restored ++ text ∷ [] })

unfoldable pub save_progress : StageCtx → SessionState → Progress → M Progress
save_progress c s p = do save c.env s; pure (with_state p s)

abbrev pub audio_flagged : SessionState → SessionState
audio_flagged s = record s { guards = record s.guards { audio_restored = true } }

abbrev pub dashboard_flagged : SessionState → SessionState
dashboard_flagged s = record s { guards = record s.guards { dashboard_closed = true } }

unfoldable pub finish_audio : StageCtx → Progress → M Progress
finish_audio c p = save_progress c (audio_flagged p.state) p

unfoldable pub give_up_audio : String → Progress → M Progress
give_up_audio prev p = do emit (Event.line warn (Message.audio_unrestorable_line prev)); pure p

-- The recorded device would not take: another one, or the row that says how to fix it by hand.
unfoldable pub restore_fallback : StageCtx → String → String → Option String → Progress → M Progress
restore_fallback c bin prev none p = give_up_audio prev p
restore_fallback c bin prev (some alt) p = do
  took ← run_child c.env (Command.switch_output bin alt)
  if took
      then (do
        p' ← report warn (Message.audio_fallback_row c.env.dry_run prev alt) p
        finish_audio c p')
      else give_up_audio prev p

unfoldable pub switch_back : StageCtx → AudioProbe → String → Progress → M Progress
switch_back c pr prev p = do
  took ← run_child c.env (Command.switch_output pr.bin prev)
  if took
      then (do p' ← report okay (Message.audio_row c.env.dry_run prev) p; finish_audio c p')
      else restore_fallback c pr.bin prev (fallback_output_device pr.outputs) p

unfoldable pub restore_probed :
    StageCtx → Result (Option AudioProbe) → String → Progress → M Progress
restore_probed c (err x) prev p = throw x
restore_probed c (ok none) prev p = pure p
restore_probed c (ok (some pr)) prev p =
    if not (str_eq pr.current blackhole) then finish_audio c p else switch_back c pr prev p

unfoldable pub restore_recorded :
    StageCtx → Result (Option AudioProbe) → Option String → Progress → M Progress
restore_recorded c probe none p = pure p
restore_recorded c probe (some prev) p =
    if p.state.guards.audio_restored then pure p else restore_probed c probe prev p

unfoldable pub restore_audio : StageCtx → Result (Option AudioProbe) → Progress → M Progress
restore_audio c probe p = restore_recorded c probe p.state.prev_audio_output p

abbrev pub flag_dashboard : StageCtx → Progress → M Progress
flag_dashboard c p = save_progress c (dashboard_flagged p.state) p

unfoldable pub close_dashboard : StageCtx → ProcInfo → Progress → M Progress
close_dashboard c id p =
    if signalable c.env.os id
    then (do
      closed ← run_child c.env (Command.kill_term id.pid)
      if closed
          then (do p' ← report okay (Message.dashboard_row c.env.dry_run) p; flag_dashboard c p')
          else flag_dashboard c p)
    else flag_dashboard c p

unfoldable pub restore_recorded_dashboard : StageCtx → Option ProcInfo → Progress → M Progress
restore_recorded_dashboard c none p = pure p
restore_recorded_dashboard c (some id) p =
    if p.state.guards.dashboard_closed then pure p else close_dashboard c id p

unfoldable pub restore_dashboard : StageCtx → Progress → M Progress
restore_dashboard c p = restore_recorded_dashboard c p.state.dashboard p
