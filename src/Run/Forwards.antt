-- ===== src/Run/Forwards.antt =====
-- stages/run/actions.rs: the stream forwards of a wired launch. The record is the caller's: each
-- operation returns it beside its result, whether it failed or not.
pub mod Ahead
pub mod Tracked
use wine_vr.Prelude.{
  ℕ, String, Text, codes, string_of, lines, fields, text_eq, Bool, true, false, not, ◌&&◌, ◌==◌,
  Option, none, some, List, [], ◌∷◌, ◌++◌, any, drop, retain, str_eq, if◌then◌else◌,
}
use wine_vr.Host.Error.{Message, SabrageError, Result, ok, err}
use wine_vr.Host.Record.{WiredForward, SessionState}
use wine_vr.Host.Effect.{pure, throw, attempt, ◌>>=◌, ◌>>◌}
use wine_vr.Host.World.{info, Command, Event, Env, M, emit, fatal, run_child}
use wine_vr.Session.State.{save}
use wine_vr.Fixes.Adb.{AdbFacts, remove_adb_forwards_at}

-- A row of `adb devices` in the state `device`.
unfoldable pub device_row : List Text → Option Text
device_row (serial ∷ state ∷ _) = if text_eq state (codes "device") then some serial else none
device_row _ = none

unfoldable pub first_device : List Text → Option Text
first_device [] = none
first_device (l ∷ rest) = elim (device_row (fields l)) [
  | none ↦ first_device rest
  | some serial ↦ some serial
]

-- The header is skipped.
unfoldable pub first_device_serial : Text → Option Text
first_device_serial stdout = first_device (drop 1 (lines stdout))

abbrev pub with_forward : String → ℕ → SessionState → SessionState
with_forward serial port s = record s {
  wired_forwards = s.wired_forwards ++ record { serial = serial; port = port } ∷ [];
}

-- `!(f.serial == serial && removed.contains(&f.port))`
abbrev pub stays : String → List ℕ → WiredForward → Bool
stays serial removed f = not (str_eq f.serial serial && any (λ p. p == f.port) removed)

abbrev pub without_removed : String → List ℕ → SessionState → SessionState
without_removed serial removed s = record s {
  wired_forwards = retain (stays serial removed) s.wired_forwards;
}

-- `matches!(…, Ok(status) if status.success())`
abbrev pub confirmed : Result Bool → Bool
confirmed (ok took) = took
confirmed (err x) = false

-- The ports whose removal was confirmed, after those already `removed`.
unfoldable pub remove_ports : Env → String → String → List ℕ → List ℕ → M (List ℕ)
remove_ports e adb serial removed [] = pure removed
remove_ports e adb serial removed (port ∷ rest) = do
  r ← attempt (run_child e (Command.forward_remove adb serial port))
  remove_ports e adb serial (if confirmed r then removed ++ port ∷ [] else removed) rest

-- What a fresh executor answers is what `e` answers at the later operations.
unfoldable pub rollback_forwards : Env → String → String → List ℕ → SessionState → M SessionState
rollback_forwards e adb serial ports s = do
  removed ← remove_ports e adb serial [] ports
  attempt (save e (without_removed serial removed s))
  pure (without_removed serial removed s)

abbrev pub Recorded : Type 0
Recorded = Result (Unit {0}) × SessionState

-- `die_with_cause`
unfoldable pub die_with_cause : SabrageError → Message → M SabrageError
die_with_cause cause m = do emit (Event.output cause); fatal m none

-- What a forward that was not made ends the launch with.
unfoldable pub forward_error : String → ℕ → Result Bool → M SabrageError
forward_error serial port (err SabrageError.cancelled) = pure SabrageError.cancelled
forward_error serial port (err x) = die_with_cause x (Message.wired_forward_failed port serial)
forward_error serial port (ok _) = fatal (Message.wired_forward_failed port serial) none

unfoldable pub forward_refused :
    Env → String → String → List ℕ → ℕ → SessionState → Result Bool → M Recorded
forward_refused e adb serial ports port s r = do
  s' ← rollback_forwards e adb serial ports s
  x ← forward_error serial port r
  pure (err x, s')

-- The end of one turn: the next one, or the rollback.
unfoldable pub forward_made :
    Env → String → String → List ℕ → ℕ → SessionState → M Recorded → Result Bool → M Recorded
forward_made e adb serial ports port s next r =
    if confirmed r then next else forward_refused e adb serial ports port s r

unfoldable pub forward_saved :
    Env → String → String → List ℕ → ℕ → SessionState → M Recorded → Result (Unit {0}) → M Recorded
forward_saved e adb serial ports port s next (err x) = do
  s' ← rollback_forwards e adb serial ports s
  pure (err x, s')
forward_saved e adb serial ports port s next (ok _) = do
  r ← attempt (run_child e (Command.forward_add adb serial port))
  forward_made e adb serial ports port s next r

-- The loop over the contract's ports: `ports` are all of them, the last list those to come.
unfoldable pub make_forwards : Env → String → String → List ℕ → List ℕ → SessionState → M Recorded
make_forwards e adb serial ports [] s = do
  emit (Event.line info (Message.wired_forwards_up ports serial))
  pure (ok tt, s)
make_forwards e adb serial ports (port ∷ rest) s = do
  r ← attempt (save e (with_forward serial port s))
  forward_saved e adb serial ports port (with_forward serial port s)
      (make_forwards e adb serial ports rest (with_forward serial port s)) r

-- `wired` is the option, `stdout` what `adb devices` answered, if it did, and `cancelled` the
-- launch's token after that.
pub record WiredFacts : Type 0 where
  pub wired : Bool
  pub adb : AdbFacts
  pub stdout : Option Text
  pub cancelled : Bool

abbrev pub failed_with : SessionState → M SabrageError → M Recorded
failed_with s m = do x ← m; pure (err x, s)

-- `probe_device_serial`
unfoldable pub probe_device_serial : Option Text → Option String
probe_device_serial none = none
probe_device_serial (some stdout) = elim (first_device_serial stdout) [
  | none ↦ none
  | some serial ↦ some (string_of serial)
]

unfoldable pub wired_on : Env → WiredFacts → String → Option String → SessionState → M Recorded
wired_on e f adb (some serial) s = make_forwards e adb serial f.adb.ports f.adb.ports s
wired_on e f adb none s =
    if f.cancelled
    then pure (err SabrageError.cancelled, s)
    else failed_with s (fatal Message.wired_no_quest none)

unfoldable pub wired_with : Env → WiredFacts → Option String → SessionState → M Recorded
wired_with e f (some adb) s = wired_on e f adb (probe_device_serial f.stdout) s
wired_with e f none s = failed_with s (fatal Message.wired_needs_adb none)

-- The forwards that an earlier wired launch left, cleared by a launch that is not wired.
unfoldable pub cleared_forwards : Env → AdbFacts → SessionState → M Recorded
cleared_forwards e f s = do
  r ← attempt (remove_adb_forwards_at e f)
  pure (elim r [ ok _ ↦ ok tt | err x ↦ err x ], s)

unfoldable pub adb_forward_hygiene : Env → WiredFacts → SessionState → M Recorded
adb_forward_hygiene e f s =
    if f.wired then wired_with e f f.adb.adb s else cleared_forwards e f.adb s
