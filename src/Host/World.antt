-- ===== src/Host/World.antt =====
-- executor.rs over the one file that the session layer shares between processes: the state that a
-- pass reads and changes, what the machine answers, and the executor's operations in both modes.
pub mod Logs
use wine_vr.Prelude.{
  ℕ, zero, suc, String, Text, Bool, true, false, Option, none, some, List, [], ◌∷◌, if◌then◌else◌,
}
use wine_vr.Host.Effect.{Eff, pure, ◌>>=◌, ◌>>◌}
use wine_vr.Host.Process.{Os}
use wine_vr.Host.Error.{Message, SabrageError, Result, ok, err}
use wine_vr.Host.Record.{SessionState}

-- What `state::load` makes of `session-state.json`: no file, one that cannot be read or parsed, or
-- a record.
pub data Disk : Type 0 where
  absent : Disk
  unreadable : Disk
  holds : SessionState → Disk

pub data Severity : Type 0 where
  info okay warn fail : Severity

-- The children that the session layer runs, each with its arguments.
pub data Command : Type 0 where
  -- SwitchAudioSource -t output -s <device>
  switch_output : String → String → Command
  -- osascript -e "set volume output volume 100"
  set_volume : Command
  -- /bin/kill -TERM <pid>
  kill_term : ℕ → Command
  -- adb -s <serial> forward --remove tcp:<port>
  forward_remove : String → String → ℕ → Command
  -- adb -s <serial> forward tcp:<port> tcp:<port>
  forward_add : String → String → ℕ → Command
  -- adb -s <serial> forward --remove <local>
  forward_clear : String → String → Text → Command
  -- adb -s <serial> reverse --remove-all
  reverse_clear : String → String → Command
  -- the dashboard's binary, detached
  open_dashboard : String → Command

pub data Action : Type 0 where
  make_dir : Action
  write_record : SessionState → Action
  remove_record : Action
  run : Command → Action

-- `did a d`: the machine was asked to do `a` when the file was `d`. `planned a`: a dry run noted it.
pub data Event : Type 0 where
  did : Action → Disk → Event
  planned : Action → Event
  line : Severity → Message → Event
  text : Message → Event
  -- a child's standard error, or an error in its place
  output : SabrageError → Event
  -- `StageEvent::Fatal`
  fatal_row : Message → Option String → Event
  section : Event

-- The answer to a file operation: done, refused with no effect, or reported as failed after it took
-- effect (the directory could not be synced after the rename).
pub data FileAnswer : Type 0 where
  done : FileAnswer
  refused : SabrageError → FileAnswer
  done_late : SabrageError → FileAnswer

-- The answer to a child: it exited, with success or not, or it could not be run or was cancelled.
pub data ChildAnswer : Type 0 where
  exited : Bool → ChildAnswer
  broken : SabrageError → ChildAnswer

-- All that the machine may do, as functions of the number of operations so far: its answers, and
-- `others`, what other processes did to the record before it is read or a child runs.
pub record Env : Type 0 where
  pub os : Os
  pub dry_run : Bool
  pub file : ℕ → Action → FileAnswer
  pub child : ℕ → Command → ChildAnswer
  pub others : ℕ → Disk → Disk

pub record World : Type 0 where
  pub disk : Disk
  pub tick : ℕ
  -- newest first
  pub log : List Event

abbrev pub M : Type 0 → Type 0
M = Eff World

unfoldable pub emit : Event → M (Unit {0})
emit ev w = (ok tt, record w { log = ev ∷ w.log })

-- `StageCtx::fatal`: the row is shown, and the error is the caller's to return.
unfoldable pub fatal : Message → Option String → M SabrageError
unfolding emit
fatal m remedy = do emit (Event.fatal_row m remedy); pure (SabrageError.fatal m remedy)

-- Another process acts, then the file is read.
unfoldable pub load : Env → M Disk
load e w = let d = e.others w.tick w.disk in (ok d, record w { disk = d; tick = suc w.tick })

-- The file after an action that took effect.
abbrev pub effect : Action → Disk → Disk
effect (write_record s) d = holds s
effect remove_record d = absent
effect _ d = d

abbrev pub answer_of : FileAnswer → Result (Unit {0})
answer_of done = ok tt
answer_of (refused x) = err x
answer_of (done_late x) = err x

abbrev pub disk_after : FileAnswer → Action → Disk → Disk
disk_after (refused x) a d = d
disk_after _ a d = effect a d

-- `create_dir_all`, `write_atomic` and `remove_file` of `RealExecutor`.
unfoldable pub real_file : Env → Action → M (Unit {0})
real_file e a w =
    let ans = e.file w.tick a in
    (
      answer_of ans,
      record { disk = disk_after ans a w.disk; tick = suc w.tick; log = did a w.disk ∷ w.log },
    )

-- The same operations of `DryRunExecutor`: the action is noted and nothing happens.
unfoldable pub plan_file : Action → M (Unit {0})
plan_file a w = (ok tt, record w { log = planned a ∷ w.log })

unfoldable pub file_op : Env → Action → M (Unit {0})
file_op e a = if e.dry_run then plan_file a else real_file e a

abbrev pub exit_of : ChildAnswer → Result Bool
exit_of (exited s) = ok s
exit_of (broken x) = err x

-- Other processes act, then the child runs.
unfoldable pub real_child : Env → Command → M Bool
real_child e c w =
    let d = e.others w.tick w.disk in
    (
      exit_of (e.child w.tick c),
      record { disk = d; tick = suc w.tick; log = did (run c) d ∷ w.log },
    )

-- A dry run reports success for every child.
unfoldable pub plan_child : Command → M Bool
plan_child c w = (ok true, record w { log = planned (run c) ∷ w.log })

-- `run_child(spec).await?.success()`
unfoldable pub run_child : Env → Command → M Bool
run_child e c = if e.dry_run then plan_child c else real_child e c

abbrev pub found : {A : Type 0} → Result A → Result (Option A)
found (ok a) = ok (some a)
found (err x) = err x

unfoldable pub real_spawn : {A : Type 0} → Env → Result A → Command → M (Option A)
real_spawn e answer c w =
    let d = e.others w.tick w.disk in
    (found answer, record { disk = d; tick = suc w.tick; log = did (run c) d ∷ w.log })

unfoldable pub plan_spawn : {A : Type 0} → Command → M (Option A)
plan_spawn c w = (ok none, record w { log = planned (run c) ∷ w.log })

-- `spawn_detached`, with the child that the machine answers; a dry run spawns nothing.
unfoldable pub spawn_detached : {A : Type 0} → Env → Result A → Command → M (Option A)
spawn_detached e answer c = if e.dry_run then plan_spawn c else real_spawn e answer c
