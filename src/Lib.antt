-- ===== src/Lib.antt =====
-- Sabrage launches a Windows VR game under wine on macOS and streams it to a headset. Its core is
-- the Rust crate sabrage/crates/sabrage-core. A launch changes the machine for as long as the game
-- runs: it reroutes the audio output, opens a dashboard and adds adb forwards. What it changed is in
-- one file, session-state.json, which several Sabrage processes share, so that a later `run` or
-- `stop` puts the machine back after a crash. This development models that session layer, the actions
-- of a launch on adb, on the game's files and on the log of the game, the editor of the runtime's
-- configuration file, the tailing of the logs that the front ends show, the doctor's registry and
-- walk, and what the desktop shell (sabrage/src-tauri) does around a live session.
--
-- Which file models what (paths from sabrage/crates/sabrage-core/src):
--   Prelude           Boolean tests on the native numbers, lists, options, strings and texts as lists
--                     of code points
--   Host.Effect       the state and error monad of operations that may fail; Host.Effect.Rules are its
--                     proof rules (Triple, Keeps)
--   Host.Process      process.rs: ProcInfo and its identity test
--   Host.Splitter     process.rs: ChunkSplitter; the proofs are in Lossless and Plain
--   Host.Phase        session/mod.rs: SessionPhase, RunPhaseInfo
--   Host.Error        error.rs: SabrageError, exit codes; the texts of all files as Message
--   Host.Record       session/state.rs: SessionState with its owner and version tests
--   Host.World        executor.rs: RealExecutor and DryRunExecutor over the shared session file
--   Host.Files        executor.rs: copies and writes over the files of a game directory, and cmp_files of
--                     util/mod.rs; Keeps has the proof rules
--   Session.State     session/state.rs: save, mark_detached, clear, clear_run
--   Session.Audio     session/mod.rs: fallback_output_device; the proof is in Choice
--   Session.Reconcile session/reconcile.rs: Classify (what the recorded process is now, whose the
--                     record is), Restore (audio, dashboard), Forwards (adb forwards and what becomes
--                     of the record), Pass (reconcile and the tail of stop); the proofs are in
--                     Guarded, Safety, Entry, Ending and HandsOff; Detach has detach
--   Session.Status    session/mod.rs: the slots LIVE_SESSION and RUN_PHASE, SessionStatus, stop_plan
--   Session.Doors     session/mod.rs: session_block_at, ensure_idle
--   Session.Watcher   session/watcher.rs: SessionMonitor and its snapshot; the proofs are in
--                     Agreement, Memory, Encoder, Stall and Stopping
--   Run.Guards        stages/run/guards.rs and the part of stages/run/mod.rs that uses them: the audio
--                     guard; Teardown has the release and the dashboard guard; the proofs are in
--                     WriteAhead, Carried and Attempted
--   Run.Carry         stages/run/mod.rs: carry_forward, dedup_forwards and the refusal of a launch, with
--                     Distinct and Inherited for the proofs
--   Fixes.Adb         fixes/adb.rs: the removal of stale adb forwards, with Only for its proof
--   Run.Forwards      stages/run/actions.rs: adb_forward_hygiene and rollback_forwards; the proofs are in
--                     Ahead, Tracked and Tracked.Loop
--   Run.Goldberg      stages/run/actions.rs: goldberg_stage, which keeps the game's own Steam dll beside
--                     Goldberg's; the proofs are in Original and Original.Stage
--   Run.Launch        stages/run/actions.rs: wine_env, pick_log_path and launch_wine, with Shown for the
--                     proof
--   Store.Goldberg    store/goldberg.rs: the revert of that dll; the proofs are in Restored and Restores
--   Store.Settings    store/settings.rs: the defaults of a launch
--   Store.Library     store/library.rs: the games, their edits, the transactions on library.json;
--                     the proofs are in Lookup, Unique and Transaction
--   Store.Validity    store/library.rs: validate_pinned, with Ready for its proof
--   Config            config/runtime_toml.rs, the editor of oxrsys-runtime.toml. Value: the keys, the
--                     spellings, stoi, the prefix of stof, unquote. Setting: read_raw, from_patch,
--                     out_of_range, apply, validate; the proofs are in Accepted and Spelling. Reader:
--                     strip_comment, raw_assignments, read_lines_like_the_runtime, effective_accepted;
--                     the proofs are in Effective and Bounds. Shape: ByteShape, with RoundTrip. Patch:
--                     apply_patch, with Checked. Backups: next_backup_path and list_backups, with
--                     Free. Site: the file and its backups among other processes, and the executors'
--                     operations on them. Write: write and its steps; the proofs are in Log (what may
--                     be done), Steps, Reserve, Safe and Outcome, Keeps and Dry, and Settled. View: what
--                     the settings screen is shown
--   Logs              logs.rs. Tailer: the cursor, update_signature, drain_capped; the proofs are in
--                     Signature and Queue. Poll: poll, with Grown, Fifo and Enough. Start: open,
--                     read_signature, the names and the listing of past runs; Continuity has the proof
--   Doctor.Registry   checks/mod.rs: build_registry and its lookups, with Bound for the proof
--   Doctor.Report     checks/mod.rs: the walk of the doctor, and the summary that
--                     src-tauri/src/commands.rs keeps of it; Counts has the proof
--   Privilege         privilege.rs: the quoting of the elevated install; Reading has the proof
--   Shell             sabrage/src-tauri/src/commands.rs and lib.rs. Stop: stop_session and its wait, with
--                     Honest. Quit: the requests to quit and their answers; the proofs are in Told and
--                     Quittable. Runs: RunRegistry, with Fired. Tails: TailRegistry, with Tracked.
--                     Options: the options of a launch, with Precedence
--   Tests             runs at concrete inputs
--
-- How the code corresponds to the model:
--   A run id is a number, and so is a pid, a time and an exit code. A text built by format! is a
--   constructor of Message with the arguments as fields. Code in `if let` and `match` chains is a
--   function by clauses per step, named for the step.
--   World holds what session-state.json contains and the log of what was asked of the machine. Env
--   holds every answer of the machine, as a function of the number of operations so far: file
--   operations may fail before or after they took effect, children may fail or not run, and `others`
--   is what other processes did to the file before it is read or a child runs. Theorems hold for
--   every Env.
--   The lock that lock_record takes is atomicity: between the load of one operation and its write no
--   other process acts. The source waits for the lock for two seconds and then goes on without it;
--   that fall-through is not modelled. The process table is the same throughout one pass.
--   A record and a status file are given as parsed: serde, the lines of a poll of the monitor and
--   the parsers of these lines are inputs.
--   Functions are structurally recursive, three loops on fuel. reserve_backup_path has no bound in the
--   source: Settled shows that it ends once the other processes are done, and a run out of fuel is a
--   task that is cancelled. The names that next_backup_path tries are one more than there are
--   backups, which Free shows to be enough; the source tries all of u32. Enough shows that a poll
--   makes no more reads than its budget has bytes. The wait of a detach counts the polls
--   that the deadline allows, and ends after them. The audio probe of a pass is an
--   argument, as it is in the source.
--
--   The guards of a launch change the caller's record and may then fail: each operation returns its
--   result beside the record.
--
--   A text of the configuration and a line of a log is a list of code points or bytes. An i64 is its
--   sign and magnitude, with the bounds of its parse. f64 is a parameter (Floats): parsing, printing,
--   the passage through f32 and the comparison. toml_edit's document is a parameter (Documents), with
--   the edits that the code makes through its tables as operations on it; what the theorems say of
--   a patched text is what that document renders as. The look of next_backup_path at each name is
--   one look at the directory. In a poll, Answers holds what the file system answers at each step.
--
--   The files of a game directory are changed by no other process while a launch or a revert looks at
--   them; both hold the operation lock. A name there is a regular file with its bytes and mode, or
--   something else, or nothing. SHA-256 is a parameter, and so is to_string_lossy, which
--   gives back a path that is UTF-8. The rows of adb and the names in the logs'
--   directory are as adb and the file system answer. launch_wine makes at most LOG_NAME_ATTEMPTS
--   spawns, which is its fuel; Shown proves that it does not run out. A child that exits before its pid
--   is known is not modelled. The wait of stop_session is on fuel too: with sleeps of 100 ms its 30 s are
--   over within 301 looks, which Honest shows. A hash map of the shell is the list of its keys. What
--   the windows and the menu of the desktop do is an event of Quit; an answer to its dialog
--   and the end of that answer's wait are two events, between which anything may happen. Reading reads what do_shell_script
--   builds by the rules of an AppleScript text and of /bin/sh for words, quotes and backslashes.
--
-- Not modelled: the walk over toml_edit's tables and the edit of one, edit_protocol, the preflight, the
-- supervision and the banner of a run, the other stages, the single checks of the doctor, the fixes
-- other than that of adb, the elevated write itself, and the command line. They start children, probe
-- or print, around what is modelled here.
mod Prelude
pub mod Host
pub mod Privilege
pub mod Doctor
pub mod Fixes
pub mod Session
pub mod Run
pub mod Store
pub mod Config
pub mod Logs
pub mod Shell
mod Tests
