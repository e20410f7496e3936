-- ===== src/Session/Reconcile/Forwards.antt =====
-- session/reconcile.rs: the forwards of a wired session, and the end of the restore pass.
use wine_vr.Prelude.{
  String, Bool, true, false, not, ◌&&◌, ◌||◌, Option, none, some, List, [], ◌∷◌, ◌++◌, is_some,
  is_empty, retain, if◌then◌else◌,
}
use wine_vr.Host.Error.{Message, Result}
use wine_vr.Host.Record.{WiredForward, forward_eq, SessionState, has_pending_guards}
use wine_vr.Host.Effect.{pure, ◌>>=◌, ◌>>◌}
use wine_vr.Host.World.{info, Command, Event, M, emit, run_child}
use wine_vr.Session.State.{save, clear_run}
use wine_vr.Session.Reconcile.Classify.{RestoreMode, full, safe_only}
use wine_vr.Session.Reconcile.Restore.{
  StageCtx, AudioProbe, Progress, report, save_progress, restore_audio, restore_dashboard,
}

-- `state.wired_forwards.retain(|f| f != &fwd)`
abbrev pub without_forward : WiredForward → SessionState → SessionState
without_forward fwd s = record s {
  wired_forwards = retain (λ f. not (forward_eq f fwd)) s.wired_forwards;
}

-- One removal: its progress is saved before the row, and `false` means it is still installed.
unfoldable pub remove_forward : StageCtx → String → WiredForward → Progress → M (Bool × Progress)
remove_forward c adb fwd p = do
  removed ← run_child c.env (Command.forward_remove adb fwd.serial fwd.port)
  if removed
      then (do
        p1 ← save_progress c (without_forward fwd p.state) p
        p2 ← report info (Message.forward_row c.env.dry_run fwd.port fwd.serial) p1
        pure (true, p2))
      else pure (false, p)

-- The loop over the forwards that the record named: `still` collects those that stay.
unfoldable pub remove_forwards :
    StageCtx
    → String
    → List WiredForward
    → List WiredForward
    → Progress
    → M (List WiredForward × Progress)
remove_forwards c adb [] still p = pure (still, p)
remove_forwards c adb (fwd ∷ rest) still p = do
  r ← remove_forward c adb fwd p
  remove_forwards c adb rest (if r.0 then still else still ++ fwd ∷ []) r.1

abbrev pub forwards_left : List WiredForward → SessionState → SessionState
forwards_left still s = record s {
  wired_forwards = still;
  guards = record s.guards { forwards_cleared = is_empty still };
}

unfoldable pub restore_forwards_by : StageCtx → Option String → Progress → M Progress
restore_forwards_by c none p = pure p
restore_forwards_by c (some adb) p = do
  r ← remove_forwards c adb p.state.wired_forwards [] p
  save_progress c (forwards_left r.0 r.1.state) r.1

unfoldable pub restore_forwards : StageCtx → Progress → M Progress
restore_forwards c p =
    if is_empty p.state.wired_forwards || p.state.guards.forwards_cleared
    then pure p
    else restore_forwards_by c c.adb p

-- Only the full mode may signal a process.
abbrev pub dashboard_step : StageCtx → RestoreMode → Progress → M Progress
dashboard_step c full p = restore_dashboard c p
dashboard_step c safe_only p = pure p

unfoldable pub restore_with :
    StageCtx → SessionState → RestoreMode → Result (Option AudioProbe) → M Progress
restore_with c s mode probe = do
  p1 ← restore_audio c probe (record { state = s; shown = false; restored = [] })
  p2 ← dashboard_step c mode p1
  restore_forwards c p2

unfoldable pub restore_complete : SessionState → RestoreMode → Bool
restore_complete s full = not (has_pending_guards s)
restore_complete s safe_only =
    (not (is_some s.prev_audio_output) || s.guards.audio_restored)
    && (is_empty s.wired_forwards || s.guards.forwards_cleared)

-- `true` when the record was kept.
unfoldable pub finish_record : StageCtx → SessionState → RestoreMode → M Bool
finish_record c s mode =
    if restore_complete s mode
    then (do clear_run c.env s.run_id; pure false)
    else (do save c.env s; emit (Event.line info Message.record_kept); pure true)

unfoldable pub restore_and_finish :
    StageCtx → SessionState → RestoreMode → Result (Option AudioProbe) → M (Bool × Progress)
restore_and_finish c s mode probe = do
  p ← restore_with c s mode probe
  kept ← finish_record c p.state mode
  pure (kept, p)
