-- ===== src/Tests/Recovery.antt =====
-- The recovery pass over the record of a killed session.
use wine_vr.Prelude.{◌≡◌, refl, true, false, none, some, [], ◌∷◌}
use wine_vr.Host.Process.{is_same_process}
use wine_vr.Host.Error.{Message, ok}
use wine_vr.Host.Record.{SessionState, is_supported_version, has_pending_guards}
use wine_vr.Host.Effect.{◌>>=◌}
use wine_vr.Host.World.{load, emit, file_op, run_child, real_file, real_child}
use wine_vr.Session.State.{refuse_save, write_record, save, clear_run}
use wine_vr.Session.State.Safety.{LogAllowed}
use wine_vr.Session.Reconcile.Classify.{full, classify, restore_mode, signalable}
use wine_vr.Session.Reconcile.Restore.{
  Progress, restore_audio, restore_recorded, restore_probed, switch_back, report, show_banner,
  finish_audio, save_progress, restore_dashboard, restore_recorded_dashboard, close_dashboard,
}
use wine_vr.Session.Reconcile.Forwards.{
  restore_with, restore_forwards, restore_forwards_by, remove_forwards, remove_forward,
  finish_record, restore_complete, restore_and_finish,
}
use wine_vr.Session.Reconcile.Pass.{reconcile_with, finish_stopped_session_with}
use wine_vr.Session.Reconcile.Guarded.{Continues}
use wine_vr.Session.Reconcile.Entry.{scope_of, reconcile_with-LogAllowed, finish_stopped-LogAllowed}
use wine_vr.Session.Reconcile.HandsOff.{supervised, Untouched, reconcile_with-Untouched}
use wine_vr.Session.Reconcile.Ending.{Left, restore_and_finish-Left}
use wine_vr.Tests.Fixtures.{left_over, ctx, env, start, probe}

reconcile_with-LogAllowed_example :
    LogAllowed env left_over.run_id
      (scope_of (restore_mode (classify env.os left_over)) left_over)
      (Continues left_over)
      (reconcile_with ctx none none probe start).1
reconcile_with-LogAllowed_example =
    reconcile_with-LogAllowed ctx probe left_over none none start refl refl

finish_stopped-LogAllowed_example :
    LogAllowed env left_over.run_id
      (scope_of (restore_mode (classify env.os left_over)) left_over)
      (Continues left_over)
      (finish_stopped_session_with ctx none none probe start).1
finish_stopped-LogAllowed_example =
    finish_stopped-LogAllowed ctx probe left_over none none start refl refl

-- This process still supervises the run, so the record is left alone.
reconcile_with-Untouched_example :
    Untouched left_over (reconcile_with ctx (some 3) none probe start).1
reconcile_with-Untouched_example =
    reconcile_with-Untouched ctx probe left_over (some 3) none start refl refl (supervised refl)

-- What the pass leaves: the forward whose removal failed is still recorded.
abbrev remaining : SessionState
remaining = record left_over {
  wired_forwards = record { serial = "Q3"; port = 9944 } ∷ [];
  guards = record { audio_restored = true; dashboard_closed = true; forwards_cleared = false };
}

abbrev progress : Progress
progress = record {
  state = remaining;
  shown = true;
  restored =
      Message.audio_row false "AirPods"
      ∷ Message.dashboard_row false
      ∷ Message.forward_row false 9943 "Q3"
      ∷ [];
}

pass_returns : (restore_and_finish ctx left_over full probe start).0 ≡ ok (true, progress)
unfolding restore_and_finish restore_with restore_audio restore_recorded restore_probed switch_back
    report show_banner finish_audio save_progress restore_dashboard restore_recorded_dashboard
    close_dashboard restore_forwards restore_forwards_by remove_forwards remove_forward
    finish_record restore_complete save refuse_save write_record clear_run load emit file_op
    real_file run_child real_child signalable is_same_process has_pending_guards
    is_supported_version ◌>>=◌
pass_returns = refl

restore_and_finish-Left_example :
    Left full true remaining (restore_and_finish ctx left_over full probe start).1.disk
restore_and_finish-Left_example =
    restore_and_finish-Left ctx refl full left_over probe start pass_returns
