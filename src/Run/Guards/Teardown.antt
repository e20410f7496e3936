-- ===== src/Run/Guards/Teardown.antt =====
-- stages/run/guards.rs and mod.rs: how the guards come off, and the dashboard's guard.
use wine_vr.Prelude.{
  String, Bool, true, false, not, Option, none, some, List, str_eq, ◌||◌, if◌then◌else◌,
}
use wine_vr.Host.Process.{ProcInfo, is_same_process}
use wine_vr.Host.Error.{Message, SabrageError, Result, ok, err}
use wine_vr.Host.Record.{SessionState}
use wine_vr.Host.Effect.{pure, throw, attempt, ◌>>=◌, ◌>>◌}
use wine_vr.Host.World.{
  info, warn, Command, Event, World, M, emit, run_child, real_child, spawn_detached,
}
use wine_vr.Session.State.{save}
use wine_vr.Session.Audio.{fallback_output_device}
use wine_vr.Session.Reconcile.Restore.{StageCtx}
use wine_vr.Run.Guards.{LaunchFacts, AudioGuard}

-- `switch_output` of the teardown: only a cancellation passes.
unfoldable pub switch_answer : Result Bool → M Bool
switch_answer (ok took) = pure took
switch_answer (err SabrageError.cancelled) = throw SabrageError.cancelled
switch_answer (err _) = pure false

unfoldable pub switch_output : StageCtx → String → String → M Bool
switch_output c bin device = do
  r ← attempt (run_child c.env (Command.switch_output bin device))
  switch_answer r

abbrev pub unrestorable : String → M Bool
unrestorable previous = do
  emit (Event.line warn (Message.audio_unrestorable_line previous))
  pure false

unfoldable pub restore_alternative : StageCtx → String → String → Option String → M Bool
restore_alternative c bin previous none = unrestorable previous
restore_alternative c bin previous (some alt) = do
  took ← switch_output c bin alt
  if took
      then (do
        emit (Event.line warn (Message.audio_fallback_line c.env.dry_run previous alt))
        pure true)
      else unrestorable previous

-- `restore_output`: `outputs` is what `list_output_devices` answers.
unfoldable pub restore_output : StageCtx → String → String → List String → M Bool
restore_output c bin previous outputs = do
  took ← switch_output c bin previous
  if took
      then (do emit (Event.text (Message.audio_restored_text previous)); pure true)
      else restore_alternative c bin previous (fallback_output_device outputs)

abbrev pub with_audio_restored : Bool → SessionState → SessionState
with_audio_restored b s = record s { guards = record s.guards { audio_restored = b } }

unfoldable pub finish_release :
    StageCtx → SessionState → Result Bool → M (Result (Unit {0}) × SessionState)
finish_release c s (err x) = pure (err x, s)
finish_release c s (ok restored) = do
  r ← attempt (save c.env (with_audio_restored restored s))
  pure (r, with_audio_restored restored s)

-- With no binary, nothing was ever switched.
unfoldable pub release_from :
    StageCtx
    → Option String
    → String
    → List String
    → SessionState
    → M (Result (Unit {0}) × SessionState)
release_from c none previous outputs s = finish_release c s (ok true)
release_from c (some bin) previous outputs s = do
  r ← attempt (restore_output c bin previous outputs)
  finish_release c s r

unfoldable pub release_held :
    StageCtx
    → Option String
    → Option String
    → List String
    → SessionState
    → M (Result (Unit {0}) × SessionState)
release_held c none bin outputs s = pure (ok tt, s)
release_held c (some previous) bin outputs s = release_from c bin previous outputs s

-- `AudioGuard::release`
unfoldable pub release_audio :
    StageCtx → AudioGuard → List String → SessionState → M (Result (Unit {0}) × SessionState)
release_audio c g outputs s = release_held c g.previous_output g.switch_bin outputs s

unfoldable pub drop_held : StageCtx → Option String → Option String → M (Unit {0})
drop_held c (some previous) (some bin) = do
  r ← attempt (real_child c.env (Command.switch_output bin previous))
  elim r [ ok true ↦ emit (Event.text (Message.audio_restored_text previous)) | _ ↦ pure tt ]
drop_held c _ _ = pure tt

-- `AudioGuard::drop`: it goes around the executor.
unfoldable pub drop_audio : StageCtx → AudioGuard → M (Unit {0})
drop_audio c g =
    if g.released || g.disarmed || g.dry_run
    then pure tt
    else drop_held c g.previous_output g.switch_bin

pub data DashboardEligibility : Type 0 where
  disabled skip not_built spawn : DashboardEligibility

unfoldable pub dashboard_eligibility : Bool → String → Bool → DashboardEligibility
dashboard_eligibility no_dashboard protocol executable =
    if no_dashboard
    then DashboardEligibility.disabled
    else if not (str_eq protocol "alvr")
    then DashboardEligibility.skip
    else if executable
    then spawn
    else not_built

-- The identity that a `DashboardGuard` keeps, beside the record.
unfoldable pub record_dashboard :
    StageCtx → SessionState → Result (Option ProcInfo) → M (Result (Option ProcInfo) × SessionState)
record_dashboard c s (err x) = pure (err x, s)
record_dashboard c s (ok none) = do emit (Event.text Message.dashboard_opening); pure (ok none, s)
record_dashboard c s (ok (some id)) = do
  r ← attempt (save c.env (record s { dashboard = some id }))
  elim r [
    | err x ↦ pure (err x, record s { dashboard = some id })
    | ok u ↦ do
      emit (Event.text Message.dashboard_opening)
      pure (ok (some id), record s { dashboard = some id })
  ]

unfoldable pub acquire_by :
    StageCtx
    → String
    → DashboardEligibility
    → Result ProcInfo
    → SessionState
    → M (Result (Option ProcInfo) × SessionState)
acquire_by c bin DashboardEligibility.disabled answer s = do
  emit (Event.line info Message.dashboard_disabled)
  pure (ok none, s)
acquire_by c bin DashboardEligibility.skip answer s = pure (ok none, s)
acquire_by c bin not_built answer s = do
  emit (Event.line warn Message.dashboard_not_built)
  pure (ok none, s)
acquire_by c bin spawn answer s = do
  r ← attempt (spawn_detached c.env answer (Command.open_dashboard bin))
  record_dashboard c s r

-- `DashboardGuard::acquire`: `answer` is what the spawn answers.
unfoldable pub acquire_dashboard :
    StageCtx
    → LaunchFacts
    → Result ProcInfo
    → SessionState
    → M (Result (Option ProcInfo) × SessionState)
acquire_dashboard c f answer s =
    acquire_by c f.dashboard_bin
      (dashboard_eligibility f.no_dashboard f.protocol f.dashboard_executable) answer s

abbrev pub with_dashboard_closed : SessionState → SessionState
with_dashboard_closed s = record s { guards = record s.guards { dashboard_closed = true } }

unfoldable pub close_by_identity : StageCtx → ProcInfo → M (Unit {0})
close_by_identity c id =
    if is_same_process c.env.os id
    then (do
      closed ← run_child c.env (Command.kill_term id.pid)
      if closed then emit (Event.text Message.dashboard_closed_text) else pure tt)
    else pure tt

unfoldable pub finish_close :
    StageCtx → SessionState → Result (Unit {0}) → M (Result (Unit {0}) × SessionState)
finish_close c s (err x) = pure (err x, s)
finish_close c s (ok u) = do
  r ← attempt (save c.env (with_dashboard_closed s))
  pure (r, with_dashboard_closed s)

-- `DashboardGuard::release`
unfoldable pub release_dashboard :
    StageCtx → Option ProcInfo → SessionState → M (Result (Unit {0}) × SessionState)
release_dashboard c none s = pure (ok tt, s)
release_dashboard c (some id) s = do r ← attempt (close_by_identity c id); finish_close c s r

abbrev pub first_failure : Result (Unit {0}) → Result (Unit {0}) → Result (Unit {0})
first_failure (err x) _ = err x
first_failure (ok u) r = r

unfoldable pub release_optional :
    StageCtx → Option AudioGuard → List String → SessionState → M (Result (Unit {0}) × SessionState)
release_optional c none outputs s = pure (ok tt, s)
release_optional c (some g) outputs s = release_audio c g outputs s

-- `Guards::release`: the dashboard, the helper, the audio, each whatever came of those before it.
-- `reap_helper` is what the reaping of the helper does.
unfoldable pub release_guards :
    StageCtx
    → (World → World)
    → Option AudioGuard
    → Option ProcInfo
    → List String
    → SessionState
    → M (Result (Unit {0}) × SessionState)
release_guards c reap_helper audio dashboard outputs s = do
  d ← release_dashboard c dashboard s
  (λ w. (ok tt, reap_helper w))
  a ← release_optional c audio outputs d.1
  pure (first_failure d.0 a.0, a.1)
