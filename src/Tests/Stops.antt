-- ===== src/Tests/Stops.antt =====
-- A stop during a launch over an old record, a detach, and the choice of another output.
use wine_vr.Prelude.{◌≡◌, refl, String, false, none, some, List, [], ◌∷◌, All}
use wine_vr.Host.Process.{is_same_process}
use wine_vr.Host.Phase.{SessionPhase, RunPhaseInfo}
use wine_vr.Host.World.{holds}
use wine_vr.Session.Status.{cancel_run, fire_live_token, stop_plan}
use wine_vr.Session.Doors.{Sources}
use wine_vr.Session.Audio.{is_built_in_output, is_virtual_output, fallback_output_device}
use wine_vr.Session.Reconcile.Classify.{classify}
use wine_vr.Session.Reconcile.Detach.{detach_with, OnlyMarks, detach_with-OnlyMarks}
use wine_vr.Session.Watcher.{new_monitor, derive_live, derive_persisted, reset_history}
use wine_vr.Session.Watcher.Snapshot.{
  read_status_file, scan_for_game, last_parsed, stall, weigh_published, forget_encoder,
  attribute_encoder, finish_encoder, derived, snapshot,
}
use wine_vr.Session.Watcher.Stopping.{stop_plan-cancels}
use wine_vr.Tests.Fixtures.{left_over, machine, env, start}

-- Run 9 is in the phase `p`; the record is that of run 3.
abbrev launch : SessionPhase → RunPhaseInfo
launch p = record { phase = p; run_id = 9; bottle = "Steam"; exit_code = none }

abbrev launching : SessionPhase → Sources
launching p = record {
  os = machine;
  globals = record { live_session = none; run_phase = some (launch p) };
  disk = holds left_over;
  status_file = none;
  now = 90000;
}

plan_of_launch :
    stop_plan (snapshot (launching SessionPhase.preflight) [] (new_monitor 80000)).1 ≡ cancel_run 9
unfolding stop_plan snapshot derived derive_live derive_persisted reset_history read_status_file
    scan_for_game stall weigh_published finish_encoder attribute_encoder forget_encoder last_parsed
    new_monitor classify is_same_process
plan_of_launch = refl

stop_plan-cancels_example :
    (i : RunPhaseInfo) × ((launching SessionPhase.preflight).globals.run_phase ≡ some i)
    × (i.run_id ≡ 9)
stop_plan-cancels_example =
    stop_plan-cancels (launching SessionPhase.preflight) [] (new_monitor 80000) plan_of_launch

plan_of_teardown :
    stop_plan (snapshot (launching SessionPhase.stopping) [] (new_monitor 80000)).1
    ≡ fire_live_token
unfolding stop_plan snapshot derived derive_live derive_persisted reset_history read_status_file
    scan_for_game stall weigh_published finish_encoder attribute_encoder forget_encoder last_parsed
    new_monitor classify is_same_process
plan_of_teardown = refl

detach_with-OnlyMarks_example :
    All
      (OnlyMarks env 3 false false (λ i. false) 100)
      (detach_with env 3 false false (λ i. false) 100 start).1.log
detach_with-OnlyMarks_example = detach_with-OnlyMarks env 3 false false (λ i. false) 100 start refl

abbrev outputs : List String
outputs = "BlackHole 2ch" ∷ "AirPods" ∷ "MacBook Pro Speakers" ∷ []

picks_the_mac : fallback_output_device outputs ≡ some "MacBook Pro Speakers"
unfolding fallback_output_device is_built_in_output is_virtual_output
picks_the_mac = refl
