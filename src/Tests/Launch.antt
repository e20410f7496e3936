-- ===== src/Tests/Launch.antt =====
-- A launch that takes over a device which an earlier session did not put back, and its teardown.
use wine_vr.Prelude.{◌≡◌, refl, inl, true, false, Option, none, some, [], ◌∷◌, All}
use wine_vr.Host.Error.{Result, ok}
use wine_vr.Host.Record.{SessionState}
use wine_vr.Host.World.{absent, World}
use wine_vr.Session.Reconcile.Restore.{StageCtx, Captured, blackhole}
use wine_vr.Run.Guards.{LaunchFacts, AudioGuard, route_audio}
use wine_vr.Run.Guards.Teardown.{release_guards}
use wine_vr.Run.Guards.WriteAhead.{Ahead, route_audio-Ahead}
use wine_vr.Run.Guards.Carried.{route_audio-keeps_device}
use wine_vr.Run.Guards.Attempted.{Asked, release_guards-Asked}
use wine_vr.Run.Carry.{Carried, admit, inherit, with_forwards}
use wine_vr.Run.Carry.Distinct.{Distinct}
use wine_vr.Run.Carry.Inherited.{KeepsPending, admit-KeepsPending}
use wine_vr.Session.Reconcile.Pass.{dead}
use wine_vr.Tests.Fixtures.{left_over, env, dashboard}

abbrev ctx : StageCtx
ctx = record { env = env; bottle_name = some "Steam"; adb = none }

abbrev facts : LaunchFacts
facts = record {
  no_audio = false;
  no_dashboard = false;
  protocol = "alvr";
  switch_bin = some "sas";
  dashboard_bin = "alvr_dashboard";
  dashboard_executable = true;
}

abbrev listing : Captured
listing = record {
  success = true;
  trimmed = "Speakers";
  untailed = "Speakers";
  lines = "Speakers" ∷ blackhole ∷ [];
}

abbrev reading : Captured
reading = record {
  success = true;
  trimmed = blackhole;
  untailed = blackhole;
  lines = blackhole ∷ [];
}

abbrev start : World
start = record { disk = absent; tick = 0; log = [] }

route_audio-Ahead_example :
    All
      (Ahead ctx.env (ok reading) left_over)
      (route_audio ctx facts (ok listing) (ok reading) left_over start).1.log
route_audio-Ahead_example =
    route_audio-Ahead ctx (ok reading) left_over facts (ok listing) start refl

route_audio-keeps_device_example :
    (r : Result (Unit {0}) × Option AudioGuard × SessionState) × ((route_audio ctx facts
        (ok listing)
        (ok reading)
        left_over
        start).0
      ≡ ok r)
    × (r.2.prev_audio_output ≡ some "AirPods")
route_audio-keeps_device_example =
    route_audio-keeps_device ctx "AirPods" facts (ok listing) (ok reading) left_over start refl refl

abbrev held : AudioGuard
held = record {
  previous_output = some "AirPods";
  switch_bin = some "sas";
  carried = true;
  dry_run = false;
  released = false;
  disarmed = false;
}

release_guards-Asked_example :
    (r : Result (Unit {0}) × SessionState) × ((release_guards ctx
        (λ w. w)
        (some held)
        (some dashboard)
        []
        left_over
        start).0
      ≡ ok r)
    × Asked ctx refl "sas" "AirPods"
        (release_guards ctx (λ w. w) (some held) (some dashboard) [] left_over start).1
release_guards-Asked_example =
    release_guards-Asked ctx refl "sas" "AirPods" (λ w. w) held (some dashboard) [] left_over start
      refl refl

-- The next launch makes a forward that the old record has as well.
admit-KeepsPending_example :
    (c : Carried) × (admit "Steam" (dead left_over [] true) ≡ ok c)
    × KeepsPending left_over
        (with_forwards (record { serial = "Q3"; port = 9943 } ∷ []) (inherit c left_over))
    × Distinct
        (with_forwards
          (record { serial = "Q3"; port = 9943 } ∷ [])
          (inherit c left_over)).wired_forwards
admit-KeepsPending_example =
    admit-KeepsPending "Steam" left_over left_over (dead left_over [] true)
      (record { serial = "Q3"; port = 9943 } ∷ []) (inl ([], true, refl))
