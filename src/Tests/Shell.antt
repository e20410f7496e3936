-- ===== src/Tests/Shell.antt =====
-- The commands of the desktop shell around one live session.
use Prim.Native.Nat.{◌*◌}
use wine_vr.Prelude.{◌≡◌, true, false, none, some, List, [], ◌∷◌, leb, if◌then◌else◌, arith}
use wine_vr.Session.Status.{LiveSessionHandle}
use wine_vr.Shell.Stop.{Watch, cleared}
use wine_vr.Shell.Quit.{
  App, fresh_app, AppEvent, tick, began, ended, request, answer, settled, terminate, cancel, stop,
  step, react, on_request, ask_to_quit, quit_decision, quit_intercept_decision,
  should_intercept_quit,
}
use wine_vr.Shell.Quit.Told.{steps, newers, Orderly, steps-Orderly, fresh_app-Orderly}
use wine_vr.Shell.Quit.Quittable.{request-quits}
use wine_vr.Tests.Fixtures.{game}

abbrev live : LiveSessionHandle
live = record {
  run_id = 3;
  bottle = "Steam";
  identity = game;
  log_path = "/logs/a";
  started_at_unix_ms = 1000;
  cancel = false;
  detach = false;
}

-- The slot is free from the third look on; each sleep takes 150 ms.
abbrev watch : Watch
watch = record { clock = λ i. 150 * i; slot = λ i. if leb i 1 then some 3 else none }

-- A session begins, the user asks to quit, keeps the application, asks again and stops the session;
-- its slot is freed, and the wait sees it.
abbrev quitting : List AppEvent
quitting =
    began live
    ∷ request
    ∷ answer cancel
    ∷ tick 5
    ∷ request
    ∷ answer stop
    ∷ ended
    ∷ settled stop cleared
    ∷ terminate
    ∷ []

steps-Orderly_example :
    Orderly (steps true quitting (fresh_app 100)) (newers true quitting (fresh_app 100) false)
steps-Orderly_example = steps-Orderly quitting (fresh_app 100) false (fresh_app-Orderly 100)

abbrev playing : App
playing = record (fresh_app 100) { live = some live }

abbrev unanswered_events : List AppEvent
unanswered_events = tick 12000 ∷ request ∷ tick 9000 ∷ []

request-quits_example :
    (step true request (steps true unanswered_events (step true request playing))).exited ≡ true
unfolding step react on_request ask_to_quit quit_decision quit_intercept_decision
    should_intercept_quit
request-quits_example =
    request-quits true playing unanswered_events (omega arith) (tt, (tt, (tt, tt))) (omega arith)
