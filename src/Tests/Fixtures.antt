-- ===== src/Tests/Fixtures.antt =====
-- A machine, a record that a killed session left, and the same machine with a game running.
use wine_vr.Prelude.{true, false, Option, none, some, [], ◌∷◌, ◌==◌, if◌then◌else◌}
use wine_vr.Host.Process.{ProcInfo, Os}
use wine_vr.Host.Error.{Result, ok}
use wine_vr.Host.Record.{SessionState, no_flags}
use wine_vr.Host.World.{holds, Command, done, ChildAnswer, exited, Env, World}
use wine_vr.Session.Reconcile.Restore.{StageCtx, AudioProbe}

-- Pids 7 (this process) and 50 (the dashboard) are alive.
abbrev pub machine : Os
machine = record {
  self_pid = 7;
  is_alive = λ p. if p == 7 then true else p == 50;
  observe = λ p.
      if p == 50
      then some (record { pid = 50; start_time = 900; exe = "alvr_dashboard" })
      else none;
  game_pids = [];
}

abbrev pub dashboard : ProcInfo
dashboard = record { pid = 50; start_time = 900; exe = "alvr_dashboard" }

abbrev pub game : ProcInfo
game = record { pid = 40; start_time = 800; exe = "wine" }

-- A session of the bottle Steam whose process is gone, with every guard still held.
abbrev pub left_over : SessionState
left_over = record {
  version = 1;
  run_id = 3;
  bottle = "Steam";
  bs_dir = "/games/bs";
  started_at_unix_ms = 1000;
  log_path = "/logs/a";
  owner_pid = 6;
  owner_started_at = some 5;
  wine = some game;
  dashboard = some dashboard;
  prev_audio_output = some "AirPods";
  wired_forwards =
      record { serial = "Q3"; port = 9943 } ∷ record { serial = "Q3"; port = 9944 } ∷ [];
  guards = no_flags;
  detached = false;
}

-- Every file operation is done; the removal of port 9944 fails, all other children succeed.
abbrev pub child_answer : Command → ChildAnswer
child_answer (Command.forward_remove adb serial port) = exited (port == 9943)
child_answer _ = exited true

abbrev pub env : Env
env = record {
  os = machine;
  dry_run = false;
  file = λ n a. done;
  child = λ n c. child_answer c;
  others = λ n d. d;
}

abbrev pub ctx : StageCtx
ctx = record { env = env; bottle_name = some "Steam"; adb = some "/usr/bin/adb" }

abbrev pub start : World
start = record { disk = holds left_over; tick = 0; log = [] }

abbrev pub probe : Result (Option AudioProbe)
probe = ok (
    some (record {
      bin = "/bin/sas";
      current = "BlackHole 2ch";
      outputs = "BlackHole 2ch" ∷ "AirPods" ∷ [];
    }))
