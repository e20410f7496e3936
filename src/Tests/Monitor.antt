-- ===== src/Tests/Monitor.antt =====
-- The monitor and the doors over a running session and over a quiet machine.
use wine_vr.Prelude.{◌≡◌, refl, true, false, none, some, [], ◌==◌, if◌then◌else◌}
use wine_vr.Host.Process.{Os, is_same_process}
use wine_vr.Host.Phase.{SessionPhase, is_idle_or_exited}
use wine_vr.Host.World.{holds}
use wine_vr.Session.Status.{EncoderInfo, Globals}
use wine_vr.Session.Reconcile.Classify.{classify}
use wine_vr.Host.Record.{has_live_foreign_owner}
use wine_vr.Session.Doors.{is_fresh, Sources, session_block_at}
use wine_vr.Session.Watcher.{
  SessionMonitor, new_monitor, derive_live, derive_persisted, reset_history,
}
use wine_vr.Session.Watcher.Snapshot.{
  read_status_file, scan_for_game, last_parsed, stall, weigh_published, forget_encoder,
  attribute_encoder, finish_encoder, derived, snapshot,
}
use wine_vr.Session.Watcher.Agreement.{snapshot-idle_of_open}
use wine_vr.Tests.Fixtures.{left_over, machine}

abbrev no_globals : Globals
no_globals = record { live_session = none; run_phase = none }

-- The record of a dead session, and nothing else.
abbrev quiet : Sources
quiet = record {
  os = machine;
  globals = no_globals;
  disk = holds left_over;
  status_file = none;
  now = 90000;
}

doors_open : session_block_at quiet ≡ none
unfolding session_block_at classify is_same_process has_live_foreign_owner
doors_open = refl

snapshot-idle_of_open_example :
    is_idle_or_exited (snapshot quiet [] (new_monitor 80000)).1.phase ≡ true
snapshot-idle_of_open_example = snapshot-idle_of_open quiet [] (new_monitor 80000) refl doors_open

-- The wine process of the session runs, and its stream's heartbeat stopped 20 seconds ago.
abbrev streaming_machine : Os
streaming_machine = record machine {
  is_alive = λ p. p == 40;
  observe =
      λ p. if p == 40 then some (record { pid = 40; start_time = 800; exe = "wine" }) else none;
}

abbrev stopped_stream : Sources
stopped_stream = record {
  os = streaming_machine;
  globals = no_globals;
  disk = holds left_over;
  status_file = some (record {
    state = "streaming";
    process_id = some 40;
    updated_at_unix_ms = 70000;
    application_name = none;
  });
  now = 90000;
}

abbrev encoder : EncoderInfo
encoder = record {
  codec = "HEVC";
  path = "native helper";
  width = 3008;
  height = 1664;
  refresh_hz = 72;
  bitrate_mbps = 80;
}

abbrev watching : SessionMonitor
watching = record {
  encoder = some encoder;
  encoder_run_id = some 3;
  created_at_unix_ms = 500;
  preload_pending = false;
  runtime_status = none;
  ever_fresh = true;
  last_fresh_unix_ms = some 72000;
  fresh_run_id = some 3;
  last_phase = SessionPhase.running;
}

seen_encoder : (snapshot stopped_stream [] watching).1.encoder ≡ some encoder
unfolding snapshot derived derive_live derive_persisted classify is_same_process reset_history
    read_status_file is_fresh scan_for_game stall weigh_published finish_encoder forget_encoder
    attribute_encoder last_parsed
seen_encoder = refl
