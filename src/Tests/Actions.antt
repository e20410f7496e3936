-- ===== src/Tests/Actions.antt =====
-- A wired launch with one headset, a revert after a launch, and a launch into a directory of logs.
use wine_vr.Prelude.{
  ◌≡◌, refl, true, false, none, some, codes, [], ◌∷◌, ◌++◌, text_eq, All, if◌then◌else◌,
}
use wine_vr.Host.Error.{Message, SabrageError, ok}
use wine_vr.Host.World.{World, absent, done}
use wine_vr.Host.Files.{
  Node, gone, file, FsEnv, FsWorld, note, files, op, real_op, cmp_files, read_bytes, copy_by,
  copy_if_changed,
}
use wine_vr.Host.Effect.{pure, ◌>>=◌, attempt}
use wine_vr.Session.Doors.{Sources, session_block_at}
use wine_vr.Fixes.Adb.{rows}
use wine_vr.Run.Forwards.{WiredFacts, Recorded, adb_forward_hygiene}
use wine_vr.Run.Forwards.Ahead.{Proper, adb_forward_hygiene-Proper}
use wine_vr.Run.Forwards.Tracked.{Tracked, Keeping}
use wine_vr.Run.Forwards.Tracked.Loop.{adb_forward_hygiene-Tracked}
use wine_vr.Run.Goldberg.{
  GoldbergFacts, steam_api_path, goldberg_backup_marker, backup_made, back_up_over, back_up,
  installed, install_over, install, write_flags, appid_written, write_settings, stage_at,
  goldberg_stage,
}
use wine_vr.Store.Goldberg.{
  RevertReport, file_sha256_matches, goldberg_backup_is_goldberg, is_goldberg, restore_unless,
  revert_from, revert_files, revert_unless_running, revert_unless_live, revert_probed,
}
use wine_vr.Store.Goldberg.Restores.{launch, revert_facts, after_moves, revert_probed-after_moves}
use wine_vr.Run.Launch.{LogEnv, LogWorld}
use wine_vr.Tests.Fixtures.{env, left_over, machine}

abbrev wired_facts : WiredFacts
wired_facts = record {
  wired = true;
  adb = record { adb = some "/usr/bin/adb"; ports = 9943 ∷ 9944 ∷ []; listing = rows [] };
  stdout = some (codes "List of devices attached" ++ 10 ∷ codes "Q3 device");
  cancelled = false;
}

-- No file yet.
abbrev before_launch : World
before_launch = record { disk = absent; tick = 0; log = [] }

adb_forward_hygiene-Proper_example :
    All
      (Proper env wired_facts left_over)
      (adb_forward_hygiene env wired_facts left_over before_launch).1.log
adb_forward_hygiene-Proper_example =
    adb_forward_hygiene-Proper env wired_facts left_over before_launch refl

adb_forward_hygiene-Tracked_example :
    (r : Recorded) × ((adb_forward_hygiene env wired_facts left_over before_launch).0 ≡ ok r)
    × (All (Tracked env r.1) (adb_forward_hygiene env wired_facts left_over before_launch).1.log
        × Keeping env left_over r.1)
adb_forward_hygiene-Tracked_example =
    adb_forward_hygiene-Tracked env wired_facts left_over before_launch refl refl

-- Names of the log's candidates that do not depend on the clock; the first is taken.
abbrev log_env : LogEnv
log_env = record {
  dry_run = false;
  prepared = ok tt;
  stamp = λ n. codes "20260830-120000";
  others = λ n names. names;
  stopped = λ n. none;
  uncloned = λ n. none;
  spawn = λ n. ok (record { pid = 60; start_time = 950; exe = "wine" });
  taken = SabrageError.cancelled;
}

abbrev log_world : LogWorld
log_world = record {
  names = codes "beatsaber-20260830-120000.log" ∷ [];
  tick = 0;
  shown = none;
  spawns = 0;
}

abbrev goldberg_facts : GoldbergFacts
goldberg_facts = record {
  bs_dir = codes "/g";
  gbe_dll = codes "/gbe";
  sabrage_appsup = codes "/s";
  appid = codes "620980";
  sha256 = λ b. b;
}

abbrev fs_env : FsEnv
fs_env = record {
  dry_run = false;
  answer = λ n a. done;
  unread = λ n p. false;
  not_read = SabrageError.cancelled;
}

-- The game's own dll is the byte 1, and Goldberg's the byte 2.
abbrev own_dll : Node
own_dll = file (1 ∷ []) 493

abbrev installed_game : FsWorld
installed_game = record {
  fs = λ p.
      if text_eq p (codes "/g/steam_api64.dll")
      then own_dll
      else if text_eq p (codes "/gbe")
      then file (2 ∷ []) 420
      else gone;
  tick = 0;
  log = [];
}

abbrev idle : Sources
idle = record {
  os = machine;
  globals = record { live_session = none; run_phase = none };
  disk = absent;
  status_file = none;
  now = 90000;
}

abbrev restored : RevertReport
restored = record {
  restored = true;
  message = Message.restored_from (codes "/g/steam_api64.dll.orig-steam");
  dll_path = codes "/g/steam_api64.dll";
}

back_again :
    (revert_probed fs_env
      (revert_facts goldberg_facts idle [] (codes "f"))
      (after_moves goldberg_facts (launch fs_env ∷ []) installed_game)).0
    ≡ ok restored
unfolding revert_probed revert_unless_live revert_unless_running revert_files revert_from
    restore_unless is_goldberg goldberg_backup_is_goldberg file_sha256_matches steam_api_path
    goldberg_backup_marker backup_made back_up_over back_up installed install_over install
    write_flags appid_written write_settings stage_at goldberg_stage note files op real_op cmp_files
    read_bytes copy_by copy_if_changed session_block_at pure ◌>>=◌ attempt
back_again = refl

revert_probed-after_moves_example :
    (revert_probed fs_env
        (revert_facts goldberg_facts idle [] (codes "f"))
        (after_moves goldberg_facts (launch fs_env ∷ []) installed_game)).1.fs
      (codes "/g/steam_api64.dll")
    ≡ own_dll
revert_probed-after_moves_example =
    revert_probed-after_moves goldberg_facts own_dll (launch fs_env ∷ []) installed_game fs_env idle
      [] (codes "f") restored refl refl refl refl back_again refl
