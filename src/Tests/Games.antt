-- ===== src/Tests/Games.antt =====
-- A library with two games, edited, and saved by a transaction.
use wine_vr.Prelude.{ℕ, ◌≡◌, refl, true, false, none, some, [], ◌∷◌, ◌==◌}
use wine_vr.Host.Error.{ok}
use wine_vr.Host.World.{done}
use wine_vr.Store.Library.{
  LaunchOverrides, LastSession, GameEntry, Library, LibraryFile, holds, get, upsert_editable,
  remove, load, save, save_changed, Library-discrete, transact,
}
use wine_vr.Store.Library.Lookup.{get-upsert_editable}
use wine_vr.Store.Library.Transaction.{
  OldOrNew, Committed, KeepsVersion, transact-OldOrNew, transact-Committed,
}
use wine_vr.Store.Validity.{GameProbe, validate_pinned}
use wine_vr.Store.Validity.Ready.{is_ready, all_advice, validate_pinned-ready}

abbrev no_overrides : LaunchOverrides
no_overrides = record { no_audio = none; no_dashboard = none; wired = none; verbose = none }

abbrev played : LastSession
played = record {
  started_at_unix_ms = 1000;
  ended_at_unix_ms = 2000;
  exit_code = some 0;
  log_path = none;
}

abbrev game : ℕ → GameEntry
game id = record {
  id = id;
  name = "Beat Saber";
  bs_dir = "/games/bs";
  bottle = "Steam";
  appid = 620980;
  added_at_unix_ms = 5;
  launch_overrides = no_overrides;
  last_session = some played;
}

abbrev two_games : Library
two_games = record { version = 1; games = game 1 ∷ game 2 ∷ [] }

abbrev renamed : GameEntry
renamed = record (game 2) { name = "Modded"; appid = 0; last_session = none }

get-upsert_editable_example :
    ((old : GameEntry)
      → get renamed.id two_games ≡ some old
      → get renamed.id (upsert_editable renamed two_games)
        ≡ some (record {
          id = renamed.id;
          name = renamed.name;
          bs_dir = renamed.bs_dir;
          bottle = renamed.bottle;
          appid = old.appid;
          added_at_unix_ms = old.added_at_unix_ms;
          launch_overrides = renamed.launch_overrides;
          last_session = old.last_session;
        }))
    × (get renamed.id two_games ≡ none
        → get renamed.id (upsert_editable renamed two_games) ≡ some renamed)
    × ((id : ℕ)
        → (renamed.id == id) ≡ false
        → get id (upsert_editable renamed two_games) ≡ get id two_games)
get-upsert_editable_example = get-upsert_editable renamed two_games

transact-OldOrNew_example :
    OldOrNew
      (remove 1)
      done
      done
      (holds two_games)
      (transact (remove 1) done done (holds two_games)).1
transact-OldOrNew_example = transact-OldOrNew (remove 1) done done (holds two_games)

remove-version : KeepsVersion (remove 1) done done
unfolding remove
remove-version lib h = h

-- Both decisions on whether the library changed end well where the machine does what it is asked.
saved_well :
    {before lib : Library} (d : Dec (before ≡ lib)) (file : LibraryFile)
    → (save_changed d true done done file).0 ≡ ok true
unfolding save
saved_well (yes same) file = refl
saved_well (no changed) file = refl

transact-removed : (transact (remove 1) done done (holds two_games)).0 ≡ ok true
unfolding transact remove load
transact-removed = saved_well (Library-discrete two_games (remove 1 two_games).1) (holds two_games)

transact-Committed_example :
    Committed
      (remove 1)
      done
      done
      (holds two_games)
      true
      (transact (remove 1) done done (holds two_games)).1
transact-Committed_example =
    transact-Committed (remove 1) done done remove-version (holds two_games) transact-removed

-- A game in the bottle's drive, whose bottle has another graphics backend.
abbrev probe : GameProbe
probe = record {
  exe_present = true;
  raw_version = "1.29.4";
  version_is_supported = true;
  bottle_named = true;
  bottle_on_disk = true;
  conf_template = some "win11_64";
  conf_backend_dxmt = false;
  under_drive_c = true;
  z_drive_exists = false;
  dll_present = true;
  dll_has_pin = true;
  dll_equals_payload = false;
  orig_steam_present = true;
}

validate_pinned-ready_example :
    is_ready (validate_pinned probe).status ≡ all_advice (validate_pinned probe).problems
validate_pinned-ready_example = validate_pinned-ready probe
