-- ===== src/Shell/Options.antt =====
-- src-tauri/src/commands.rs and stages/mod.rs: the options of a stage from the environment, the
-- caller and the settings, and what a launch leaves in the library.
pub mod Precedence
use wine_vr.Prelude.{
  ℕ, String, Bool, true, false, not, Option, none, some, is_some, is_some_and, unwrap_or, filter,
  str_eq, if◌then◌else◌,
}
use wine_vr.Host.Error.{Result, ok, err}
use wine_vr.Store.Settings.{Settings, StageOptions}
use wine_vr.Store.Library.{LastSession}

-- `std::env::var`, where a value that is no text counts as unset for the two names.
abbrev pub Variables : Type 0
Variables = String → Option String

abbrev pub non_empty : String → Bool
non_empty s = not (str_eq s "")

-- `StageOptions::from_env`
unfoldable pub from_env : Variables → StageOptions
from_env var = record {
  bottle_name = filter non_empty (var "WINEVR_BOTTLE");
  bs_dir_override = filter non_empty (var "WINEVR_BS_DIR");
  dry_run = false;
  verbose = is_some_and (var "WINEVR_VERBOSE") non_empty;
  no_audio = is_some_and (var "WINEVR_NO_AUDIO") non_empty;
  no_dashboard = is_some_and (var "WINEVR_NO_DASHBOARD") non_empty;
  wired = is_some_and (var "WINEVR_WIRED") non_empty;
}

-- `fill_stage_options_from_settings`
unfoldable pub fill_stage_options_from_settings : StageOptions → Settings → StageOptions
fill_stage_options_from_settings opts settings = record opts {
  bottle_name =
      if is_some opts.bottle_name
      then opts.bottle_name
      else filter non_empty settings.default_bottle;
  bs_dir_override =
      if is_some opts.bs_dir_override
      then opts.bs_dir_override
      else filter non_empty settings.default_bs_dir;
}

-- A value of the caller, over the one that there is.
abbrev pub given {ℓ} : {A : Type ℓ} → Option A → Option A → Option A
given none old = old
given (some v) old = some v

-- `load_settings`: a file that cannot be read counts as the defaults.
abbrev pub load_settings : Settings → Result Settings → Settings
load_settings defaults (ok s) = s
load_settings defaults (err x) = defaults

unfoldable pub stage_options_from_env_and_gui :
    Variables → Settings → Option String → Option String → StageOptions
stage_options_from_env_and_gui var settings bottle bs_dir =
    let opts = fill_stage_options_from_settings (from_env var) settings in
    record opts {
      bottle_name = given bottle opts.bottle_name;
      bs_dir_override = given bs_dir opts.bs_dir_override;
    }

pub record LaunchOpts : Type 0 where
  pub bottle : Option String
  pub bs_dir : Option String
  pub no_audio : Option Bool
  pub no_dashboard : Option Bool
  pub wired : Option Bool
  pub verbose : Option Bool
  pub dry_run : Option Bool
  pub game_id : Option String

unfoldable pub launch_stage_options_from_env_and_gui :
    Variables → Settings → LaunchOpts → StageOptions
launch_stage_options_from_env_and_gui var settings o =
    let opts = stage_options_from_env_and_gui var settings o.bottle o.bs_dir in
    record opts {
      no_audio = unwrap_or o.no_audio opts.no_audio;
      no_dashboard = unwrap_or o.no_dashboard opts.no_dashboard;
      wired = unwrap_or o.wired opts.wired;
      verbose = unwrap_or o.verbose opts.verbose;
      dry_run = unwrap_or o.dry_run false;
    }

-- What `StageEvent::Launched` told.
pub record LaunchedInfo : Type 0 where
  pub started_at_unix_ms : ℕ
  pub log_path : String

-- The exit code of the outcome, where the stage settled with one.
unfoldable pub last_session_to_record :
    ℕ → Option String → Option LaunchedInfo → Option ℕ → Option (String × LastSession)
last_session_to_record now (some game_id) (some l) (some code) = some (
  game_id,
  record {
    started_at_unix_ms = l.started_at_unix_ms;
    ended_at_unix_ms = now;
    exit_code = some code;
    log_path = some l.log_path;
  },
)
last_session_to_record now _ _ _ = none
