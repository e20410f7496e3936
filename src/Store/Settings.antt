-- ===== src/Store/Settings.antt =====
-- store/settings.rs: the defaults of a launch, less the unknown keys that the file keeps verbatim.
use wine_vr.Prelude.{String, Bool, false, Option}

pub record LaunchDefaults : Type 0 where
  pub no_audio : Bool
  pub no_dashboard : Bool
  pub wired : Bool
  pub verbose : Bool

pub record Settings : Type 0 where
  pub default_bottle : Option String
  pub default_bs_dir : Option String
  pub launch : LaunchDefaults

-- The options that the stages take, from stages/mod.rs.
pub record StageOptions : Type 0 where
  pub bottle_name : Option String
  pub bs_dir_override : Option String
  pub dry_run : Bool
  pub verbose : Bool
  pub no_audio : Bool
  pub no_dashboard : Bool
  pub wired : Bool

unfoldable pub effective_stage_options : Settings → StageOptions
effective_stage_options s = record {
  bottle_name = s.default_bottle;
  bs_dir_override = s.default_bs_dir;
  dry_run = false;
  verbose = s.launch.verbose;
  no_audio = s.launch.no_audio;
  no_dashboard = s.launch.no_dashboard;
  wired = s.launch.wired;
}
