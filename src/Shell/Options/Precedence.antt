-- ===== src/Shell/Options/Precedence.antt =====
-- Which source each option of a stage comes from.
use wine_vr.Prelude.{
  ◌≡◌, refl, false, Option, none, some, is_some, is_some_and, unwrap_or, filter, if◌then◌else◌,
}
use wine_vr.Store.Settings.{Settings}
use wine_vr.Shell.Options.{
  Variables, non_empty, from_env, fill_stage_options_from_settings, given,
  stage_options_from_env_and_gui, LaunchOpts, launch_stage_options_from_env_and_gui,
}

-- The first source that gives a value, of three.
abbrev pub first_of {ℓ} : {A : Type ℓ} → Option A → Option A → Option A → Option A
first_of (some a) _ _ = some a
first_of none (some a) _ = some a
first_of none none o = o

first_lem {ℓ} :
    {A : Type ℓ} (gui env file : Option A)
    → given gui (if is_some env then env else file) ≡ first_of gui env file
first_lem (some a) env file = refl
first_lem none (some a) file = refl
first_lem none none file = refl

-- The bottle and the game's directory of a launch come from the caller, else from a variable that
-- is not empty, else from a default of the settings that is not empty; each flag from the caller,
-- else it says whether its variable is there and not empty, whatever the settings hold; and a launch
-- is a dry run only where its caller says so.
pub launch_stage_options-first :
    (var : Variables) (settings : Settings) (o : LaunchOpts)
    → ((launch_stage_options_from_env_and_gui var settings o).bottle_name
        ≡ first_of o.bottle
            (filter non_empty (var "WINEVR_BOTTLE"))
            (filter non_empty settings.default_bottle))
      × ((launch_stage_options_from_env_and_gui var settings o).bs_dir_override
          ≡ first_of o.bs_dir
              (filter non_empty (var "WINEVR_BS_DIR"))
              (filter non_empty settings.default_bs_dir))
      × ((launch_stage_options_from_env_and_gui var settings o).wired
          ≡ unwrap_or o.wired (is_some_and (var "WINEVR_WIRED") non_empty))
      × ((launch_stage_options_from_env_and_gui var settings o).no_audio
          ≡ unwrap_or o.no_audio (is_some_and (var "WINEVR_NO_AUDIO") non_empty))
      × ((launch_stage_options_from_env_and_gui var settings o).dry_run ≡ unwrap_or o.dry_run false)
unfolding launch_stage_options_from_env_and_gui stage_options_from_env_and_gui
    fill_stage_options_from_settings from_env
launch_stage_options-first var settings o =
    (first_lem o.bottle _ _, first_lem o.bs_dir _ _, refl, refl, refl)
