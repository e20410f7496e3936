-- ===== src/Run/Goldberg.antt =====
-- stages/run/actions.rs: `goldberg_stage`, which puts the Goldberg dll over the game's and keeps the
-- game's own beside it, and store/goldberg.rs, which puts that one back.
pub mod Original
use wine_vr.Prelude.{
  Bool, true, false, string_of, codes, some, none, List, [], ◌∷◌, ◌++◌, Text, any, ◌==◌,
  if◌then◌else◌,
}
use wine_vr.Host.Error.{Message, SabrageError, Result, ok, err}
use wine_vr.Host.Effect.{pure, throw, attempt, ◌>>=◌, ◌>>◌}
use wine_vr.Host.World.{info, okay, warn}
use wine_vr.Host.Files.{
  Node, gone, other, file, is_file, FsOp, make_dir, write, row, FsEnv, F, note, files, die,
  die_with_cause, op, cmp_files, copy_if_changed,
}

-- `sha256` is the digest in lower-case hexadecimal, and `appid` the contract's game id in digits.
pub record GoldbergFacts : Type 0 where
  pub bs_dir : Text
  pub gbe_dll : Text
  pub sabrage_appsup : Text
  pub appid : Text
  pub sha256 : Text → Text

-- `Path::join`
infixl 65 ◌/+◌
abbrev pub ◌/+◌ : Text → Text → Text
a /+ b = a ++ b'/' ∷ b

-- `Path::parent`: the text before the last slash.
abbrev pub parent : Text → Text
parent [] = []
parent (c ∷ s) = let rest = parent s in if any (λ d. d == b'/') s then c ∷ rest else []

abbrev pub plugin_path : Text → Text
plugin_path bs_dir = bs_dir /+ codes "Beat Saber_Data/Plugins/x86_64/steam_api64.dll"

abbrev pub root_path : Text → Text
root_path bs_dir = bs_dir /+ codes "steam_api64.dll"

-- `steam_api_path`, from whether the plugin's dll is a file.
abbrev pub api_of : Bool → Text → Text
api_of plugin bs_dir = if plugin then plugin_path bs_dir else root_path bs_dir

unfoldable pub steam_api_path : FsEnv → Text → F Text
steam_api_path e bs_dir = do fs ← files; pure (api_of (is_file (fs (plugin_path bs_dir))) bs_dir)

abbrev pub orig_steam_path : Text → Text
orig_steam_path api = api ++ codes ".orig-steam"

abbrev pub provenance_dir : GoldbergFacts → Text
provenance_dir g = g.sabrage_appsup /+ codes "goldberg-provenance"

unfoldable pub goldberg_backup_marker : GoldbergFacts → Text → Text
goldberg_backup_marker g backup =
    provenance_dir g /+ g.sha256 backup ++ codes ".orig-steam-is-goldberg"

-- Best effort: a failure is dropped.
unfoldable pub record_goldberg_backup : FsEnv → GoldbergFacts → Text → F (Unit {0})
record_goldberg_backup e g backup = do
  r ← attempt (do
    op e (make_dir (provenance_dir g))
    op e (write (goldberg_backup_marker g backup) (backup ++ b'\n' ∷ [])))
  pure tt

unfoldable pub backup_made : FsEnv → GoldbergFacts → Text → Bool → Result Bool → F (Unit {0})
backup_made e g backup already (err x) = die_with_cause x Message.backup_failed
backup_made e g backup already (ok _) =
    if already
    then (do record_goldberg_backup e g backup; note (row warn (Message.backup_is_goldberg backup)))
    else pure tt

-- What is at the backup's name decides: a file is kept, anything else there is refused.
unfoldable pub back_up_over : FsEnv → GoldbergFacts → Text → Node → F (Unit {0})
back_up_over e g api (file b m) = pure tt
back_up_over e g api other =
    die (Message.backup_not_regular (orig_steam_path api))
      (some (string_of (codes "move or delete " ++ orig_steam_path api)))
back_up_over e g api gone = do
  already ← cmp_files e g.gbe_dll api
  r ← attempt (copy_if_changed e api (orig_steam_path api))
  backup_made e g (orig_steam_path api) already r

unfoldable pub back_up : FsEnv → GoldbergFacts → Text → F (Unit {0})
back_up e g api = do fs ← files; back_up_over e g api (fs (orig_steam_path api))

unfoldable pub installed : Text → Result Bool → F (Unit {0})
installed api (err x) = die_with_cause x Message.goldberg_failed
installed api (ok _) = note (row okay (Message.goldberg_installed api))

unfoldable pub install_over : FsEnv → GoldbergFacts → Text → Bool → F (Unit {0})
install_over e g api true = note (row info Message.goldberg_already_installed)
install_over e g api false = do r ← attempt (copy_if_changed e g.gbe_dll api); installed api r

unfoldable pub install : FsEnv → GoldbergFacts → Text → F (Unit {0})
install e g api = do same ← cmp_files e g.gbe_dll api; install_over e g api same

abbrev pub flag_files : List Text
flag_files = codes "offline.txt" ∷ codes "disable_networking.txt" ∷ codes "disable_overlay.txt" ∷ []

unfoldable pub write_flags : FsEnv → Text → List Text → F (Unit {0})
write_flags e dir [] = pure tt
write_flags e dir (name ∷ rest) = do op e (write (dir /+ name) []); write_flags e dir rest

unfoldable pub appid_written : FsEnv → Text → Result (Unit {0}) → F (Unit {0})
appid_written e dir (err x) = die_with_cause x Message.appid_failed
appid_written e dir (ok _) = do
  op e (make_dir (dir /+ codes "steam_settings"))
  write_flags e (dir /+ codes "steam_settings") flag_files

unfoldable pub write_settings : FsEnv → GoldbergFacts → Text → F (Unit {0})
write_settings e g dir = do
  r ← attempt (op e (write (dir /+ codes "steam_appid.txt") g.appid))
  appid_written e dir r

unfoldable pub stage_at : FsEnv → GoldbergFacts → Text → Bool → F (Unit {0})
stage_at e g api false = die (Message.steam_api_missing g.bs_dir) none
stage_at e g api true = do back_up e g api; install e g api; write_settings e g (parent api)

unfoldable pub goldberg_stage : FsEnv → GoldbergFacts → F (Unit {0})
goldberg_stage e g = do
  api ← steam_api_path e g.bs_dir
  fs ← files
  stage_at e g api (is_file (fs api))
