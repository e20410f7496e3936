-- ===== src/Store/Goldberg.antt =====
-- store/goldberg.rs: the revert of the game's dll from the backup that a launch made.
pub mod Restored
pub mod Restores
use wine_vr.Prelude.{
  ℕ, Bool, true, false, ◌&&◌, Option, none, some, List, [], ◌∷◌, Text, text_eq, map, leb, ◌+◌,
  if◌then◌else◌,
}
use wine_vr.Host.Error.{Message, SabrageError}
use wine_vr.Host.Effect.{pure, throw, ◌>>=◌, ◌>>◌}
use wine_vr.Host.Files.{is_file, FsEnv, F, files, read_bytes, cmp_files, copy_if_changed}
use wine_vr.Session.Doors.{Sources, SessionBlock, session_block_at}
use wine_vr.Run.Goldberg.{GoldbergFacts, steam_api_path, orig_steam_path, goldberg_backup_marker}

-- What `session_block` reads, the pids whose command line names the game when they are asked for
-- again, and the contract's pin.
pub record RevertFacts : Type 0 where
  pub goldberg : GoldbergFacts
  pub sources : Sources
  pub games : List ℕ
  pub pin : Text

pub record RevertReport : Type 0 where
  pub restored : Bool
  pub message : Message
  pub dll_path : Text

-- `u8::to_ascii_lowercase`
abbrev pub ascii_lower : ℕ → ℕ
ascii_lower c = if leb b'A' c && leb c b'Z' then c + 32 else c

abbrev pub eq_ignore_ascii_case : Text → Text → Bool
eq_ignore_ascii_case a b = text_eq (map ascii_lower a) (map ascii_lower b)

-- A file that cannot be read matches no digest.
abbrev pub digest_matches : (Text → Text) → Text → Option Text → Bool
digest_matches sha256 pin none = false
digest_matches sha256 pin (some b) = eq_ignore_ascii_case (sha256 b) pin

unfoldable pub file_sha256_matches : FsEnv → (Text → Text) → Text → Text → F Bool
file_sha256_matches e sha256 p pin = do b ← read_bytes e p; pure (digest_matches sha256 pin b)

-- `goldberg_backup_is_goldberg`
unfoldable pub goldberg_backup_is_goldberg : GoldbergFacts → Text → F Bool
goldberg_backup_is_goldberg g backup = do
  fs ← files
  pure (is_file (fs (goldberg_backup_marker g backup)))

abbrev pub not_restored : Message → Text → RevertReport
not_restored m api = record { restored = false; message = m; dll_path = api }

-- The three ways to know a Goldberg build, asked in turn.
unfoldable pub is_goldberg : FsEnv → RevertFacts → Text → F Bool
is_goldberg e r backup = do
  pinned ← file_sha256_matches e r.goldberg.sha256 backup r.pin
  if pinned then pure true else (do
    same ← cmp_files e r.goldberg.gbe_dll backup
    if same then pure true else goldberg_backup_is_goldberg r.goldberg backup)

unfoldable pub restore_unless : FsEnv → Text → Bool → F RevertReport
restore_unless e api true =
    pure (not_restored (Message.backup_itself_goldberg (orig_steam_path api)) api)
restore_unless e api false = do
  copy_if_changed e (orig_steam_path api) api
  pure (record {
    restored = true;
    message = Message.restored_from (orig_steam_path api);
    dll_path = api;
  })

unfoldable pub revert_from : FsEnv → RevertFacts → Text → Bool → F RevertReport
revert_from e r api false = pure (not_restored (Message.no_backup (orig_steam_path api)) api)
revert_from e r api true = do
  known ← is_goldberg e r (orig_steam_path api)
  restore_unless e api known

unfoldable pub revert_files : FsEnv → RevertFacts → F RevertReport
revert_files e r = do
  api ← steam_api_path e r.goldberg.bs_dir
  fs ← files
  revert_from e r api (is_file (fs (orig_steam_path api)))

unfoldable pub revert_unless_running : FsEnv → RevertFacts → List ℕ → F RevertReport
revert_unless_running e r (pid ∷ _) = throw (
    SabrageError.fatal (Message.revert_refused (Message.game_has_dll pid))
      (some "stop the running session first (Stop in Sabrage, or ./demo.sh stop --bottle <name>)"))
revert_unless_running e r [] = revert_files e r

unfoldable pub revert_unless_live : FsEnv → RevertFacts → Option SessionBlock → F RevertReport
revert_unless_live e r (some b) =
    throw
      (SabrageError.fatal (Message.revert_refused b.reason) (some "stop the running session first"))
revert_unless_live e r none = revert_unless_running e r r.games

-- `revert_probed`, under the operation lock.
unfoldable pub revert_probed : FsEnv → RevertFacts → F RevertReport
revert_probed e r = revert_unless_live e r (session_block_at r.sources)
