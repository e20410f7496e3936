-- ===== src/Config/Write.antt =====
-- config/runtime_toml.rs: the write of a patch to the file.
pub mod Log
pub mod Steps
pub mod Reserve
pub mod Keeps
pub mod Dry
pub mod Safe
pub mod Outcome
pub mod Settled
use wine_vr.Prelude.{
  ℕ, zero, suc, Bool, true, false, not, ◌&&◌, Option, none, some, List, [], ◌∷◌, is_empty, is_some,
  Text, text_eq, if◌then◌else◌,
}
use wine_vr.Host.Error.{Message, SabrageError, Result, ok, err}
use wine_vr.Host.Effect.{Eff, pure, throw, ◌>>=◌, ◌>>◌, attempt}
use wine_vr.Session.Doors.{SessionBlock}
use wine_vr.Config.Value.{Floats}
use wine_vr.Config.Setting.{InvalidValue, RuntimeConfigValues, validate}
use wine_vr.Config.Site.{
  Site, FileOp, make_dir, create_toml, write_toml, create_backup, remove_backup, SiteEnv, C, look,
  blocking_session, read_toml, op, create_new,
}
use wine_vr.Config.Backups.{next_backup_path, stale_names}
use wine_vr.Config.Patch.{Documents, Patched, ignored, apply_patch}

-- `WriteReport`, less the path.
pub record WriteReport : Type 0 where
  pub created_from_template : Bool
  pub backup_path : Option Text
  pub changed_keys : List Text
  pub shadowed : List Text

abbrev pub live_session_refusal : SessionBlock → SabrageError
live_session_refusal b = SabrageError.invalid_input (Message.live_config b.reason b.bottle)

abbrev pub refuse_block : Option SessionBlock → C (Unit {0})
refuse_block none = pure tt
refuse_block (some b) = throw (live_session_refusal b)

-- The door: nothing is written while a session is live.
unfoldable pub refuse_live : SiteEnv → C (Unit {0})
refuse_live e = do b ← blocking_session e; refuse_block b

-- The polls of `lock_toml`: `TOML_LOCK_WAIT` over `TOML_LOCK_POLL`, and the first.
abbrev pub lock_polls : ℕ
lock_polls = 41

unfoldable pub lock_toml : SiteEnv → ℕ → C Bool
lock_toml e zero = pure false
lock_toml e (suc n) = do s ← look e; elim s.locked [ false ↦ pure true | true ↦ lock_toml e n ]

unfoldable pub lock_unless_dry : SiteEnv → C Bool
lock_unless_dry e = if e.dry_run then pure false else lock_toml e lock_polls

abbrev pub changed_underneath : SabrageError
changed_underneath = SabrageError.invalid_input Message.changed_on_disk

unfoldable pub compare_bytes : SiteEnv → Text → C (Unit {0})
compare_bytes e base = do
  now ← read_toml e
  if text_eq now base then pure tt else throw changed_underneath

-- `still_safe_to_replace`
unfoldable pub still_safe_to_replace : SiteEnv → Text → C (Unit {0})
still_safe_to_replace e base = do refuse_live e; if e.dry_run then pure tt else compare_bytes e base

-- The text that the patch is computed against, and whether the file was there.
pub record BaseText : Type 0 where
  pub text : Text
  pub exists : Bool

unfoldable pub read_base : SiteEnv → C BaseText
read_base e = do t ← read_toml e; pure (record { text = t; exists = true })

-- A file that is not there is created from the template; a lost race is read.
unfoldable pub create_base : SiteEnv → Text → C BaseText
create_base e template = do
  created ← create_new e (create_toml template)
  if created then pure (record { text = template; exists = false }) else read_base e

unfoldable pub is_file : SiteEnv → C Bool
is_file e = do s ← look e; pure (is_some s.toml)

unfoldable pub probe_again : SiteEnv → Bool → C Bool
probe_again e true = pure true
probe_again e false = op e make_dir >> is_file e

unfoldable pub load_base : SiteEnv → Text → C BaseText
load_base e template = do
  there ← is_file e
  exists ← probe_again e there
  if exists then read_base e else create_base e template

-- `reserve_backup_path`, for as many rounds as the fuel: a loop that has not ended by then is one
-- that only a cancellation of the task ends.
unfoldable pub reserve_backup_path : SiteEnv → Text → ℕ → C Text
reserve_backup_path e bytes zero = throw SabrageError.cancelled
reserve_backup_path e bytes (suc fuel) = do
  s ← look e
  elim (next_backup_path e.unix_secs s.backups) [
    | none ↦ throw SabrageError.cancelled
    | some name ↦ do
      created ← create_new e (create_backup name bytes)
      elim created [ true ↦ pure name | false ↦ reserve_backup_path e bytes fuel ]
  ]

-- The backup and the names to remove once the write is there.
pub record Reserved : Type 0 where
  pub backup : Option Text
  pub stale : List Text

unfoldable pub reserve : SiteEnv → BaseText → ℕ → C Reserved
reserve e base fuel =
    if base.exists
    then (do
      s ← look e
      op e make_dir
      backup ← reserve_backup_path e base.text fuel
      pure (record { backup = some backup; stale = stale_names s.backups }))
    else pure (record { backup = none; stale = [] })

-- The second look, and the replacement.
unfoldable pub commit : SiteEnv → Text → Text → C (Unit {0})
commit e base new = do still_safe_to_replace e base; op e (write_toml new)

abbrev pub unreserve : SiteEnv → Option Text → C (Unit {0})
unreserve e none = pure tt
unreserve e (some name) = attempt (op e (remove_backup name)) >> pure tt

abbrev pub prune : SiteEnv → List Text → C (Unit {0})
prune e [] = pure tt
prune e (name ∷ names) = attempt (op e (remove_backup name)) >> prune e names

unfoldable pub settle : SiteEnv → Reserved → WriteReport → Result (Unit {0}) → C WriteReport
settle e r report (err x) = unreserve e r.backup >> throw x
settle e r report (ok u) = prune e r.stale >> pure report

abbrev pub report_of : BaseText → Patched → Option Text → WriteReport
report_of base p backup = record {
  created_from_template = not base.exists;
  backup_path = backup;
  changed_keys = p.changed_keys;
  shadowed = p.shadowed;
}

unfoldable pub replace : SiteEnv → BaseText → Patched → ℕ → C WriteReport
replace e base p fuel = do
  still_safe_to_replace e base.text
  r ← reserve e base fuel
  committed ← attempt (commit e base.text p.text)
  settle e r (report_of base p r.backup) committed

unfoldable pub write_patched : SiteEnv → BaseText → Result Patched → ℕ → C WriteReport
write_patched e base (err x) fuel = throw x
write_patched e base (ok p) fuel =
    if is_empty p.changed_keys then pure (report_of base p none) else replace e base p fuel

module _ {F D : Type 0} (fl : Floats F) (docs : Documents F D) (template : Text) where
  abbrev pub write_valid : SiteEnv → RuntimeConfigValues F → ℕ → List InvalidValue → C WriteReport
  write_valid e patch fuel (b ∷ bad) = throw (ignored (b ∷ bad))
  write_valid e patch fuel [] = do
    refuse_live e
    lock_unless_dry e
    base ← load_base e template
    write_patched e base (apply_patch docs fl base.text patch) fuel

  -- `write`
  unfoldable pub write : SiteEnv → RuntimeConfigValues F → ℕ → C WriteReport
  write e patch fuel = write_valid e patch fuel (validate fl patch)
