-- ===== src/Tests/Editing.antt =====
-- Patches written to a configuration file, with other processes at work.
use wine_vr.Prelude.{
  ◌≡◌, refl, ℕ, true, false, none, some, inl, [], ◌∷◌, ◌++◌, ◌==◌, length, Text, codes, arith, leb,
  if◌then◌else◌,
}
use wine_vr.Host.Error.{Message, SabrageError, ok, err}
use wine_vr.Host.Effect.{pure, throw, ◌>>=◌, attempt}
use wine_vr.Host.World.{done}
use wine_vr.Config.Value.{Key, key_text, oxrsys, decimal_of}
use wine_vr.Config.Setting.{RuntimeConfigValues, no_values, validate, out_of_range}
use wine_vr.Config.Reader.{assignment, raw_assignments, hits}
use wine_vr.Config.Shape.{shape_of, restore}
use wine_vr.Config.Patch.{Value, Documents, Patched, line_document_mismatch, patch_key, apply_patch}
use wine_vr.Config.Patch.Checked.{Applied, apply_patch-Applied}
use wine_vr.Config.Site.{
  SiteEnv, SiteWorld, look, blocking_session, read_toml, real_op, op, link_new, create_new,
}
use wine_vr.Config.Backups.{next_backup_path, first_name, list_backups, stale_names}
use wine_vr.Config.Write.{
  WriteReport, refuse_live, lock_toml, lock_unless_dry, compare_bytes, still_safe_to_replace,
  read_base, is_file, probe_again, load_base, reserve_backup_path, reserve, commit, settle, replace,
  write_patched, write,
}
use wine_vr.Config.Write.Log.{LogAllowed}
use wine_vr.Config.Write.Steps.{Unreplaced}
use wine_vr.Config.Write.Outcome.{Makes, Outcome, write-LogAllowed, write-failed, write-Outcome}
use wine_vr.Config.Write.Settled.{Settles, Made, reserve_backup_path-Made}
use wine_vr.Tests.Configuration.{hundredths, two_lines}

-- Documents that add a line for an edit.
abbrev added : Text → Key → Value ℕ → Text
added doc k (Value.string_value s) = doc ++ key_text k ++ codes " = \"" ++ s ++ codes "\"\n"
added doc k v = doc ++ key_text k ++ codes " = 72\n"

abbrev appending : Documents ℕ Text
appending = record {
  parse = λ s. inl s;
  render = λ d. d;
  occurrences = λ d k. length (hits (key_text k) (raw_assignments d));
  edit_last = λ d k v. some (true, added d k v);
  insert = λ d k v. ok (true, added d k v);
}

abbrev to_oxrsys : RuntimeConfigValues ℕ
to_oxrsys = record no_values { protocol = some oxrsys }

abbrev after_patch : Patched
after_patch = record {
  text = two_lines ++ codes "protocol = \"oxrsys\"\n";
  changed_keys = codes "protocol" ∷ [];
  shadowed = codes "protocol" ∷ [];
}

apply_patch_test : apply_patch appending hundredths two_lines to_oxrsys ≡ ok after_patch
unfolding apply_patch validate out_of_range line_document_mismatch patch_key raw_assignments
    assignment shape_of restore
apply_patch_test = refl

apply_patch-Applied_example : Applied appending hundredths two_lines to_oxrsys after_patch
apply_patch-Applied_example =
    apply_patch-Applied appending hundredths two_lines to_oxrsys after_patch apply_patch_test

abbrev calm : SiteEnv
calm = record {
  dry_run = false;
  unix_secs = 7;
  others = λ t s. s;
  answer = λ t a. done;
  unread = λ t. none;
  not_found = SabrageError.io "oxrsys-runtime.toml";
}

abbrev start : SiteWorld
start = record {
  site = record { toml = some two_lines; backups = []; block = none; locked = false };
  tick = 0;
  log = [];
}

abbrev saved_report : WriteReport
saved_report = record {
  created_from_template = false;
  backup_path = some (first_name 7);
  changed_keys = codes "protocol" ∷ [];
  shadowed = codes "protocol" ∷ [];
}

write_test : (write hundredths appending [] calm to_oxrsys 3 start).0 ≡ ok saved_report
unfolding write validate out_of_range refuse_live blocking_session lock_unless_dry lock_toml
    load_base is_file look probe_again read_base read_toml write_patched apply_patch
    line_document_mismatch patch_key raw_assignments assignment shape_of restore replace
    still_safe_to_replace compare_bytes reserve op real_op reserve_backup_path next_backup_path
    create_new link_new commit settle pure throw attempt decimal_of stale_names list_backups ◌>>=◌
write_test = refl

write-LogAllowed_example :
    LogAllowed
      (Makes hundredths appending to_oxrsys)
      []
      (write hundredths appending [] calm to_oxrsys 3 start).1.log
write-LogAllowed_example = write-LogAllowed hundredths appending to_oxrsys [] calm refl 3 start refl

write-Outcome_example :
    Outcome hundredths appending to_oxrsys saved_report
      (write hundredths appending [] calm to_oxrsys 3 start).1.log
write-Outcome_example =
    write-Outcome hundredths appending to_oxrsys [] calm refl 3 start refl saved_report write_test

-- Another process empties the file before the second look.
abbrev busy : SiteEnv
busy = record calm { others = λ t s. if leb 5 t then record s { toml = some [] } else s }

refused_test :
    (write hundredths appending [] busy to_oxrsys 3 start).0
    ≡ err (SabrageError.invalid_input Message.changed_on_disk)
unfolding write validate out_of_range refuse_live blocking_session lock_unless_dry lock_toml
    load_base is_file look probe_again read_base read_toml write_patched apply_patch
    line_document_mismatch patch_key raw_assignments assignment shape_of restore replace
    still_safe_to_replace compare_bytes reserve op real_op reserve_backup_path next_backup_path
    create_new link_new commit settle pure throw attempt decimal_of stale_names list_backups ◌>>=◌
refused_test = refl

write-failed_example : Unreplaced (write hundredths appending [] busy to_oxrsys 3 start).1.log
write-failed_example =
    write-failed hundredths appending to_oxrsys [] busy refl 3 start refl
      (SabrageError.invalid_input Message.changed_on_disk) refused_test

abbrev dry : SiteEnv
dry = record calm { dry_run = true }

-- Another process takes the first name right before it is tried.
abbrev racing : SiteEnv
racing = record calm {
  others = λ t s. if t == 1 then record s { backups = (first_name 7, []) ∷ [] } else s;
}

racing-Settles : Settles racing 2
racing-Settles = record {
  real = refl;
  done_all = λ t a. refl;
  quiet = λ t s h. ground arith;
  few = λ t s h. ground arith;
}

reserve_backup_path-Made_example :
    Made two_lines
      (reserve_backup_path racing two_lines 3 start).0
      (reserve_backup_path racing two_lines 3 start).1
reserve_backup_path-Made_example =
    reserve_backup_path-Made racing 2 racing-Settles two_lines 3 start (ground arith) (ground arith)
      (ground arith)
