-- ===== src/Config/Patch.antt =====
-- config/runtime_toml.rs: a patch on the text of the configuration.
pub mod Checked
use wine_vr.Prelude.{
  ℕ, zero, suc, String, Bool, true, false, Option, none, some, ◌⊎◌, inl, inr, List, [], ◌∷◌, ◌++◌,
  map, ltb, length, is_empty, Text, if◌then◌else◌,
}
use wine_vr.Host.Error.{Message, SabrageError, Result, ok, err, and_then}
use wine_vr.Config.Value.{
  Key, editable_keys, key_text, Floats, protocol_text, codec_text, process_text,
}
use wine_vr.Config.Setting.{Setting, InvalidValue, RuntimeConfigValues, from_patch, validate}
use wine_vr.Config.Reader.{hits, raw_assignments}
use wine_vr.Config.Shape.{strip_bom, shape_of, restore}

-- The values of `toml_edit` that the code makes.
pub data Value (F : Type 0) : Type 0 where
  string_value : Text → Value F
  integer : ℕ → Value F
  float : F → Value F

-- `toml_edit`'s documents, with what the code does to one through its tables: how often a key is
-- assigned where the runtime sees it, the edit of the last of these, and the insertion of a key
-- that is nowhere. `edit_last` returns nothing where the table is lost.
pub record Documents (F D : Type 0) : Type 0 where
  pub parse : Text → D ⊎ String
  pub render : D → Text
  pub occurrences : D → Key → ℕ
  pub edit_last : D → Key → Value F → Option (Bool × D)
  pub insert : D → Key → Value F → Result (Bool × D)

-- `Patched`
pub record Patched : Type 0 where
  pub text : Text
  pub changed_keys : List Text
  pub shadowed : List Text

-- The state of the loop of `apply_patch`.
pub record Edits (D : Type 0) : Type 0 where
  pub doc : D
  pub changed : List Text
  pub shadowed : List Text

abbrev pub invalid_row : InvalidValue → Text × Text × Text
invalid_row b = (b.key, b.raw, b.reason)

-- The refusal of a patch with values that the runtime would ignore.
abbrev pub ignored : List InvalidValue → SabrageError
ignored bad = SabrageError.invalid_input (Message.ignored_values (map invalid_row bad))

abbrev pub key_mismatch : Text → ℕ → ℕ → Option Message
key_mismatch name physical parsed =
    if ltb parsed physical
    then some (Message.string_content name)
    else if ltb physical parsed
    then some (Message.unseen_line name)
    else none

abbrev pub note_edit : {D : Type 0} → Key → List Text → Bool × D → Edits D → Edits D
note_edit k shadowed (changed, doc) e = record {
  doc = doc;
  changed = if changed then e.changed ++ key_text k ∷ [] else e.changed;
  shadowed = shadowed;
}

module _ {F : Type 0} where
  -- `Setting::to_value`
  abbrev pub to_value : Setting F → Value F
  to_value (Setting.set_protocol p) = string_value (protocol_text p)
  to_value (Setting.set_codec c) = string_value (codec_text c)
  to_value (Setting.set_process e) = string_value (process_text e)
  to_value (Setting.set_bitrate n) = integer n
  to_value (Setting.set_refresh n) = integer n
  to_value (Setting.set_scale f) = float f

  module _ {D : Type 0} (docs : Documents F D) where
    abbrev pub mismatches : D → Text → List Key → Option Message
    mismatches doc text [] = none
    mismatches doc text (k ∷ ks) =
        let rest = mismatches doc text ks in
        let physical = length (hits (key_text k) (raw_assignments text)) in
        elim (key_mismatch (key_text k) physical (docs.occurrences doc k)) [
          | none ↦ rest
          | some why ↦ some why
        ]

    -- `line_document_mismatch`
    unfoldable pub line_document_mismatch : D → Text → Option Message
    line_document_mismatch doc text = mismatches doc text editable_keys

    abbrev pub edited : Key → D → Value F → ℕ → Result (Bool × D)
    edited k doc new zero = docs.insert doc k new
    edited k doc new (suc n) = elim (docs.edit_last doc k new) [
      | none ↦ err (SabrageError.invalid_input (Message.lost_table (key_text k)))
      | some r ↦ ok r
    ]

    -- One turn of the loop of `apply_patch`.
    unfoldable pub patch_key : Key → Option (Setting F) → Edits D → Result (Edits D)
    patch_key k none e = ok e
    patch_key k (some s) e =
        let count = docs.occurrences e.doc k in
        let shadowed = if ltb 1 count then e.shadowed ++ key_text k ∷ [] else e.shadowed in
        and_then (edited k e.doc (to_value s) count) (λ r. ok (note_edit k shadowed r e))

    abbrev pub patch_keys : RuntimeConfigValues F → List Key → Edits D → Result (Edits D)
    patch_keys patch [] e = ok e
    patch_keys patch (k ∷ ks) e =
        and_then (patch_key k (from_patch k patch) e) (patch_keys patch ks)

    -- The text is the one that was there where no key changed.
    abbrev pub patched : Text → Edits D → Patched
    patched text e = record {
      text = if is_empty e.changed then text else restore (shape_of text) (docs.render e.doc);
      changed_keys = e.changed;
      shadowed = e.shadowed;
    }

    abbrev pub patch_matched : Text → RuntimeConfigValues F → D → Option Message → Result Patched
    patch_matched text patch doc (some why) =
        err (SabrageError.invalid_input (Message.refusing_rewrite why))
    patch_matched text patch doc none =
        and_then
          (patch_keys patch editable_keys (record { doc = doc; changed = []; shadowed = [] }))
          (λ e. ok (patched text e))

    abbrev pub patch_parsed : Text → RuntimeConfigValues F → D ⊎ String → Result Patched
    patch_parsed text patch (inr e) = err (SabrageError.invalid_input (Message.not_valid_toml e))
    patch_parsed text patch (inl doc) =
        patch_matched text patch doc (line_document_mismatch doc text)

    abbrev pub patch_valid : Text → RuntimeConfigValues F → List InvalidValue → Result Patched
    patch_valid text patch (b ∷ bad) = err (ignored (b ∷ bad))
    patch_valid text patch [] = patch_parsed text patch (docs.parse (strip_bom text))

    -- `apply_patch`
    unfoldable pub apply_patch : Floats F → Text → RuntimeConfigValues F → Result Patched
    apply_patch fl text patch = patch_valid text patch (validate fl patch)
