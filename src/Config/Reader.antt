-- ===== src/Config/Reader.antt =====
-- config/runtime_toml.rs: the reader of the configuration's lines, as the runtime reads them.
pub mod Effective
pub mod Bounds
use mathlib.Core.Option.{map as option_map}
use wine_vr.Prelude.{
  ℕ, Bool, true, false, not, ◌&&◌, ◌||◌, Option, none, some, List, [], ◌∷◌, ◌++◌, map, ◌==◌, ltb,
  any, length, is_empty, Text, text_eq, trim, split_once, lines, starts_with, last, filter_map,
  if◌then◌else◌,
}
use wine_vr.Config.Value.{Key, editable_keys, key_text, Floats, unquote}
use wine_vr.Config.Setting.{
  Setting, Read, read_ok, read_err, InvalidValue, invalid_eq, RuntimeConfigValues, no_values, apply,
  read_raw, runtime_string,
}

-- The text before the `#` that opens a comment, where `in_string` tells a quoted string apart.
abbrev pub strip_from : Bool → Text → Text
strip_from in_string [] = []
strip_from in_string (c ∷ s) = elim (c == b'"') [
  | true ↦ c ∷ strip_from (not in_string) s
  | false ↦ elim (c == b'#' && not in_string) [ true ↦ [] | false ↦ c ∷ strip_from in_string s ]
]

-- `strip_comment`
abbrev pub strip_comment : Text → Text
strip_comment line = strip_from false line

abbrev pub trim_both : Text × Text → Text × Text
trim_both (k, v) = (trim k, trim v)

-- `raw_assignments`, at one line.
unfoldable pub assignment : Text → Option (Text × Text)
assignment text =
    let line = trim (strip_comment text) in
    if is_empty line || starts_with (b'[' ∷ []) line
    then none
    else option_map trim_both (split_once b'=' line)

-- `raw_assignments`
unfoldable pub raw_assignments : Text → List (Text × Text)
raw_assignments text = filter_map assignment (lines text)

abbrev pub value_of : Text → Text × Text → Option Text
value_of name (k, v) = if text_eq k name then some v else none

-- The values that the assignments of one key have, in physical order.
abbrev pub hits : Text → List (Text × Text) → List Text
hits name seen = filter_map (value_of name) seen

-- The state of `read_lines_like_the_runtime`.
pub record Reading (F : Type 0) : Type 0 where
  pub values : RuntimeConfigValues F
  pub invalid : List InvalidValue
  pub shadowed : List Text

module _ {F : Type 0} where
  abbrev pub no_reading : Reading F
  no_reading = record { values = no_values; invalid = []; shadowed = [] }

  -- What one occurrence does to the reading.
  abbrev pub take_read : Read F → Reading F → Reading F
  take_read (read_ok (some s)) r = record r { values = apply s r.values }
  take_read (read_ok none) r = r
  take_read (read_err bad) r =
      if any (invalid_eq bad) r.invalid then r else record r { invalid = r.invalid ++ bad ∷ [] }

  abbrev pub note_shadowed : Text → ℕ → Reading F → Reading F
  note_shadowed name count r =
      if ltb 1 count then record r { shadowed = r.shadowed ++ name ∷ [] } else r

  abbrev pub setting_of : Read F → Option (Setting F)
  setting_of (read_ok s) = s
  setting_of (read_err bad) = none

  module _ (fl : Floats F) where
    abbrev pub read_hits : Text → List Text → Reading F → Reading F
    read_hits name [] r = r
    read_hits name (raw ∷ raws) r = read_hits name raws (take_read (read_raw fl name raw) r)

    -- One turn of the loop over the editable keys.
    unfoldable pub read_key : List (Text × Text) → Key → Reading F → Reading F
    read_key seen k r =
        let raws = hits (key_text k) seen in
        note_shadowed (key_text k) (length raws) (read_hits (key_text k) raws r)

    abbrev pub read_keys : List (Text × Text) → List Key → Reading F → Reading F
    read_keys seen [] r = r
    read_keys seen (k ∷ ks) r = read_keys seen ks (read_key seen k r)

    -- `read_lines_like_the_runtime`
    unfoldable pub read_lines_like_the_runtime : Text → Reading F
    read_lines_like_the_runtime text = read_keys (raw_assignments text) editable_keys no_reading

    -- `effective_accepted`
    unfoldable pub effective_accepted : Text → Text → Option Text
    effective_accepted text name = last (
        map (runtime_string fl) (
          filter_map (λ raw. setting_of (read_raw fl name raw)) (hits name (raw_assignments text))))

-- `effective_string`
unfoldable pub effective_string : Text → Text → Option Text
effective_string text name = last (map unquote (hits name (raw_assignments text)))
