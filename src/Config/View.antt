-- ===== src/Config/View.antt =====
-- config/runtime_toml.rs: what the settings screen is shown of the file.
use wine_vr.Prelude.{
  arith, ◌≡◌, refl, String, Bool, true, false, Option, none, some, ◌⊎◌, inl, inr, List, [], ◌∷◌,
  Text,
}
use wine_vr.Host.Error.{Message, ok}
use wine_vr.Config.Value.{Key, editable_keys, Floats, oxrsys, h265, EncoderProcess}
use wine_vr.Config.Setting.{InvalidValue, RuntimeConfigValues, no_values}
use wine_vr.Config.Reader.{read_lines_like_the_runtime}
use wine_vr.Config.Shape.{strip_bom}
use wine_vr.Config.Patch.{Documents, Patched, mismatches, line_document_mismatch, apply_patch}
use wine_vr.Config.Patch.Checked.{apply_patch-Applied, AllAgree}

-- `RuntimeConfigView`, less the path and its time.
pub record RuntimeConfigView (F : Type 0) : Type 0 where
  pub exists : Bool
  pub values : RuntimeConfigValues F
  pub defaults : RuntimeConfigValues F
  pub invalid : List InvalidValue
  pub shadowed : List Text
  pub parse_error : Option Message

module _ {F D : Type 0} (docs : Documents F D) where
  abbrev pub error_of : Text → D ⊎ String → Option Message
  error_of text (inl doc) = line_document_mismatch docs doc text
  error_of text (inr e) = some (Message.not_valid_toml e)

  -- `round_trip_error`
  unfoldable pub round_trip_error : Text → Option Message
  round_trip_error text = error_of text (docs.parse (strip_bom text))

  module _ (fl : Floats F) (three_quarters : F) where
    -- `runtime_defaults`
    abbrev pub runtime_defaults : RuntimeConfigValues F
    runtime_defaults = record {
      protocol = some oxrsys;
      bitrate_mbps = some 50;
      encoder_process = some EncoderProcess.auto;
      video_codec = some h265;
      resolution_scale = some three_quarters;
      refresh_rate_hz = some 72;
    }

    abbrev pub empty_view : Bool → RuntimeConfigView F
    empty_view exists = record {
      exists = exists;
      values = no_values;
      defaults = runtime_defaults;
      invalid = [];
      shadowed = [];
      parse_error = none;
    }

    -- `RuntimeConfigView::fill_from`
    unfoldable pub fill_from : Text → RuntimeConfigView F → RuntimeConfigView F
    fill_from text view =
        let r = read_lines_like_the_runtime fl text in
        record view {
          values = r.values;
          invalid = r.invalid;
          shadowed = r.shadowed;
          parse_error = round_trip_error text;
        }

    -- `read`, of a file that is there with the result of reading it, or that is not.
    unfoldable pub read_view : Option (Text ⊎ Message) → RuntimeConfigView F
    read_view none = empty_view false
    read_view (some (inr e)) = record (empty_view true) { parse_error = some e }
    read_view (some (inl text)) = fill_from text (empty_view true)

  AllAgree-mismatches :
      (doc : D) (text : Text) (ks : List Key)
      → AllAgree docs doc text ks
      → mismatches docs doc text ks ≡ none
  AllAgree-mismatches doc text [] h = refl
  AllAgree-mismatches doc text (k ∷ ks) h = ground (arith, h.0, AllAgree-mismatches doc text ks h.1)

  -- A text that a patch can be applied to is shown without an error.
  pub round_trip_error-apply_patch :
      (fl : Floats F) (text : Text) (patch : RuntimeConfigValues F) (p : Patched)
      → apply_patch docs fl text patch ≡ ok p
      → round_trip_error text ≡ none
  unfolding round_trip_error line_document_mismatch
  round_trip_error-apply_patch fl text patch p k =
      let a = apply_patch-Applied docs fl text patch p k in
      rw a.2 (AllAgree-mismatches a.0 text editable_keys a.3)
