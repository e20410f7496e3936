-- ===== src/Config/Setting/Accepted.antt =====
-- config/runtime_toml.rs: what a setting that was read or stored is.
use wine_vr.Prelude.{◌≡◌, none, some, Text, text_eq, arith, if◌then◌else◌}
use wine_vr.Config.Value.{Key, key_text, Floats, in_bitrate_range, is_refresh_rate, unquote}
use wine_vr.Config.Setting.{
  Setting, RuntimeConfigValues, key, from_patch, apply, parsed, read_as, read_raw, out_of_range,
}

module _ {F : Type 0} where
  -- A setting that is stored is the one that its key holds.
  pub from_patch-apply :
      (k : Key) (s : Setting F) (v : RuntimeConfigValues F)
      → from_patch k (apply s v)
        ≡ (if text_eq (key_text k) (key_text (key s)) then some s else from_patch k v)
  from_patch-apply k s v = ground arith

  module _ (fl : Floats F) where
    -- `read_raw` at a key of the six.
    pub read_raw_lem :
        (k : Key) (raw : Text)
        → read_raw fl (key_text k) raw ≡ read_as k raw (parsed fl k (unquote raw))
    unfolding read_raw
    read_raw_lem k raw = ground arith

    pub parsed-key : (k : Key) (s : Text) (x : Setting F) → parsed fl k s ≡ some x → key x ≡ k
    parsed-key k s x e = ground arith

    pub parsed-accepted :
        (k : Key) (s : Text) (x : Setting F) → parsed fl k s ≡ some x → out_of_range fl x ≡ none
    unfolding out_of_range in_bitrate_range is_refresh_rate
    parsed-accepted k s x e = ground arith
