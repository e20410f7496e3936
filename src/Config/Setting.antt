-- ===== src/Config/Setting.antt =====
-- config/runtime_toml.rs: one accepted assignment of one editable key.
pub mod Accepted
pub mod Spelling
use mathlib.Core.Option.{map as option_map}
use wine_vr.Prelude.{
  ℕ, Bool, true, false, not, ◌&&◌, Option, none, some, List, [], ◌∷◌, ◌==◌, any, Text, codes,
  text_eq, filter_map, filter, if◌then◌else◌,
}
use wine_vr.Config.Value.{
  Key, editable_keys, key_text, Protocol, VideoCodec, EncoderProcess, protocol_text, codec_text,
  process_text, parse_protocol, parse_codec, parse_process, Floats, Signed, stoi, float_prefix,
  in_bitrate_range, refresh_rates, is_refresh_rate, unsigned, decimal, unquote,
}

pub record InvalidValue : Type 0 where
  pub key : Text
  pub raw : Text
  pub reason : Text

abbrev pub invalid_eq : InvalidValue → InvalidValue → Bool
invalid_eq a b = text_eq a.key b.key && text_eq a.raw b.raw && text_eq a.reason b.reason

-- `accepted`
abbrev pub accepted : Key → Text
accepted Key.protocol = codes "expected \"alvr\" or \"oxrsys\""
accepted Key.video_codec = codes "expected \"auto\", \"h265\" or \"h264\""
accepted Key.encoder_process = codes "expected \"auto\", \"native\" or \"inproc\""
accepted Key.bitrate_mbps = codes "expected an integer 1..=200"
accepted Key.refresh_rate_hz = codes "expected one of 60, 72, 80, 90, 120"
accepted Key.resolution_scale = codes "expected a number 0.25..=1"

pub data Setting (F : Type 0) : Type 0 where
  set_protocol : Protocol → Setting F
  set_codec : VideoCodec → Setting F
  set_process : EncoderProcess → Setting F
  set_bitrate : ℕ → Setting F
  set_refresh : ℕ → Setting F
  set_scale : F → Setting F

-- `Result<Option<Setting>, InvalidValue>`
pub data Read (F : Type 0) : Type 0 where
  read_ok : Option (Setting F) → Read F
  read_err : InvalidValue → Read F

-- `RuntimeConfigValues`, and the patch, which has its shape.
pub record RuntimeConfigValues (F : Type 0) : Type 0 where
  pub protocol : Option Protocol
  pub bitrate_mbps : Option ℕ
  pub encoder_process : Option EncoderProcess
  pub video_codec : Option VideoCodec
  pub resolution_scale : Option F
  pub refresh_rate_hz : Option ℕ

abbrev pub key_named : Text → List Key → Option Key
key_named name [] = none
key_named name (k ∷ ks) =
    let rest = key_named name ks in if text_eq name (key_text k) then some k else rest

module _ {F : Type 0} where
  abbrev pub no_values : RuntimeConfigValues F
  no_values = record {
    protocol = none;
    bitrate_mbps = none;
    encoder_process = none;
    video_codec = none;
    resolution_scale = none;
    refresh_rate_hz = none;
  }

  abbrev pub key : Setting F → Key
  key (set_protocol p) = Key.protocol
  key (set_codec c) = Key.video_codec
  key (set_process e) = Key.encoder_process
  key (set_bitrate n) = Key.bitrate_mbps
  key (set_refresh n) = Key.refresh_rate_hz
  key (set_scale f) = Key.resolution_scale

  -- `Setting::from_patch`
  abbrev pub from_patch : Key → RuntimeConfigValues F → Option (Setting F)
  from_patch Key.protocol v = option_map set_protocol v.protocol
  from_patch Key.bitrate_mbps v = option_map set_bitrate v.bitrate_mbps
  from_patch Key.encoder_process v = option_map set_process v.encoder_process
  from_patch Key.video_codec v = option_map set_codec v.video_codec
  from_patch Key.resolution_scale v = option_map set_scale v.resolution_scale
  from_patch Key.refresh_rate_hz v = option_map set_refresh v.refresh_rate_hz

  -- `Setting::apply`
  abbrev pub apply : Setting F → RuntimeConfigValues F → RuntimeConfigValues F
  apply (set_protocol p) v = record v { protocol = some p }
  apply (set_codec c) v = record v { video_codec = some c }
  apply (set_process e) v = record v { encoder_process = some e }
  apply (set_bitrate n) v = record v { bitrate_mbps = some n }
  apply (set_refresh n) v = record v { refresh_rate_hz = some n }
  apply (set_scale f) v = record v { resolution_scale = some f }

  abbrev pub read_as : Key → Text → Option (Setting F) → Read F
  read_as k raw none = read_err (record { key = key_text k; raw = raw; reason = accepted k })
  read_as k raw (some s) = read_ok (some s)

  abbrev complain : Setting F → Text → Option InvalidValue
  complain s raw = some (record { key = key_text (key s); raw = raw; reason = accepted (key s) })

  module _ (fl : Floats F) where
    -- `in_scale_range`
    unfoldable pub in_scale_range : F → Bool
    in_scale_range f =
        let n = fl.narrow f in fl.is_finite n && fl.le fl.scale_low n && fl.le n fl.scale_high

    -- `stof`
    unfoldable pub stof : Text → Option F
    stof s = elim (float_prefix s) [ none ↦ none | some p ↦ fl.parse p ]

    -- The value of `read_raw` for a key of the six, of the text without its quotes.
    abbrev pub parsed : Key → Text → Option (Setting F)
    parsed Key.protocol s = option_map set_protocol (parse_protocol s)
    parsed Key.video_codec s = option_map set_codec (parse_codec s)
    parsed Key.encoder_process s = option_map set_process (parse_process s)
    parsed Key.bitrate_mbps s =
        option_map (λ n. set_bitrate n.magnitude) (filter in_bitrate_range (stoi s))
    parsed Key.refresh_rate_hz s =
        option_map (λ n. set_refresh n.magnitude) (filter is_refresh_rate (stoi s))
    parsed Key.resolution_scale s = option_map set_scale (filter in_scale_range (stof s))

    -- `Setting::read_raw`
    unfoldable pub read_raw : Text → Text → Read F
    read_raw name raw = elim (key_named name editable_keys) [
      | none ↦ read_ok none
      | some k ↦ read_as k raw (parsed k (unquote raw))
    ]

    -- `Setting::out_of_range`
    unfoldable pub out_of_range : Setting F → Option InvalidValue
    out_of_range (set_bitrate n) =
        if not (in_bitrate_range (unsigned n)) then complain (set_bitrate n) (decimal n) else none
    out_of_range (set_refresh n) =
        if not (any (λ r. r == n) refresh_rates) then complain (set_refresh n) (decimal n) else none
    out_of_range (set_scale f) =
        if not (in_scale_range f) then complain (set_scale f) (fl.show f) else none
    out_of_range _ = none

    -- `Setting::runtime_string`
    abbrev pub runtime_string : Setting F → Text
    runtime_string (set_protocol p) = protocol_text p
    runtime_string (set_codec c) = codec_text c
    runtime_string (set_process e) = process_text e
    runtime_string (set_bitrate n) = decimal n
    runtime_string (set_refresh n) = decimal n
    runtime_string (set_scale f) = fl.show f

    -- `validate`
    unfoldable pub validate : RuntimeConfigValues F → List InvalidValue
    validate patch = filter_map out_of_range (filter_map (λ k. from_patch k patch) editable_keys)
