-- ===== src/Config/Value.antt =====
-- config/runtime_toml.rs: the six keys that Sabrage edits, the spellings of their values, and the
-- numbers that the runtime reads.
use Prim.Native.Nat.{◌+◌, ◌*◌, ◌-◌, ◌/◌, ◌%◌}
use wine_vr.Prelude.{
  ℕ, zero, suc, Bool, true, false, not, ◌&&◌, ◌||◌, Option, none, some, List, [], ◌∷◌, ◌++◌, ◌==◌,
  leb, ltb, any, is_empty, Text, codes, text_eq, is_digit, last_or, drop_last, if◌then◌else◌,
}

-- `EDITABLE_KEYS`
pub data Key : Type 0 where
  protocol bitrate_mbps encoder_process video_codec resolution_scale refresh_rate_hz : Key

abbrev pub editable_keys : List Key
editable_keys =
    protocol ∷ bitrate_mbps ∷ encoder_process ∷ video_codec ∷ resolution_scale ∷ refresh_rate_hz
    ∷ []

abbrev pub key_text : Key → Text
key_text protocol = codes "protocol"
key_text bitrate_mbps = codes "bitrate_mbps"
key_text encoder_process = codes "encoder_process"
key_text video_codec = codes "video_codec"
key_text resolution_scale = codes "resolution_scale"
key_text refresh_rate_hz = codes "refresh_rate_hz"

pub data Protocol : Type 0 where
  alvr oxrsys : Protocol

pub data VideoCodec : Type 0 where
  auto h265 h264 : VideoCodec

pub data EncoderProcess : Type 0 where
  auto native inproc : EncoderProcess

abbrev pub protocol_text : Protocol → Text
protocol_text alvr = codes "alvr"
protocol_text oxrsys = codes "oxrsys"

abbrev pub codec_text : VideoCodec → Text
codec_text VideoCodec.auto = codes "auto"
codec_text h265 = codes "h265"
codec_text h264 = codes "h264"

abbrev pub process_text : EncoderProcess → Text
process_text EncoderProcess.auto = codes "auto"
process_text native = codes "native"
process_text inproc = codes "inproc"

unfoldable pub parse_protocol : Text → Option Protocol
parse_protocol s =
    if text_eq s (codes "alvr")
    then some alvr
    else if text_eq s (codes "oxrsys")
    then some oxrsys
    else none

unfoldable pub parse_codec : Text → Option VideoCodec
parse_codec s =
    if text_eq s (codes "auto")
    then some VideoCodec.auto
    else if text_eq s (codes "h265")
    then some h265
    else if text_eq s (codes "h264")
    then some h264
    else none

unfoldable pub parse_process : Text → Option EncoderProcess
parse_process s =
    if text_eq s (codes "auto")
    then some EncoderProcess.auto
    else if text_eq s (codes "native")
    then some native
    else if text_eq s (codes "inproc")
    then some inproc
    else none

-- What the code uses of `f64`: parsing, printing, the passage through `f32` and back, comparison, and
-- the constants of `RESOLUTION_SCALE_RANGE`.
pub record Floats (F : Type 0) : Type 0 where
  pub parse : Text → Option F
  pub show : F → Text
  pub narrow : F → F
  pub is_finite : F → Bool
  pub le : F → F → Bool
  pub scale_low : F
  pub scale_high : F

-- `i64`, as its sign and magnitude.
pub record Signed : Type 0 where
  pub negative : Bool
  pub magnitude : ℕ

abbrev pub i64_max : ℕ
i64_max = 9223372036854775807

abbrev pub digits_value : ℕ → Text → ℕ
digits_value acc [] = acc
digits_value acc (c ∷ s) = digits_value (acc * 10 + (c - b'0')) s

-- The run of decimal digits at the front, and what is behind it.
abbrev pub digit_run : Text → Text
digit_run [] = []
digit_run (c ∷ s) = let rest = digit_run s in if is_digit c then c ∷ rest else []

abbrev pub after_digits : Text → Text
after_digits [] = []
after_digits (c ∷ s) = let rest = after_digits s in if is_digit c then rest else c ∷ s

-- `parse::<i64>` of a sign and a run of digits that is not empty.
abbrev pub parse_i64 : Bool → Text → Option Signed
parse_i64 negative run =
    let n = digits_value 0 run in
    if leb n i64_max || negative && n == i64_max + 1
    then some (record { negative = negative; magnitude = n })
    else none

abbrev pub signed_run : Bool → Text → Option Signed
signed_run negative run = if is_empty run then none else parse_i64 negative run

-- `stoi`: an optional sign, and the digits after it.
unfoldable pub stoi : Text → Option Signed
stoi [] = none
stoi (c ∷ s) =
    if c == b'-'
    then signed_run true (digit_run s)
    else if c == b'+'
    then signed_run false (digit_run s)
    else signed_run false (digit_run (c ∷ s))

abbrev pub sign_of : Text → Text
sign_of [] = []
sign_of (c ∷ s) = if c == b'-' || c == b'+' then c ∷ [] else []

abbrev pub after_sign : Text → Text
after_sign [] = []
after_sign (c ∷ s) = if c == b'-' || c == b'+' then s else c ∷ s

-- The fraction with its point, where there is one.
abbrev pub fraction : Text → Text
fraction [] = []
fraction (c ∷ s) = if c == b'.' then c ∷ digit_run s else []

abbrev pub after_fraction : Text → Text
after_fraction [] = []
after_fraction (c ∷ s) = if c == b'.' then after_digits s else c ∷ s

-- The exponent, where digits follow its mark.
abbrev pub exponent : Text → Text
exponent [] = []
exponent (c ∷ s) =
    let digits = digit_run (after_sign s) in
    if (c == b'e' || c == b'E') && not (is_empty digits) then c ∷ (sign_of s ++ digits) else []

abbrev pub has_digit : Text → Bool
has_digit s = any is_digit s

-- The prefix of a text that `stof` hands to `parse::<f64>`.
unfoldable pub float_prefix : Text → Option Text
float_prefix s =
    let body = after_sign s in
    let mantissa = digit_run body ++ fraction (after_digits body) in
    if has_digit mantissa
    then some (sign_of s ++ mantissa ++ exponent (after_fraction (after_digits body)))
    else none

unfoldable pub in_bitrate_range : Signed → Bool
in_bitrate_range n = not n.negative && leb 1 n.magnitude && leb n.magnitude 200

abbrev pub refresh_rates : List ℕ
refresh_rates = 60 ∷ 72 ∷ 80 ∷ 90 ∷ 120 ∷ []

unfoldable pub is_refresh_rate : Signed → Bool
is_refresh_rate n = any (λ r. not n.negative && r == n.magnitude) refresh_rates

-- A number of type `u32` or more, from a sign and magnitude that a test has bounded.
abbrev pub unsigned : ℕ → Signed
unsigned n = record { negative = false; magnitude = n }

-- `to_string` of a `u32`, of at most `k` digits and one more.
unfoldable pub decimal_of : ℕ → ℕ → Text
decimal_of zero n = (b'0' + n % 10) ∷ []
decimal_of (suc k) n = elim (ltb n 10) [
  | true ↦ (b'0' + n) ∷ []
  | false ↦ decimal_of k (n / 10) ++ (b'0' + n % 10) ∷ []
]

abbrev pub decimal : ℕ → Text
decimal n = decimal_of 9 n

-- `unquote`: one pair of double quotes comes off.
unfoldable pub unquote : Text → Text
unquote [] = []
unquote (c ∷ rest) =
    if c == b'"' && not (is_empty rest) && last_or c rest == b'"' then drop_last rest else c ∷ rest
