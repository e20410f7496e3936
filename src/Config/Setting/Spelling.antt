-- ===== src/Config/Setting/Spelling.antt =====
-- config/runtime_toml.rs: the spelling of a setting is read back as that setting.
use Prim.Native.Nat.{◌*◌, ◌/◌, ◌%◌}
use mathlib.Core.List.{append-nil}
use wine_vr.Prelude.{
  ◌≡◌, refl, ap, ◌∙◌, ℕ, Option, ◌||◌, ◌==◌, if◌then◌else◌, zero, suc, ◌+◌, ◌-◌, ◌<◌, ◌≤◌,
  Bool-cases, true, false, ltb, none, some, inl, inr, [], ◌∷◌, ◌++◌, Text, is_digit, All,
  All-append, is_empty, arith, is_empty-append, last_or-append, drop_last-append,
}
use wine_vr.Config.Value.{
  key_text, alvr, oxrsys, VideoCodec, h265, h264, EncoderProcess, native, inproc, parse_protocol,
  parse_codec, parse_process, Floats, stoi, float_prefix, after_digits, fraction, after_fraction,
  exponent, has_digit, parse_i64, digits_value, digit_run, decimal_of, decimal, unsigned, unquote,
  in_bitrate_range, is_refresh_rate, i64_max,
}
use wine_vr.Config.Setting.{
  Setting, read_ok, key, read_raw, parsed, out_of_range, runtime_string, stof, in_scale_range,
}
use wine_vr.Config.Setting.Accepted.{read_raw_lem}

digits_value-append :
    (acc : ℕ) (s : Text) (c : ℕ)
    → digits_value acc (s ++ c ∷ []) ≡ digits_value acc s * 10 + (c - b'0')
digits_value-append acc [] c = refl
digits_value-append acc (d ∷ s) c = digits_value-append (acc * 10 + (d - b'0')) s c

-- `n` has at most `k` digits and one more.
abbrev pub Fits : ℕ → ℕ → Type 0
Fits zero n = n < 10
Fits (suc k) n = Fits k (n / 10)

decimal_last : (k n : ℕ) → ltb n 10 ≡ true → decimal_of (suc k) n ≡ (b'0' + n) ∷ []
unfolding decimal_of
decimal_last k n e = ground arith

decimal_more :
    (k n : ℕ)
    → ltb n 10 ≡ false
    → decimal_of (suc k) n ≡ decimal_of k (n / 10) ++ (b'0' + n % 10) ∷ []
unfolding decimal_of
decimal_more k n e = ground arith

pub digits_value-decimal : (k n : ℕ) → Fits k n → digits_value 0 (decimal_of k n) ≡ n
unfolding decimal_of
digits_value-decimal zero n h = omega arith
digits_value-decimal (suc k) n h = elim (Bool-cases (ltb n 10)) [
  | inl e ↦ rw (decimal_last k n e) (ground arith)
  | inr e ↦
      rw
        (
          decimal_more k n e,
          digits_value-append 0 (decimal_of k (n / 10)) (b'0' + n % 10),
          digits_value-decimal k (n / 10) h,
        )
        (ground arith)
]

abbrev pub AreDigits : Text → Type 0
AreDigits s = All (λ c. is_digit c ≡ true) s

decimal-AreDigits : (k n : ℕ) → Fits k n → AreDigits (decimal_of k n)
unfolding decimal_of
decimal-AreDigits zero n h = (ground arith, tt)
decimal-AreDigits (suc k) n h = elim (Bool-cases (ltb n 10)) [
  | inl e ↦ rw (decimal_last k n e) (ground arith, tt)
  | inr e ↦
      rw (decimal_more k n e)
        (All-append _ (decimal_of k (n / 10)) _ (decimal-AreDigits k (n / 10) h) (ground arith, tt))
]

is_empty-decimal : (k n : ℕ) → is_empty (decimal_of k n) ≡ false
unfolding decimal_of
is_empty-decimal zero n = refl
is_empty-decimal (suc k) n = elim (Bool-cases (ltb n 10)) [
  | inl e ↦ rw (decimal_last k n e) refl
  | inr e ↦ rw (decimal_more k n e) (is_empty-append (decimal_of k (n / 10)) _)
]

digit_run_digits : (s : Text) → AreDigits s → digit_run s ≡ s
digit_run_digits [] h = refl
digit_run_digits (c ∷ s) h = rw h.0 (ap (λ t. c ∷ t) (digit_run_digits s h.1))

stoi_digits : (s : Text) → is_empty s ≡ false → AreDigits s → stoi s ≡ parse_i64 false s
unfolding stoi
stoi_digits [] e h = ground arith
stoi_digits (c ∷ s) e h = ground (arith, digit_run_digits (c ∷ s) h, h.0)

unquote_digits : (s : Text) → AreDigits s → unquote s ≡ s
unfolding unquote
unquote_digits [] h = refl
unquote_digits (c ∷ s) h = ground (arith, h.0)

-- A number of at most ten digits is read back from its spelling.
stoi-decimal : (n : ℕ) → Fits 9 n → n ≤ i64_max → stoi (decimal n) ≡ some (unsigned n)
stoi-decimal n h b =
    rw (stoi_digits (decimal n) (is_empty-decimal 9 n) (decimal-AreDigits 9 n h))
      (ground (arith, digits_value-decimal 9 n h))

-- The quotes that `to_value` has a string written with come off again.
abbrev pub quoted : Text → Text
quoted s = b'"' ∷ (s ++ b'"' ∷ [])

pub unquote-quoted : (s : Text) → unquote (quoted s) ≡ s
unfolding unquote
unquote-quoted s =
    ground (arith, is_empty-append s b'"', last_or-append b'"' s b'"', drop_last-append s b'"')

small-Fits : (n : ℕ) → n ≤ 200 → Fits 9 n
small-Fits n h = omega arith

unquote_number : (n : ℕ) → n ≤ 200 → unquote (decimal n) ≡ decimal n
unquote_number n h = unquote_digits (decimal n) (decimal-AreDigits 9 n (small-Fits n h))

-- A decimal number as Rust displays it: digits, and a point with more digits where there is one.
pub data IsDecimal : Text → Type 0 where
  whole : (c : ℕ) (s : Text) → AreDigits (c ∷ s) → IsDecimal (c ∷ s)
  pointed :
      (c : ℕ) (s fr : Text) → AreDigits (c ∷ s) → AreDigits fr → IsDecimal (c ∷ (s ++ b'.' ∷ fr))

digit_run_pointed : (s fr : Text) → AreDigits s → digit_run (s ++ b'.' ∷ fr) ≡ s
digit_run_pointed [] fr h = refl
digit_run_pointed (c ∷ s) fr h = rw h.0 (ap (λ t. c ∷ t) (digit_run_pointed s fr h.1))

after_digits_digits : (s : Text) → AreDigits s → after_digits s ≡ []
after_digits_digits [] h = refl
after_digits_digits (c ∷ s) h = rw h.0 (after_digits_digits s h.1)

after_digits_pointed : (s fr : Text) → AreDigits s → after_digits (s ++ b'.' ∷ fr) ≡ b'.' ∷ fr
after_digits_pointed [] fr h = refl
after_digits_pointed (c ∷ s) fr h = rw h.0 (after_digits_pointed s fr h.1)

-- What the prefix is of a text with these parts.
prefix_of : Text → Text → Text → Option Text
prefix_of sign run rest =
    if has_digit (run ++ fraction rest)
    then some (sign ++ ((run ++ fraction rest) ++ exponent (after_fraction rest)))
    else none

unsigned_digit : (c : ℕ) → is_digit c ≡ true → (c == b'-' || c == b'+') ≡ false
unsigned_digit c h = ground arith

float_prefix_parts :
    (c : ℕ) (s : Text)
    → is_digit c ≡ true
    → float_prefix (c ∷ s) ≡ prefix_of [] (digit_run (c ∷ s)) (after_digits (c ∷ s))
unfolding float_prefix prefix_of
float_prefix_parts c s h = rw (unsigned_digit c h) refl

float_prefix-IsDecimal : (t : Text) → IsDecimal t → float_prefix t ≡ some t
unfolding prefix_of
float_prefix-IsDecimal _ (whole c s h) =
    float_prefix_parts c s h.0
    ∙ ap (λ r. prefix_of [] r (after_digits (c ∷ s))) (digit_run_digits (c ∷ s) h)
    ∙ ap (prefix_of [] (c ∷ s)) (after_digits_digits (c ∷ s) h)
    ∙ rw (h.0, append-nil s, append-nil s) refl
float_prefix-IsDecimal _ (pointed c s fr h k) =
    float_prefix_parts c (s ++ b'.' ∷ fr) h.0
    ∙ ap (λ r. prefix_of [] r (after_digits (c ∷ (s ++ b'.' ∷ fr))))
        (digit_run_pointed (c ∷ s) fr h)
    ∙ ap (prefix_of [] (c ∷ s)) (after_digits_pointed (c ∷ s) fr h)
    ∙ rw (h.0, digit_run_digits fr k, after_digits_digits fr k, append-nil (s ++ b'.' ∷ fr)) refl

unquote-IsDecimal : (t : Text) → IsDecimal t → unquote t ≡ t
unfolding unquote
unquote-IsDecimal _ (whole c s h) = ground (arith, h.0)
unquote-IsDecimal _ (pointed c s fr h k) = ground (arith, h.0)

module _ {F : Type 0} (fl : Floats F) where
  -- What the standard library says of the display of an `f64` that is in range: it is a decimal
  -- number, and parses to the same `f64`.
  abbrev pub Displays : Type 0
  Displays =
      (f : F) → in_scale_range fl f ≡ true → IsDecimal (fl.show f) × (fl.parse (fl.show f) ≡ some f)

  show-stof :
      (f : F) → IsDecimal (fl.show f) → fl.parse (fl.show f) ≡ some f → stof fl (fl.show f) ≡ some f
  unfolding stof
  show-stof f h k =
      ap (λ o. elim o [ none ↦ none | some p ↦ fl.parse p ]) (float_prefix-IsDecimal (fl.show f) h)
      ∙ k

  -- The spelling of an accepted setting has no quotes to lose.
  unquote-runtime_string :
      (s : Setting F)
      → out_of_range fl s ≡ none
      → Displays
      → unquote (runtime_string fl s) ≡ runtime_string fl s
  unfolding out_of_range in_bitrate_range unquote
  unquote-runtime_string (Setting.set_protocol alvr) h r = refl
  unquote-runtime_string (Setting.set_protocol oxrsys) h r = refl
  unquote-runtime_string (Setting.set_codec VideoCodec.auto) h r = refl
  unquote-runtime_string (Setting.set_codec h265) h r = refl
  unquote-runtime_string (Setting.set_codec h264) h r = refl
  unquote-runtime_string (Setting.set_process EncoderProcess.auto) h r = refl
  unquote-runtime_string (Setting.set_process native) h r = refl
  unquote-runtime_string (Setting.set_process inproc) h r = refl
  unquote-runtime_string (Setting.set_bitrate n) h r = unquote_number n (ground arith)
  unquote-runtime_string (Setting.set_refresh n) h r = unquote_number n (ground arith)
  unquote-runtime_string (Setting.set_scale f) h r =
      unquote-IsDecimal (fl.show f) (r f (ground arith)).0

  number_reads : (n : ℕ) → n ≤ 200 → stoi (decimal n) ≡ some (unsigned n)
  number_reads n h = stoi-decimal n (small-Fits n h) (omega arith)

  parsed-runtime_string :
      (s : Setting F)
      → out_of_range fl s ≡ none
      → Displays
      → parsed fl (key s) (runtime_string fl s) ≡ some s
  unfolding out_of_range in_bitrate_range is_refresh_rate parse_protocol parse_codec parse_process
  parsed-runtime_string (Setting.set_protocol alvr) h r = refl
  parsed-runtime_string (Setting.set_protocol oxrsys) h r = refl
  parsed-runtime_string (Setting.set_codec VideoCodec.auto) h r = refl
  parsed-runtime_string (Setting.set_codec h265) h r = refl
  parsed-runtime_string (Setting.set_codec h264) h r = refl
  parsed-runtime_string (Setting.set_process EncoderProcess.auto) h r = refl
  parsed-runtime_string (Setting.set_process native) h r = refl
  parsed-runtime_string (Setting.set_process inproc) h r = refl
  parsed-runtime_string (Setting.set_bitrate n) h r = ground (arith, number_reads n)
  parsed-runtime_string (Setting.set_refresh n) h r = ground (arith, number_reads n)
  parsed-runtime_string (Setting.set_scale f) h r =
      let d = r f (ground arith) in ground (arith, show-stof f d.0 d.1)

  read_back :
      (s : Setting F) (raw : Text)
      → parsed fl (key s) (unquote raw) ≡ some s
      → read_raw fl (key_text (key s)) raw ≡ read_ok (some s)
  read_back s raw e = rw (read_raw_lem fl (key s) raw, e) refl

  -- A setting in range is read back from its spelling, bare or in double quotes, where the display
  -- of an f64 that is a scale in range is a decimal number, and parses to that f64.
  pub read_raw-runtime_string :
      (s : Setting F)
      → out_of_range fl s ≡ none
      → Displays
      → (read_raw fl (key_text (key s)) (runtime_string fl s) ≡ read_ok (some s))
        × (read_raw fl (key_text (key s)) (quoted (runtime_string fl s)) ≡ read_ok (some s))
  read_raw-runtime_string s h r =
      let spelled = runtime_string fl s in
      let reads = parsed-runtime_string s h r in
      (
        read_back s spelled (rw (unquote-runtime_string s h r) reads),
        read_back s (quoted spelled) (rw (unquote-quoted spelled) reads),
      )
