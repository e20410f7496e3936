-- ===== src/Tests/Configuration.antt =====
-- A configuration file that assigns a key twice, read, patched and written.
use wine_vr.Prelude.{
  if◌then◌else◌, text_eq, none, [], ap, sym, ◌≡◌, refl, ℕ, true, some, ◌==◌, ==_iff, Text, codes,
  arith,
}
use mathlib.Core.Option.{map as option_map}
use wine_vr.Config.Value.{
  Key, key_text, alvr, Floats, stoi, in_bitrate_range, unquote, parse_protocol,
}
use wine_vr.Config.Setting.{
  Setting, read_ok, no_values, from_patch, read_raw, runtime_string, out_of_range, in_scale_range,
}
use wine_vr.Config.Setting.Spelling.{quoted, pointed, Displays, read_raw-runtime_string}
use wine_vr.Config.Reader.{
  assignment, raw_assignments, read_key, read_lines_like_the_runtime, effective_accepted,
}
use wine_vr.Config.Reader.Effective.{effective_accepted-read_lines}
use wine_vr.Config.Shape.{shape_of, restore}
use wine_vr.Config.Shape.RoundTrip.{with_final_newline, file_of, IsLf, restore-shape_of}

-- A scale is a number of hundredths, and only 75 is one that is printed.
abbrev pub hundredths : Floats ℕ
hundredths = record {
  parse = λ s. if text_eq s (codes "0.75") then some 75 else none;
  show = λ f. codes "0.75";
  narrow = λ f. f;
  is_finite = λ f. f == 75;
  le = λ a b. true;
  scale_low = 25;
  scale_high = 100;
}

abbrev pub two_lines : Text
two_lines =
    codes "protocol = \"alvr\" # live\n[streaming]\nprotocol = \"banana\"\nbitrate_mbps = 80\n"

read_lines_test :
    (read_lines_like_the_runtime hundredths two_lines).values
    ≡ record no_values { protocol = some alvr; bitrate_mbps = some 80 }
unfolding read_lines_like_the_runtime raw_assignments assignment read_key read_raw stoi unquote
    in_bitrate_range parse_protocol
read_lines_test = refl

effective_accepted-read_lines_example :
    effective_accepted hundredths two_lines (key_text Key.protocol)
    ≡ option_map
        (runtime_string hundredths)
        (from_patch Key.protocol (read_lines_like_the_runtime hundredths two_lines).values)
effective_accepted-read_lines_example =
    effective_accepted-read_lines hundredths two_lines Key.protocol

hundredths-Displays : Displays hundredths
unfolding in_scale_range
hundredths-Displays f h = (
  pointed b'0' [] (codes "75") (refl, tt) (refl, (refl, tt)),
  ap (λ n. some n) (sym ((==_iff f 75).0 (ground arith))),
)

read_raw-runtime_string_example :
    (read_raw hundredths (codes "resolution_scale") (codes "0.75")
      ≡ read_ok (some (Setting.set_scale 75)))
    × (read_raw hundredths (codes "resolution_scale") (quoted (codes "0.75"))
        ≡ read_ok (some (Setting.set_scale 75)))
unfolding out_of_range in_scale_range
read_raw-runtime_string_example =
    read_raw-runtime_string hundredths (Setting.set_scale 75) refl hundredths-Displays

abbrev unended : Text
unended = codes "a\nb"

unended-IsLf : IsLf unended
unended-IsLf = (refl, (refl, (refl, tt)))

restore-shape_of_example :
    restore (shape_of (file_of true true unended)) (with_final_newline unended)
    ≡ file_of true true unended
restore-shape_of_example = restore-shape_of true true unended unended-IsLf refl
