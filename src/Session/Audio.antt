-- ===== src/Session/Audio.antt =====
-- session/mod.rs: which output device to restore the Mac to when the recorded one is gone.
pub mod Choice
use text.Mathlib.Text.{starts_with, find?}
use Prim.Native.String.{len, slice}
use wine_vr.Prelude.{
  ◌-◌, ◌≡◌, refl, String, Bool, not, ◌&&◌, ◌||◌, Option, none, some, List, [], ◌∷◌, leb, any, find,
  is_some, str_eq,
}

-- `str::ends_with` and `str::contains`, over the bytes.
unfoldable pub ends_with : String → String → Bool
ends_with s t = leb (len t) (len s) && str_eq (slice s (len s - len t) (len s)) t

unfoldable pub contains : String → String → Bool
contains s t = is_some (find? s t)

abbrev pub virtual_output_markers : List String
virtual_output_markers = "BlackHole" ∷ "Virtual Desktop" ∷ "Steam Streaming" ∷ []

abbrev pub built_in_output : String
built_in_output = "Built-in Output"

unfoldable pub is_built_in_output : String → Bool
unfolding ends_with
is_built_in_output name =
    str_eq name built_in_output || (starts_with name "Mac" && ends_with name " Speakers")

unfoldable pub is_virtual_output : String → Bool
unfolding contains
is_virtual_output name = any (λ m. contains name m) virtual_output_markers

abbrev pub or_else : Option String → Option String → Option String
or_else none o = o
or_else (some d) o = some d

unfoldable pub fallback_output_device : List String → Option String
fallback_output_device devices =
    or_else (find is_built_in_output devices) (find (λ d. not (is_virtual_output d)) devices)

picks_speakers :
    fallback_output_device ("BlackHole 2ch" ∷ "AirPods" ∷ "MacBook Pro Speakers" ∷ [])
    ≡ some "MacBook Pro Speakers"
unfolding fallback_output_device is_built_in_output is_virtual_output
picks_speakers = refl

picks_first_real : fallback_output_device ("BlackHole 2ch" ∷ "AirPods" ∷ []) ≡ some "AirPods"
unfolding fallback_output_device is_built_in_output is_virtual_output
picks_first_real = refl
