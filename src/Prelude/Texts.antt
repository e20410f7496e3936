-- ===== src/Prelude/Texts.antt =====
-- A text that the code walks through, as its code points.
use Prim.Native.Nat.{ℕ}
use Prim.Native.Char.{code}
use Prim.Native.String.{String}
use mathlib.Core.Path.{◌≡◌, refl, ap}
use mathlib.Core.Logic.{◌↔◌}
use mathlib.Core.Bool.{Bool, true, false, ◌&&◌, ◌||◌}
use mathlib.Core.Option.{Option, none, some}
use mathlib.Core.List.{List, [], ◌∷◌, ◌++◌}
use native.Mathlib.Omega.{arith}
use wine_vr.Prelude.Tests.{leb, ◌==◌, if◌then◌else◌}
use wine_vr.Prelude.Lists.{is_empty}

abbrev pub Text : Type 0
Text = List ℕ

abbrev pub codes : String → Text
codes String.[] = []
codes (String.◌∷◌ c s) = code c ∷ codes s

abbrev pub text_eq : Text → Text → Bool
text_eq [] [] = true
text_eq (a ∷ s) (b ∷ t) = a == b && text_eq s t
text_eq _ _ = false

pub text_eq_iff : (s t : Text) → (text_eq s t ≡ true) ↔ (s ≡ t)
text_eq_iff [] [] = ground arith
text_eq_iff [] (b ∷ t) = ground arith
text_eq_iff (a ∷ s) [] = ground arith
text_eq_iff (a ∷ s) (b ∷ t) = ground (arith, text_eq_iff s t)

pub text_eq_refl : (s : Text) → text_eq s s ≡ true
text_eq_refl s = (text_eq_iff s s).1 refl

abbrev within : ℕ → ℕ → ℕ → Bool
within lo hi c = leb lo c && leb c hi

-- `char::is_whitespace`: the White_Space property of Unicode.
abbrev pub is_whitespace : ℕ → Bool
is_whitespace c =
    within 9 13 c
    || c == 32
    || c == 133
    || c == 160
    || c == 5760
    || within 8192 8202 c
    || within 8232 8233 c
    || c == 8239
    || c == 8287
    || c == 12288

abbrev pub is_digit : ℕ → Bool
is_digit c = within b'0' b'9' c

abbrev pub trim_start : Text → Text
trim_start [] = []
trim_start (c ∷ s) = let rest = trim_start s in if is_whitespace c then rest else c ∷ s

abbrev pub trim_end : Text → Text
trim_end [] = []
trim_end (c ∷ s) =
    let rest = trim_end s in if is_empty rest && is_whitespace c then [] else c ∷ rest

-- `str::trim`
abbrev pub trim : Text → Text
trim s = trim_start (trim_end s)

-- `str::split_once`, at one character.
abbrev pub split_once : ℕ → Text → Option (Text × Text)
split_once sep [] = none
split_once sep (c ∷ s) = elim (c == sep) [
  | true ↦ some ([], s)
  | false ↦ elim (split_once sep s) [ none ↦ none | some (a, b) ↦ some (c ∷ a, b) ]
]

-- A line's text less the carriage return before its newline.
abbrev pub strip_cr : Text → Text
strip_cr [] = []
strip_cr (c ∷ s) = let rest = strip_cr s in if is_empty s && c == b'\r' then [] else c ∷ rest

abbrev pub lines_after : Text → Text → List Text
lines_after cur [] = if is_empty cur then [] else cur ∷ []
lines_after cur (c ∷ s) = elim (c == b'\n') [
  | true ↦ strip_cr cur ∷ lines_after [] s
  | false ↦ lines_after (cur ++ c ∷ []) s
]

-- `str::lines`
abbrev pub lines : Text → List Text
lines s = lines_after [] s

abbrev pub fields_after : Text → Text → List Text
fields_after cur [] = if is_empty cur then [] else cur ∷ []
fields_after cur (c ∷ s) = elim (is_whitespace c) [
  | true ↦ elim cur [ [] ↦ fields_after [] s | a ∷ r ↦ (a ∷ r) ∷ fields_after [] s ]
  | false ↦ fields_after (cur ++ c ∷ []) s
]

-- `str::split_whitespace`
abbrev pub fields : Text → List Text
fields s = fields_after [] s

abbrev pub starts_with : Text → Text → Bool
starts_with [] s = true
starts_with (p ∷ pre) [] = false
starts_with (p ∷ pre) (c ∷ s) = p == c && starts_with pre s

abbrev pub last_or {ℓ} : {A : Type ℓ} → A → List A → A
last_or d [] = d
last_or d (x ∷ xs) = last_or x xs

-- `iter().last()`
abbrev pub last {ℓ} : {A : Type ℓ} → List A → Option A
last [] = none
last (x ∷ xs) = some (last_or x xs)

abbrev pub drop_last {ℓ} : {A : Type ℓ} → List A → List A
drop_last [] = []
drop_last (x ∷ []) = []
drop_last (x ∷ y ∷ xs) = x ∷ drop_last (y ∷ xs)

-- The elements that `f` gives a value, as `filter_map`.
abbrev pub filter_map {ℓ κ} : {A : Type ℓ} {B : Type κ} → (A → Option B) → List A → List B
filter_map f [] = []
filter_map f (x ∷ xs) = elim (f x) [ none ↦ filter_map f xs | some b ↦ b ∷ filter_map f xs ]

module _ {ℓ} {A : Type ℓ} where
  pub is_empty-append : (s : List A) (c : A) → is_empty (s ++ c ∷ []) ≡ false
  is_empty-append [] c = refl
  is_empty-append (d ∷ s) c = refl

  pub last_or-append : (d : A) (s : List A) (c : A) → last_or d (s ++ c ∷ []) ≡ c
  last_or-append d [] c = refl
  last_or-append d (x ∷ s) c = last_or-append x s c

  pub drop_last-append : (s : List A) (c : A) → drop_last (s ++ c ∷ []) ≡ s
  drop_last-append [] c = refl
  drop_last-append (x ∷ []) c = refl
  drop_last-append (x ∷ y ∷ s) c = ap (λ t. x ∷ t) (drop_last-append (y ∷ s) c)
