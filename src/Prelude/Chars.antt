-- ===== src/Prelude/Chars.antt =====
-- A text as a `String` again.
use Prim.Native.Nat.{ℕ, compare, Ordering}
use Prim.Native.Char.{Char, char, nul, IsScalar}
use Prim.Native.String.{String}
use mathlib.Core.Path.{◌≡◌, refl}
use mathlib.Core.List.{[], ◌∷◌}
use wine_vr.Prelude.Texts.{Text}

pub low-IsScalar : (n : ℕ) → compare n 55296 ≡ Ordering.lt → IsScalar n
low-IsScalar n e = rw e tt

pub high-IsScalar :
    (n : ℕ) (o : Ordering)
    → compare n 55296 ≡ o
    → compare 57343 n ≡ Ordering.lt
    → compare n 1114112 ≡ Ordering.lt
    → IsScalar n
high-IsScalar n Ordering.lt e f g = rw e tt
high-IsScalar n Ordering.eq e f g = rw (e, f, g) tt
high-IsScalar n Ordering.gt e f g = rw (e, f, g) tt

abbrev char_above :
    (n : ℕ) (o p q : Ordering)
    → compare n 55296 ≡ o
    → compare 57343 n ≡ p
    → compare n 1114112 ≡ q
    → Char
char_above n Ordering.lt p q e f g = char n (low-IsScalar n e)
char_above n o Ordering.lt Ordering.lt e f g = char n (high-IsScalar n o e f g)
char_above n _ _ _ e f g = nul

-- The character of a code point; a number that is none does not occur in a text.
abbrev pub char_of : ℕ → Char
char_of n = char_above n (compare n 55296) (compare 57343 n) (compare n 1114112) refl refl refl

abbrev pub string_of : Text → String
string_of [] = String.[]
string_of (c ∷ s) = String.◌∷◌ (char_of c) (string_of s)
