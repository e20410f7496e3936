-- ===== src/Config/Shape/RoundTrip.antt =====
-- config/runtime_toml.rs: a file keeps its shape through a rendering that ends every line alike.
use wine_vr.Prelude.{
  ◌≡◌, refl, ap, ℕ, Bool, true, false, not, ◌&&◌, ◌||◌, [], ◌∷◌, ◌++◌, ◌==◌, ltb, is_empty, All,
  Text, last_or, is_empty-append, last_or-append, drop_last-append, arith, if◌then◌else◌,
}
use wine_vr.Config.Shape.{
  bom_mark, has_bom, strip_bom, count_breaks, starts_break, count_crlf, ends_in, to_lf, to_crlf,
  shape_of, without_break, restore,
}

-- No carriage return, and so newlines alone end the lines.
abbrev pub IsLf : Text → Type 0
IsLf s = All (λ c. (c == b'\r') ≡ false) s

-- What a document renders as: every line ends in a newline.
abbrev pub with_final_newline : Text → Text
with_final_newline s = if is_empty s || ends_in b'\n' s then s else s ++ b'\n' ∷ []

-- A file, from its text with newlines alone.
abbrev pub file_of : Bool → Bool → Text → Text
file_of bom crlf s =
    let body = if crlf then to_crlf s else s in if bom then bom_mark ∷ body else body

count_crlf_lf : (s : Text) → IsLf s → count_crlf s ≡ 0
count_crlf_lf [] h = refl
count_crlf_lf (c ∷ s) h = ground (arith, count_crlf_lf s h.1, h.0)

to_lf_lf : (s : Text) → IsLf s → to_lf s ≡ s
to_lf_lf [] h = refl
to_lf_lf (c ∷ s) h = ground (arith, to_lf_lf s h.1, h.0)

starts_break-to_crlf : (s : Text) → starts_break (to_crlf s) ≡ false
starts_break-to_crlf [] = refl
starts_break-to_crlf (c ∷ s) = ground arith

count_breaks-to_crlf : (s : Text) → count_breaks (to_crlf s) ≡ count_breaks s
count_breaks-to_crlf [] = refl
count_breaks-to_crlf (c ∷ s) = ground (arith, count_breaks-to_crlf s)

count_crlf-to_crlf : (s : Text) → IsLf s → count_crlf (to_crlf s) ≡ count_breaks s
count_crlf-to_crlf [] h = refl
count_crlf-to_crlf (c ∷ s) h = ground (arith, count_crlf-to_crlf s h.1, h.0)

to_crlf_no_break : (s : Text) → count_breaks s ≡ 0 → to_crlf s ≡ s
to_crlf_no_break [] h = refl
to_crlf_no_break (c ∷ s) h = ground (arith, to_crlf_no_break s)

is_empty-to_crlf : (s : Text) → is_empty (to_crlf s) ≡ is_empty s
is_empty-to_crlf [] = refl
is_empty-to_crlf (c ∷ s) = ground arith

last_or-to_crlf : (d : ℕ) (s : Text) → last_or d (to_crlf s) ≡ last_or d s
last_or-to_crlf d [] = refl
last_or-to_crlf d (c ∷ s) = ground (arith, last_or-to_crlf c s)

to_crlf-append : (s : Text) → to_crlf (s ++ b'\n' ∷ []) ≡ to_crlf s ++ b'\r' ∷ b'\n' ∷ []
to_crlf-append [] = refl
to_crlf-append (c ∷ s) = ground (arith, to_crlf-append s)

IsLf-append : (s : Text) → IsLf s → IsLf (s ++ b'\n' ∷ [])
IsLf-append [] h = (refl, tt)
IsLf-append (c ∷ s) h = (h.0, IsLf-append s h.1)

last_or-IsLf : (d : ℕ) (s : Text) → (d == b'\r') ≡ false → IsLf s → (last_or d s == b'\r') ≡ false
last_or-IsLf d [] e h = e
last_or-IsLf d (c ∷ s) e h = last_or-IsLf c s h.0 h.1

append_pair : (s : Text) → s ++ b'\r' ∷ b'\n' ∷ [] ≡ (s ++ b'\r' ∷ []) ++ b'\n' ∷ []
append_pair [] = refl
append_pair (c ∷ s) = ap (λ t. c ∷ t) (append_pair s)

ends_in-append : (c : ℕ) (s : Text) → ends_in c (s ++ c ∷ []) ≡ true
ends_in-append c s = ground (arith, is_empty-append s c, last_or-append 0 s c)

without_break-lf : (s : Text) → IsLf s → without_break (s ++ b'\n' ∷ []) ≡ s
without_break-lf s h =
    rw (ends_in-append b'\n' s, drop_last-append s b'\n') (ground (arith, last_or-IsLf 0 s refl h))

without_break-crlf : (s : Text) → without_break (s ++ b'\r' ∷ b'\n' ∷ []) ≡ s
without_break-crlf s = rw (append_pair s) (
    rw
      (
        ends_in-append b'\n' (s ++ b'\r' ∷ []),
        drop_last-append (s ++ b'\r' ∷ []) b'\n',
        ends_in-append b'\r' s,
      )
      (drop_last-append s b'\r'))

-- The file that rendering gives back, where the shape has these line ends and this last newline.
abbrev body_of : Bool → Bool → Text → Text
body_of crlf final rendered =
    let out = if crlf then to_crlf (to_lf rendered) else rendered in
    if not final then without_break out else out

body_of-lf :
    (s : Text) → IsLf s → body_of false (is_empty s || ends_in b'\n' s) (with_final_newline s) ≡ s
body_of-lf s h = ground (arith, without_break-lf s h)

body_of-crlf :
    (s : Text)
    → IsLf s
    → body_of true (is_empty s || ends_in b'\n' s) (with_final_newline s) ≡ to_crlf s
body_of-crlf s h = ground (
  arith,
  to_lf_lf s h,
  to_lf_lf (s ++ b'\n' ∷ []) (IsLf-append s h),
  to_crlf-append s,
  without_break-crlf (to_crlf s),
)

-- The line ends and the last newline of a text, as its shape records them.
abbrev is_crlf : Text → Bool
is_crlf body = ltb 0 (count_breaks body) && count_crlf body == count_breaks body

abbrev is_ended : Text → Bool
is_ended body = is_empty body || ends_in b'\n' body

body_of_body :
    (crlf : Bool) (s : Text)
    → IsLf s
    → let body = if crlf then to_crlf s else s in
      body_of (is_crlf body) (is_ended body) (with_final_newline s) ≡ body
body_of_body false s h = ground (arith, count_crlf_lf s h, body_of-lf s h)
body_of_body true s h = ground (
  arith,
  count_breaks-to_crlf s,
  count_crlf-to_crlf s h,
  is_empty-to_crlf s,
  last_or-to_crlf 0 s,
  to_crlf_no_break s,
  body_of-lf s h,
  body_of-crlf s h,
)

strip_bom_none : (s : Text) → has_bom s ≡ false → strip_bom s ≡ s
strip_bom_none [] e = refl
strip_bom_none (c ∷ s) e = ground (arith, e)

has_bom-to_crlf : (s : Text) → has_bom s ≡ false → has_bom (to_crlf s) ≡ false
has_bom-to_crlf [] e = refl
has_bom-to_crlf (c ∷ s) e = ground arith

has_bom_body :
    (crlf : Bool) (s : Text) → has_bom s ≡ false → has_bom (if crlf then to_crlf s else s) ≡ false
has_bom_body false s e = e
has_bom_body true s e = has_bom-to_crlf s e

restore_body :
    (bom : Bool) (body rendered : Text)
    → has_bom body ≡ false
    → body_of (is_crlf body) (is_ended body) rendered ≡ body
    → let file = if bom then bom_mark ∷ body else body in restore (shape_of file) rendered ≡ file
unfolding restore shape_of
restore_body false body rendered e h = rw (strip_bom_none body e, e) h
restore_body true body rendered e h = ap (λ t. bom_mark ∷ t) h

-- A file of lines that all end alike, with or without a byte-order mark and a last newline, is
-- restored from its text with newlines alone and a last newline.
pub restore-shape_of :
    (bom crlf : Bool) (s : Text)
    → IsLf s
    → has_bom s ≡ false
    → restore (shape_of (file_of bom crlf s)) (with_final_newline s) ≡ file_of bom crlf s
restore-shape_of bom crlf s h e =
    restore_body bom (if crlf then to_crlf s else s) (with_final_newline s) (has_bom_body crlf s e)
      (body_of_body crlf s h)
