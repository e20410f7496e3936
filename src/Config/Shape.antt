-- ===== src/Config/Shape.antt =====
-- config/runtime_toml.rs: the bytes of a file that rendering its document does not preserve.
pub mod RoundTrip
use wine_vr.Prelude.{
  ℕ, ◌+◌, Bool, true, false, not, ◌&&◌, ◌||◌, List, [], ◌∷◌, ◌==◌, ltb, is_empty, Text, last_or,
  drop_last, if◌then◌else◌,
}

-- The byte-order mark, `U+FEFF`.
abbrev pub bom_mark : ℕ
bom_mark = 65279

abbrev pub has_bom : Text → Bool
has_bom [] = false
has_bom (c ∷ s) = c == bom_mark

-- `strip_bom`
abbrev pub strip_bom : Text → Text
strip_bom [] = []
strip_bom (c ∷ s) = if c == bom_mark then s else c ∷ s

-- `matches('\n').count()`
abbrev pub count_breaks : Text → ℕ
count_breaks [] = 0
count_breaks (c ∷ s) = (if c == b'\n' then 1 else 0) + count_breaks s

abbrev pub starts_break : Text → Bool
starts_break [] = false
starts_break (c ∷ s) = c == b'\n'

-- `matches("\r\n").count()`
abbrev pub count_crlf : Text → ℕ
count_crlf [] = 0
count_crlf (c ∷ s) = (if c == b'\r' && starts_break s then 1 else 0) + count_crlf s

-- `ends_with`, of one character.
abbrev pub ends_in : ℕ → Text → Bool
ends_in c s = not (is_empty s) && last_or 0 s == c

-- `replace("\r\n", "\n")`
abbrev pub to_lf : Text → Text
to_lf [] = []
to_lf (c ∷ s) = let rest = to_lf s in if c == b'\r' && starts_break s then rest else c ∷ rest

-- `replace('\n', "\r\n")`
abbrev pub to_crlf : Text → Text
to_crlf [] = []
to_crlf (c ∷ s) = let rest = to_crlf s in if c == b'\n' then b'\r' ∷ b'\n' ∷ rest else c ∷ rest

pub record ByteShape : Type 0 where
  pub bom : Bool
  pub crlf : Bool
  pub final_newline : Bool

-- `ByteShape::of`
unfoldable pub shape_of : Text → ByteShape
shape_of text =
    let body = strip_bom text in
    let breaks = count_breaks body in
    record {
      bom = has_bom text;
      crlf = ltb 0 breaks && count_crlf body == breaks;
      final_newline = is_empty body || ends_in b'\n' body;
    }

abbrev pub without_break : Text → Text
without_break out =
    if ends_in b'\n' out && ends_in b'\r' (drop_last out)
    then drop_last (drop_last out)
    else if ends_in b'\n' out
    then drop_last out
    else out

-- `ByteShape::restore`
unfoldable pub restore : ByteShape → Text → Text
restore shape rendered =
    let out = if shape.crlf then to_crlf (to_lf rendered) else rendered in
    let cut = if not shape.final_newline then without_break out else out in
    if shape.bom then bom_mark ∷ cut else cut
