-- ===== src/Config/Backups.antt =====
-- config/runtime_toml.rs: the names of the backups, and which of them are kept.
pub mod Free
use Prim.Native.Nat.{◌*◌}
use mathlib.Core.Option.{map as option_map}
use wine_vr.Prelude.{
  take, drop, ℕ, zero, suc, ◌-◌, Bool, true, false, ◌&&◌, ◌||◌, Option, none, some, List, [], ◌∷◌,
  ◌++◌, map, ◌==◌, ltb, leb, is_empty, length, Text, codes, split_once, filter_map, filter,
  is_digit, unwrap_or, if◌then◌else◌,
}
use wine_vr.Config.Value.{decimal_of, decimal, digits_value}
use wine_vr.Config.Site.{has_backup}

-- `BACKUP_PREFIX`
abbrev pub backup_prefix : Text
backup_prefix = codes "oxrsys-runtime.toml."

-- `BACKUP_KEEP`
abbrev pub backup_keep : ℕ
backup_keep = 10

-- `to_string` of a `u64`
abbrev pub decimal_u64 : ℕ → Text
decimal_u64 n = decimal_of 19 n

-- The name of the backup of one second: the plain one, and then `-2`, `-3`, ….
abbrev pub first_name : ℕ → Text
first_name secs = backup_prefix ++ decimal_u64 secs

abbrev pub numbered_name : ℕ → ℕ → Text
numbered_name secs n = first_name secs ++ b'-' ∷ decimal n

-- The loop of `next_backup_path`, for as many numbers as the fuel.
unfoldable pub free_from : ℕ → ℕ → ℕ → List (Text × Text) → Option Text
free_from zero secs n backups = none
free_from (suc fuel) secs n backups = elim (has_backup (numbered_name secs n) backups) [
  | false ↦ some (numbered_name secs n)
  | true ↦ free_from fuel secs (suc n) backups
]

-- `next_backup_path`: one number more than there are backups is tried at most.
unfoldable pub next_backup_path : ℕ → List (Text × Text) → Option Text
next_backup_path secs backups =
    if has_backup (first_name secs) backups
    then free_from (suc (length backups)) secs 2 backups
    else some (first_name secs)

abbrev pub strip_prefix : Text → Text → Option Text
strip_prefix [] s = some s
strip_prefix (p ∷ pre) [] = none
strip_prefix (p ∷ pre) (c ∷ s) = let rest = strip_prefix pre s in if p == c then rest else none

abbrev all_digits : Text → Bool
all_digits [] = true
all_digits (c ∷ s) = is_digit c && all_digits s

abbrev without_plus : Text → Text
without_plus [] = []
without_plus (c ∷ s) = if c == b'+' then s else c ∷ s

-- `parse` of an unsigned integer up to `top`
abbrev pub parse_unsigned : ℕ → Text → Option ℕ
parse_unsigned top s =
    let digits = without_plus s in
    if is_empty digits
    then none
    else filter (λ n. leb n top) (if all_digits digits then some (digits_value 0 digits) else none)

abbrev pub u64_max : ℕ
u64_max = 18446744073709551615

abbrev pub u32_max : ℕ
u32_max = 4294967295

pub record Stamp : Type 0 where
  pub secs : ℕ
  pub index : ℕ
  pub name : Text

-- What the name of a backup says, after its prefix.
abbrev pub stamp_of : Text → Text → Option Stamp
stamp_of name suffix = elim (split_once b'-' suffix) [
  | none ↦
      option_map (λ s. record { secs = s; index = 1; name = name }) (parse_unsigned u64_max suffix)
  | some (s, n) ↦
      option_map
        (λ t. record { secs = t; index = unwrap_or (parse_unsigned u32_max n) 0; name = name })
        (parse_unsigned u64_max s)
]

abbrev pub stamp : Text × Text → Option Stamp
stamp (name, bytes) = elim (strip_prefix backup_prefix name) [
  | none ↦ none
  | some suffix ↦ stamp_of name suffix
]

-- Newer first: by the second, and then by the number.
abbrev pub newer : Stamp → Stamp → Bool
newer a b = ltb b.secs a.secs || a.secs == b.secs && ltb b.index a.index

-- `sort_by`, which is stable.
abbrev pub place : Stamp → List Stamp → List Stamp
place a [] = a ∷ []
place a (b ∷ bs) = let rest = place a bs in if newer b a then b ∷ rest else a ∷ b ∷ bs

abbrev pub newest_first : List Stamp → List Stamp
newest_first [] = []
newest_first (a ∷ as_) = place a (newest_first as_)

-- `list_backups`
unfoldable pub list_backups : List (Text × Text) → List Stamp
list_backups backups = newest_first (filter_map stamp backups)

-- The names that a write has to remove once its own backup is there.
unfoldable pub stale_names : List (Text × Text) → List Text
stale_names backups = map (λ s. s.name) (drop (backup_keep - 1) (list_backups backups))
