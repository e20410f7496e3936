-- ===== src/Store/Validity.antt =====
-- store/library.rs: whether a game can be launched, from what the machine answers about its files.
pub mod Ready
use wine_vr.Prelude.{
  ◌≡◌, ◌↔◌, ◌≢◌, refl, sym, ap, ◌∙◌, String, Bool, true, false, not, ◌&&◌, ◌||◌, Option, none, some,
  List, [], ◌∷◌, ◌++◌, is_some, is_some_and, str_eq, unwrap_or, arith, if◌then◌else◌,
}

pub data GoldbergState : Type 0 where
  applied applied_unverified original modified no_dll : GoldbergState

pub data GameStatus : Type 0 where
  ready needs_attention not_found needs_setup : GameStatus

-- The rows that explain what is wrong.
pub data Problem : Type 0 where
  exe_missing : Problem
  wrong_version : String → Problem
  bottle_missing : Problem
  wrong_template : String → Problem
  wrong_backend : Problem
  no_z_drive : Problem
  dll_missing : Problem

-- What `validate_pinned` reads: files that are there, the version stamp with its prefix tested, the
-- bottle's configuration as parsed, and the two comparisons of the dll with Goldberg's.
pub record GameProbe : Type 0 where
  pub exe_present : Bool
  pub raw_version : String
  pub version_is_supported : Bool
  pub bottle_named : Bool
  pub bottle_on_disk : Bool
  pub conf_template : Option String
  pub conf_backend_dxmt : Bool
  pub under_drive_c : Bool
  pub z_drive_exists : Bool
  pub dll_present : Bool
  pub dll_has_pin : Bool
  pub dll_equals_payload : Bool
  pub orig_steam_present : Bool

pub record GameValidity : Type 0 where
  pub exe_present : Bool
  pub detected_version : Option String
  pub version_ok : Bool
  pub bottle_exists : Bool
  pub bottle_template : Option String
  pub bottle_backend_dxmt : Bool
  pub outside_drive_c : Bool
  pub z_drive_ok : Option Bool
  pub goldberg : GoldbergState
  pub orig_steam_present : Bool
  pub status : GameStatus
  pub problems : List Problem

-- The dll: there, Goldberg's, with a backup of the original beside it.
unfoldable pub goldberg_state : Bool → Bool → Bool → GoldbergState
goldberg_state false _ _ = no_dll
goldberg_state true true true = applied
goldberg_state true true false = applied_unverified
goldberg_state true false true = modified
goldberg_state true false false = original

abbrev pub is_no_dll : GoldbergState → Bool
is_no_dll no_dll = true
is_no_dll _ = false

-- `z_drive_ok == Some(false)`
abbrev pub z_drive_bad : Option Bool → Bool
z_drive_bad z = is_some_and z not

abbrev pub row_if : Bool → Problem → List Problem
row_if b row = if b then row ∷ [] else []

unfoldable pub exe_problems : Bool → Bool → Option String → List Problem
exe_problems exe version_ok detected =
    if not exe
    then exe_missing ∷ []
    else row_if (not version_ok) (wrong_version (unwrap_or detected "?"))

unfoldable pub bottle_problems : Bool → Option String → Bool → List Problem
bottle_problems exists template dxmt =
    if not exists
    then bottle_missing ∷ []
    else row_if (not (is_some_and template (λ t. str_eq t "win11_64")))
        (wrong_template (unwrap_or template ""))
      ++ row_if (not dxmt) wrong_backend

unfoldable pub game_status : Bool → Bool → Bool → Bool → Bool → GameStatus
game_status exe bottle version_ok z_bad dll_gone =
    if not exe
    then not_found
    else if not bottle
    then needs_setup
    else if not version_ok || z_bad || dll_gone
    then needs_attention
    else ready

abbrev pub detected_version_of : GameProbe → Option String
detected_version_of p = if not (str_eq p.raw_version "?") then some p.raw_version else none

abbrev pub version_supported : GameProbe → Bool
version_supported p = is_some (detected_version_of p) && p.version_is_supported

abbrev pub bottle_found : GameProbe → Bool
bottle_found p = p.bottle_named && p.bottle_on_disk

abbrev pub template_of : GameProbe → Option String
template_of p = if bottle_found p then p.conf_template else none

abbrev pub backend_is_dxmt : GameProbe → Bool
backend_is_dxmt p = bottle_found p && p.conf_backend_dxmt

abbrev pub z_drive : GameProbe → Option Bool
z_drive p = if not p.under_drive_c then some p.z_drive_exists else none

abbrev pub goldberg_of : GameProbe → GoldbergState
goldberg_of p =
    goldberg_state p.dll_present (p.dll_present && (p.dll_has_pin || p.dll_equals_payload))
      p.orig_steam_present

unfoldable pub validate_pinned : GameProbe → GameValidity
validate_pinned p = record {
  exe_present = p.exe_present;
  detected_version = detected_version_of p;
  version_ok = version_supported p;
  bottle_exists = bottle_found p;
  bottle_template = template_of p;
  bottle_backend_dxmt = backend_is_dxmt p;
  outside_drive_c = not p.under_drive_c;
  z_drive_ok = z_drive p;
  goldberg = goldberg_of p;
  orig_steam_present = p.orig_steam_present;
  status =
      game_status p.exe_present (bottle_found p) (version_supported p) (z_drive_bad (z_drive p))
        (is_no_dll (goldberg_of p));
  problems =
      exe_problems p.exe_present (version_supported p) (detected_version_of p)
      ++ bottle_problems (bottle_found p) (template_of p) (backend_is_dxmt p)
      ++ row_if (z_drive_bad (z_drive p)) no_z_drive
      ++ row_if (is_no_dll (goldberg_of p)) dll_missing;
}
