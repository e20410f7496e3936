-- ===== src/Store/Library.antt =====
-- store/library.rs: the games, and the transactions on their file. A game's id is a number.
pub mod Lookup
pub mod Transaction
pub mod Unique
use wine_vr.Prelude.{
  ℕ, ◌≡◌, String, Bool, true, false, not, Option, none, some, List, [], ◌∷◌, ◌==◌, ltb, find,
  retain, length, unwrap_or, str_eq, eq_iff, Bool-cases, inl, inr, if◌then◌else◌,
}
use native.Mathlib.Decide.{ℕ_discrete}
use wine_vr.Host.Error.{Message, SabrageError, Result, ok, err}
use wine_vr.Host.World.{FileAnswer, done, refused, done_late, answer_of}
use wine_vr.Store.Settings.{Settings, StageOptions}

pub record LaunchOverrides : Type 0 where
  pub no_audio : Option Bool
  pub no_dashboard : Option Bool
  pub wired : Option Bool
  pub verbose : Option Bool

pub record LastSession : Type 0 where
  pub started_at_unix_ms : ℕ
  pub ended_at_unix_ms : ℕ
  pub exit_code : Option ℕ
  pub log_path : Option String

pub record GameEntry : Type 0 where
  pub id : ℕ
  pub name : String
  pub bs_dir : String
  pub bottle : String
  pub appid : ℕ
  pub added_at_unix_ms : ℕ
  pub launch_overrides : LaunchOverrides
  pub last_session : Option LastSession

pub record Library : Type 0 where
  pub version : ℕ
  pub games : List GameEntry

abbrev pub library_version : ℕ
library_version = 1

abbrev pub default_library : Library
default_library = record { version = library_version; games = [] }

unfoldable pub get : ℕ → Library → Option GameEntry
get id lib = find (λ (g : GameEntry). g.id == id) lib.games

-- Replace the first game with the entry's id, or push the entry.
unfoldable pub put : GameEntry → List GameEntry → List GameEntry
put entry [] = entry ∷ []
put entry (g ∷ games) =
    let rest = put entry games in if g.id == entry.id then entry ∷ games else g ∷ rest

unfoldable pub upsert : GameEntry → Library → Library
upsert entry lib = record lib { games = put entry lib.games }

unfoldable pub remove : ℕ → Library → Bool × Library
remove id lib =
    let games = retain (λ (g : GameEntry). not (g.id == id)) lib.games in
    (not (length games == length lib.games), record lib { games = games })

-- The fields that the library owns, from the game that is there.
abbrev pub merge_over : Option GameEntry → GameEntry → GameEntry
merge_over none incoming = incoming
merge_over (some existing) incoming = record incoming {
  last_session = existing.last_session;
  added_at_unix_ms = existing.added_at_unix_ms;
  appid = existing.appid;
}

unfoldable pub upsert_editable : GameEntry → Library → Library
upsert_editable incoming lib = upsert (merge_over (get incoming.id lib) incoming) lib

abbrev pub with_last_session : LastSession → GameEntry → GameEntry
with_last_session session g = record g { last_session = some session }

-- Change the first game with the id.
unfoldable pub change_first : ℕ → (GameEntry → GameEntry) → List GameEntry → Bool × List GameEntry
change_first id f [] = (false, [])
change_first id f (g ∷ games) =
    let rest = change_first id f games in
    if g.id == id then (true, f g ∷ games) else (rest.0, g ∷ rest.1)

unfoldable pub record_last_session : ℕ → LastSession → Library → Bool × Library
record_last_session id session lib =
    let r = change_first id (with_last_session session) lib.games in
    (r.0, record lib { games = r.1 })

unfoldable pub effective_options : Settings → GameEntry → StageOptions
effective_options settings entry =
    let o = entry.launch_overrides in
    record {
      bottle_name = some entry.bottle;
      bs_dir_override = some entry.bs_dir;
      dry_run = false;
      verbose = unwrap_or o.verbose settings.launch.verbose;
      no_audio = unwrap_or o.no_audio settings.launch.no_audio;
      no_dashboard = unwrap_or o.no_dashboard settings.launch.no_dashboard;
      wired = unwrap_or o.wired settings.launch.wired;
    }

unfoldable pub launch_options_for : ℕ → Settings → Library → Option StageOptions
launch_options_for id settings lib = elim (get id lib) [
  | none ↦ none
  | some entry ↦ some (effective_options settings entry)
]

ne_false : {b : Bool} → b ≡ false → b ≡ true → ⊥
ne_false e k = cc

-- What the file is: absent, not readable, not a library, or a library.
pub data LibraryFile : Type 0 where
  absent unreadable corrupt : LibraryFile
  holds : Library → LibraryFile

abbrev pub update_remedy : Option String
update_remedy = some "update Sabrage (or move library.json aside to start a fresh library)"

unfoldable pub load : LibraryFile → Result Library
load absent = ok default_library
load unreadable = err (SabrageError.io "library.json")
load corrupt = err (SabrageError.io "library.json")
load (holds lib) =
    if ltb library_version lib.version
    then err (SabrageError.fatal (Message.newer_library lib.version) update_remedy)
    else ok lib

abbrev pub written : FileAnswer → Library → LibraryFile → LibraryFile
written (refused x) lib file = file
written _ lib file = holds lib

-- `make` and `write` are what the executor answers to the creation of the directory and the write.
unfoldable pub save :
    FileAnswer → FileAnswer → Library → LibraryFile → Result (Unit {0}) × LibraryFile
save make write lib file = elim (answer_of make) [
  | err x ↦ (err x, file)
  | ok u ↦ (answer_of write, written write lib file)
]

String-discrete : Discrete String
String-discrete a b = elim (Bool-cases (str_eq a b)) [
  | inl same ↦ yes ((eq_iff a b).0 same)
  | inr differ ↦ no (λ e. absurd (ne_false differ ((eq_iff a b).1 e)))
]

-- `PartialEq` of `Library`.
pub Library-discrete : Discrete Library
Library-discrete = hlevel (ℕ_discrete, String-discrete)

abbrev pub commit : {T : Type 0} → T → Result (Unit {0}) × LibraryFile → Result T × LibraryFile
commit out (ok u, file) = (ok out, file)
commit out (err x, file) = (err x, file)

-- Nothing is written where nothing changed.
abbrev pub save_changed :
    {T : Type 0} {before lib : Library}
    → Dec (before ≡ lib)
    → T
    → FileAnswer
    → FileAnswer
    → LibraryFile
    → Result T × LibraryFile
save_changed (yes same) out make write file = (ok out, file)
save_changed {lib} (no changed) out make write file = commit out (save make write lib file)

abbrev pub transact_loaded :
    {T : Type 0}
    → Result Library
    → (Library → T × Library)
    → FileAnswer
    → FileAnswer
    → LibraryFile
    → Result T × LibraryFile
transact_loaded (err x) f make write file = (err x, file)
transact_loaded (ok before) f make write file =
    let (out, lib) = f before in save_changed (Library-discrete before lib) out make write file

-- `transact`: the lock makes the load and the write one step.
unfoldable pub transact :
    {T : Type 0}
    → (Library → T × Library)
    → FileAnswer
    → FileAnswer
    → LibraryFile
    → Result T × LibraryFile
transact f make write file = transact_loaded (load file) f make write file
