-- ===== src/Fixes/Adb.antt =====
-- fixes/adb.rs: the stream forwards that an earlier wired launch left are removed, each by itself.
pub mod Only
use wine_vr.Prelude.{
  ℕ, String, Text, codes, string_of, lines, fields, text_eq, filter_map, Bool, true, false, Option,
  none, some, List, [], ◌∷◌, ◌++◌, any, map, is_empty, if◌then◌else◌,
}
use wine_vr.Host.Error.{Message, SabrageError, Result, ok, err}
use wine_vr.Host.Effect.{pure, attempt, ◌>>=◌, ◌>>◌}
use wine_vr.Config.Value.{decimal}
use wine_vr.Host.World.{info, warn, Command, Event, Env, M, emit, run_child}

unfoldable pub listed_row : List Text → Option (Text × Text)
listed_row (serial ∷ locl ∷ _) = some (serial, locl)
listed_row _ = none

unfoldable pub parse_forward_list : Text → List (Text × Text)
parse_forward_list stdout = filter_map (λ l. listed_row (fields l)) (lines stdout)

-- The contract's `ports.stream` as `tcp:<port>`.
abbrev pub stale_local_specs : List ℕ → List Text
stale_local_specs ports = map (λ p. codes "tcp:" ++ decimal p) ports

-- What `adb forward --list` ended with: its output, or why it could not be asked.
pub data Listing : Type 0 where
  rows : Text → Listing
  unlisted : String → Listing

pub record AdbFacts : Type 0 where
  pub adb : Option String
  pub ports : List ℕ
  pub listing : Listing

-- What a `FixReport` says: whether the machine was changed, and its description's parts.
pub data Report : Type 0 where
  unchanged : List Message → Report
  changed : List Message → Report

-- The rows cleared and the rows that stay, as the loop collects them.
pub record Clearing : Type 0 where
  pub cleared : List Message
  pub failed : List Message

abbrev pub clear_row : Env → String → Text → String → Clearing → Bool → M Clearing
clear_row e adb locl serial p true = do
  emit (Event.line info (Message.forward_cleared e.dry_run locl serial))
  pure (record p { cleared = p.cleared ++ Message.forward_cleared e.dry_run locl serial ∷ [] })
clear_row e adb locl serial p false = do
  emit (Event.line warn (Message.forward_uncleared locl serial))
  pure (record p { failed = p.failed ++ Message.forward_uncleared locl serial ∷ [] })

unfoldable pub clear_listed : Env → String → Text → String → Clearing → M Clearing
clear_listed e adb locl serial p = do
  took ← run_child e (Command.forward_clear adb serial locl)
  clear_row e adb locl serial p took

unfoldable pub clear_if : Env → String → Bool → Text → String → Clearing → M Clearing
clear_if e adb stale locl serial p = if stale then clear_listed e adb locl serial p else pure p

unfoldable pub clear_rows : Env → String → List Text → List (Text × Text) → Clearing → M Clearing
clear_rows e adb stale [] p = pure p
clear_rows e adb stale ((serial, locl) ∷ rest) p = do
  p' ← clear_if e adb (any (text_eq locl) stale) locl (string_of serial) p
  clear_rows e adb stale rest p'

unfoldable pub fix_report : Clearing → Report
fix_report p =
    if is_empty p.cleared then Report.unchanged p.failed else Report.changed (p.cleared ++ p.failed)

unfoldable pub clear_stale : Env → String → List Text → Listing → M Report
clear_stale e adb stale (unlisted reason) = do
  emit (Event.line warn (Message.forwards_unlisted (Message.adb_answer reason) stale))
  pure (Report.unchanged (Message.forwards_unlisted (Message.adb_answer reason) stale ∷ []))
clear_stale e adb stale (rows stdout) = do
  p ← clear_rows e adb stale (parse_forward_list stdout) (record { cleared = []; failed = [] })
  pure (fix_report p)

unfoldable pub remove_adb_forwards_by : Env → AdbFacts → Option String → M Report
remove_adb_forwards_by e f none = pure (Report.unchanged [])
remove_adb_forwards_by e f (some adb) = clear_stale e adb (stale_local_specs f.ports) f.listing

-- Without adb there is nothing to do.
unfoldable pub remove_adb_forwards_at : Env → AdbFacts → M Report
remove_adb_forwards_at e f = remove_adb_forwards_by e f f.adb
