-- ===== src/Logs/Start.antt =====
-- logs.rs: the witness in a file, the start of a tailer, and the names of the logs.
pub mod Continuity
use wine_vr.Prelude.{
  ℕ, suc, ◌+◌, ◌-◌, Bool, true, false, not, ◌&&◌, Option, none, some, List, [], ◌∷◌, ◌++◌, map, ltb,
  ◌==◌, length, take, drop, is_empty, Text, codes, text_eq, starts_with, filter_map, if◌then◌else◌,
}
use wine_vr.Host.Splitter.{ChunkSplitter, new_splitter, push_with}
use wine_vr.Config.Value.{decimal}
use wine_vr.Logs.Tailer.{Tailer, continuity_signature_bytes}
use wine_vr.Logs.Poll.{line_of, min}

-- `read_signature`, of a file of these bytes; a file that is too short has none.
unfoldable pub read_signature : List ℕ → ℕ → List ℕ
read_signature file offset =
    let want = min offset continuity_signature_bytes in
    if ltb (length file) offset then [] else take want (drop (offset - want) file)

-- `TAIL_PRELOAD_CAP_BYTES`
abbrev pub tail_preload_cap_bytes : ℕ
tail_preload_cap_bytes = 262144

abbrev pub cut_head : ℕ → List Text → List Text
cut_head start lines = if ltb 0 start then drop 1 lines else lines

abbrev pub last_lines : ℕ → List Text → List Text
last_lines most lines = drop (length lines - most) lines

abbrev pub fresh : Option ℕ → Tailer
fresh id = record {
  opened = id;
  offset = 0;
  signature = [];
  splitter = new_splitter;
  unterminated = 0;
  pending = [];
  carry = 0;
  pending_rotation = false;
}

abbrev pub at_end : List ℕ → Tailer → Tailer
at_end file t = record t { offset = length file; signature = read_signature file (length file) }

-- The last lines of the file, of at most so many of its bytes.
abbrev pub preload : List ℕ → ℕ → Tailer → Tailer
preload file tail_lines t =
    let start = length file - min (length file) tail_preload_cap_bytes in
    let pushed = push_with (drop start file) new_splitter in
    record t {
      splitter = pushed.1;
      pending = last_lines tail_lines (cut_head start (map line_of pushed.0));
    }

-- `Tailer::open`, of the file's identity and bytes where there is one.
unfoldable pub open_tailer : Option (ℕ × List ℕ) → Bool → ℕ → Tailer
open_tailer none from_end tail_lines = fresh none
open_tailer (some (id, file)) from_end tail_lines =
    if from_end
    then at_end file (
        if ltb 0 tail_lines && ltb 0 (length file)
        then preload file tail_lines (fresh (some id))
        else fresh (some id))
    else fresh (some id)

-- `WINE_LOG_PREFIX`
abbrev pub wine_log_prefix : Text
wine_log_prefix = codes "beatsaber-"

-- The file name of `wine_log_candidate_stamped`
unfoldable pub wine_log_candidate_stamped : Text → ℕ → Text
wine_log_candidate_stamped stamp attempt =
    if attempt == 0
    then wine_log_prefix ++ stamp ++ codes ".log"
    else wine_log_prefix ++ stamp ++ b'-' ∷ decimal (suc attempt) ++ codes ".log"

-- An entry of the logs' directory whose name and metadata could be read.
pub record Entry : Type 0 where
  pub file_name : Text
  pub is_regular : Bool
  pub modified_unix_ms : ℕ

abbrev pub ends_with : Text → Text → Bool
ends_with end s = text_eq (drop (length s - length end) s) end

abbrev pub past_run : Entry → Option Entry
past_run e =
    if starts_with wine_log_prefix e.file_name
      && ends_with (codes ".log") e.file_name
      && e.is_regular
    then some e
    else none

-- `sort_by_key` on the reversed time, which is stable.
abbrev pub put_run : Entry → List Entry → List Entry
put_run a [] = a ∷ []
put_run a (b ∷ bs) =
    let rest = put_run a bs in
    if ltb a.modified_unix_ms b.modified_unix_ms then b ∷ rest else a ∷ b ∷ bs

abbrev pub newest_runs : List Entry → List Entry
newest_runs [] = []
newest_runs (a ∷ rest) = put_run a (newest_runs rest)

-- `list_past_runs`
unfoldable pub list_past_runs : List Entry → List Entry
list_past_runs entries = newest_runs (filter_map past_run entries)
