-- ===== src/Logs/Tailer.antt =====
-- logs.rs: the cursor of a tailer, its witness of continuity, and the queue of its lines.
pub mod Signature
pub mod Queue
use wine_vr.Prelude.{
  take, drop, ℕ, zero, suc, ◌-◌, Bool, true, false, not, Option, List, [], ◌∷◌, ◌++◌, ltb, length,
  is_empty, Text, if◌then◌else◌,
}
use wine_vr.Host.Splitter.{ChunkSplitter}

-- `MAX_LINES_PER_POLL`
abbrev pub max_lines_per_poll : ℕ
max_lines_per_poll = 2000

-- `CONTINUITY_SIGNATURE_BYTES`
abbrev pub continuity_signature_bytes : ℕ
continuity_signature_bytes = 64

-- `Tailer`, less the path. `opened` (the `open` of the source) is the identity of the file that is open, and a line its bytes
-- before the lossy decoding.
pub record Tailer : Type 0 where
  pub opened : Option ℕ
  pub offset : ℕ
  pub signature : List ℕ
  pub splitter : ChunkSplitter
  pub unterminated : ℕ
  pub pending : List Text
  pub carry : ℕ
  pub pending_rotation : Bool

-- `LogBatch`, less the path.
pub record LogBatch : Type 0 where
  pub lines : List Text
  pub rotated : Bool
  pub truncated : Bool

-- `update_signature`
unfoldable pub update_signature : List ℕ → List ℕ → List ℕ
update_signature signature chunk =
    let most = continuity_signature_bytes in
    let all = signature ++ chunk in
    if not (ltb (length chunk) most)
    then drop (length chunk - most) chunk
    else if ltb most (length all)
    then drop (length all - most) all
    else all

-- The most lines of one batch: none from behind the lines that were carried over a rotation.
abbrev pub batch_cap : ℕ → ℕ
batch_cap carry =
    if ltb 0 carry
    then (if ltb carry max_lines_per_poll then carry else max_lines_per_poll)
    else max_lines_per_poll

-- `drain_capped`
unfoldable pub drain_capped : Tailer → (List Text × Bool) × Tailer
drain_capped t =
    let lines = take (batch_cap t.carry) t.pending in
    let left = drop (batch_cap t.carry) t.pending in
    ((lines, not (is_empty left)), record t { pending = left; carry = t.carry - length lines })
