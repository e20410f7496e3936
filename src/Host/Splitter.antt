-- ===== src/Host/Splitter.antt =====
-- process.rs: ChunkSplitter, over bytes; a chunk is its bytes before the lossy decoding, and how it was
-- terminated.
pub mod Lossless
pub mod Plain
use wine_vr.Prelude.{ℕ, Bool, true, false, List, [], ◌∷◌, ◌++◌, ◌==◌, is_empty, if◌then◌else◌}

pub data ChunkEnd : Type 0 where
  lf cr eof : ChunkEnd

pub record ChunkSplitter : Type 0 where
  pub buf : List ℕ
  pub pending_cr : Bool

pub record Chunk : Type 0 where
  pub bytes : List ℕ
  pub end : ChunkEnd

abbrev pub new_splitter : ChunkSplitter
new_splitter = record { buf = []; pending_cr = false }

abbrev pub ended_by : ChunkEnd → ChunkSplitter → Chunk
ended_by e s = record { bytes = s.buf; end = e }

abbrev pub newline : ℕ
newline = 10

abbrev pub carriage_return : ℕ
carriage_return = 13

-- The `match` on a byte with no carriage return before it.
unfoldable pub match_byte : ℕ → ChunkSplitter → List Chunk × ChunkSplitter
match_byte b s =
    if b == newline
    then (ended_by lf s ∷ [], new_splitter)
    else if b == carriage_return
    then ([], record s { pending_cr = true })
    else ([], record s { buf = s.buf ++ b ∷ [] })

-- The byte behind a carriage return decides what that was.
unfoldable pub push_byte : ℕ → ChunkSplitter → List Chunk × ChunkSplitter
push_byte b s =
    let rest = match_byte b new_splitter in
    if s.pending_cr
    then (if b == newline
        then (ended_by lf s ∷ [], new_splitter)
        else (ended_by cr s ∷ rest.0, rest.1))
    else match_byte b s

unfoldable pub push_with : List ℕ → ChunkSplitter → List Chunk × ChunkSplitter
push_with [] s = ([], s)
push_with (b ∷ bytes) s =
    let first = push_byte b s in let rest = push_with bytes first.1 in (first.0 ++ rest.0, rest.1)

unfoldable pub finish_with : ChunkSplitter → List Chunk
finish_with s =
    if s.pending_cr then ended_by cr s ∷ [] else if is_empty s.buf then [] else ended_by eof s ∷ []
