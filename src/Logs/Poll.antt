-- ===== src/Logs/Poll.antt =====
-- logs.rs: one poll of a tailer, with what the file system answers as an input.
pub mod Grown
pub mod Fifo
pub mod Enough
use wine_vr.Prelude.{
  ℕ, zero, suc, ◌+◌, ◌-◌, Bool, true, false, not, ◌&&◌, ◌||◌, Option, none, some, List, [], ◌∷◌,
  ◌++◌, map, ◌==◌, ltb, length, take, is_empty, is_some_and, Text, text_eq, if◌then◌else◌,
}
use wine_vr.Host.Error.{SabrageError, Result, ok, err}
use wine_vr.Host.Effect.{Eff, pure, throw, ◌>>=◌, ◌>>◌}
use wine_vr.Host.Splitter.{ChunkSplitter, Chunk, new_splitter, push_with, finish_with}
use wine_vr.Logs.Tailer.{Tailer, LogBatch, max_lines_per_poll, update_signature, drain_capped}

-- `POLL_BYTE_BUDGET`
abbrev pub poll_byte_budget : ℕ
poll_byte_budget = 1048576

-- `READ_CHUNK_BYTES`
abbrev pub read_chunk_bytes : ℕ
read_chunk_bytes = 65536

-- `MAX_UNTERMINATED_LINE_BYTES`
abbrev pub max_unterminated_line_bytes : ℕ
max_unterminated_line_bytes = 1048576

pub record Meta : Type 0 where
  pub id : ℕ
  pub len : ℕ

-- What the file system answers during a poll: the metadata of the path, where there is a file; the
-- bytes before the cursor at the first look; whether the file opens; what a read returns after
-- so many bytes of this poll, at most so many; the bytes before the cursor after the reads; and the
-- identity of the open file then.
pub record Answers : Type 0 where
  pub meta : Result (Option Meta)
  pub seen : Result (List ℕ)
  pub reopened : Result (Unit {0})
  pub read : ℕ → ℕ → Result (List ℕ)
  pub seen_after : Result (List ℕ)
  pub id_after : Option ℕ

abbrev pub T : Type 0 → Type 0
T = Eff Tailer

unfoldable pub current : T Tailer
current t = (ok t, t)

unfoldable pub modify : (Tailer → Tailer) → T (Unit {0})
modify f t = (ok tt, f t)

unfoldable pub answer : {A : Type 0} → Result A → T A
answer r t = (r, t)

-- The batch of the lines that are due.
unfoldable pub drain : Bool → Bool → T LogBatch
drain rotated more t =
    let d = drain_capped t in
    (ok (record { lines = d.0.0; rotated = rotated; truncated = d.0.1 || more }), d.1)

abbrev pub unopened : Tailer → Tailer
unopened t = record t { opened = none; signature = [] }

-- Whether another file, or a shorter one, is at the path.
abbrev pub is_other : Tailer → Meta → Bool
is_other t m = elim t.opened [ none ↦ true | some id ↦ not (id == m.id) || ltb m.len t.offset ]

-- The look at the bytes before the cursor.
unfoldable pub rewritten : Answers → Tailer → T Bool
rewritten a t = do seen ← answer a.seen; pure (not (text_eq seen t.signature))

unfoldable pub is_rotated : Answers → Meta → T Bool
is_rotated a m = do t ← current; if is_other t m then pure true else rewritten a t

-- The tailer at the start of a file.
abbrev pub restarted : ℕ → Tailer → Tailer
restarted id t = record t {
  opened = some id;
  offset = 0;
  signature = [];
  splitter = new_splitter;
  unterminated = 0;
}

abbrev pub carried : Tailer → Tailer
carried t = record t { carry = length t.pending; pending_rotation = true }

abbrev pub line_of : Chunk → Text
line_of c = c.bytes

abbrev pub count_unterminated : ℕ → List Chunk → ℕ → ℕ
count_unterminated before chunks n = if is_empty chunks then before + n else 0

-- A line that has outgrown the bound is broken.
abbrev pub broken : Tailer → Tailer
broken t = if ltb t.unterminated max_unterminated_line_bytes then t else record t {
  pending = t.pending ++ map line_of (finish_with t.splitter);
  splitter = new_splitter;
  unterminated = 0;
}

-- What one read of bytes does.
unfoldable pub take_chunk : List ℕ → Tailer → Tailer
take_chunk chunk t =
    let pushed = push_with chunk t.splitter in
    broken (record t {
      signature = update_signature t.signature chunk;
      splitter = pushed.1;
      pending = t.pending ++ map line_of pushed.0;
      unterminated = count_unterminated t.unterminated pushed.0 (length chunk);
    })

abbrev pub min : ℕ → ℕ → ℕ
min a b = if ltb a b then a else b

-- The loop of reads, for as many as the fuel; the result is how many bytes were read.
unfoldable pub read_on : Answers → ℕ → ℕ → T ℕ
read_on a zero consumed = pure consumed
read_on a (suc fuel) consumed = do
  t ← current
  elim (ltb consumed poll_byte_budget && ltb (length t.pending) max_lines_per_poll) [
    | false ↦ pure consumed
    | true ↦ do
      chunk ← answer (a.read consumed (min read_chunk_bytes (poll_byte_budget - consumed)))
      elim (is_empty chunk) [
        | true ↦ pure consumed
        | false ↦ do modify (take_chunk chunk); read_on a fuel (consumed + length chunk)
      ]
  ]

-- Whether the file was replaced while it was read.
unfoldable pub straddles : Answers → Meta → Tailer → ℕ → T Bool
straddles a m before consumed =
    if ltb 0 consumed
    then (do
      seen ← answer a.seen_after
      pure (not (text_eq seen before.signature) || not (is_some_and a.id_after (λ id. id == m.id))))
    else pure false

-- The read is undone, and the next poll starts over.
abbrev pub undone : ℕ → Tailer → Tailer
undone pending_before t = record t {
  opened = none;
  offset = 0;
  signature = [];
  splitter = new_splitter;
  unterminated = 0;
  pending = take pending_before t.pending;
  pending_rotation = true;
}

-- The marker of a rotation that an earlier poll saw.
abbrev pub marker_due : Bool → Tailer → Bool
marker_due rotated t = not rotated && t.carry == 0 && t.pending_rotation

abbrev pub marked : Bool → Tailer → Tailer
marked rotated t = if not rotated && t.carry == 0 then record t { pending_rotation = false } else t

unfoldable pub announce : Bool → ℕ → T LogBatch
announce rotated consumed = do
  modify (λ t. record t { offset = t.offset + consumed })
  t ← current
  modify (marked rotated)
  drain (rotated || marker_due rotated t) (not (ltb consumed poll_byte_budget))

abbrev pub end_read : Bool → ℕ → ℕ → Bool → T LogBatch
end_read rotated pending_before consumed true = modify (undone pending_before) >> drain false false
end_read rotated pending_before consumed false = announce rotated consumed

unfoldable pub read_batch : Answers → Meta → Bool → T LogBatch
read_batch a m rotated = do
  before ← current
  consumed ← read_on a (suc poll_byte_budget) 0
  straddled ← straddles a m before consumed
  end_read rotated (length before.pending) consumed straddled

-- A file that was replaced is opened; lines of the one before go out first.
unfoldable pub reopen : Answers → Meta → T LogBatch
reopen a m = do
  answer a.reopened
  t ← current
  modify (restarted m.id)
  if is_empty t.pending then read_batch a m true else modify carried >> drain false false

unfoldable pub poll_file : Answers → Option Meta → T LogBatch
poll_file a none = modify unopened >> drain false false
poll_file a (some m) = do
  rotated ← is_rotated a m
  if rotated then reopen a m else read_batch a m false

-- `poll`
unfoldable pub poll : Answers → T LogBatch
poll a = do m ← answer a.meta; poll_file a m
