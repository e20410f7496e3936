-- ===== src/Tests/Tails.antt =====
-- A log that is replaced while it is read.
use wine_vr.Prelude.{
  ◌≤◌, length, arith, ◌≡◌, refl, ℕ, true, false, some, [], ◌∷◌, ◌==◌, Text, codes, if◌then◌else◌,
}
use wine_vr.Host.Error.{Result, ok}
use wine_vr.Host.Effect.{pure, ◌>>=◌}
use wine_vr.Host.Splitter.{new_splitter, push_with, push_byte, match_byte}
use wine_vr.Logs.Tailer.{Tailer, LogBatch, drain_capped, update_signature}
use wine_vr.Logs.Poll.{
  Answers, current, modify, answer, drain, rewritten, is_rotated, take_chunk, read_on, straddles,
  announce, read_batch, reopen, poll_file, poll,
}
use wine_vr.Host.Effect.Rules.{Post}
use wine_vr.Logs.Poll.Grown.{Grown}
use wine_vr.Logs.Poll.Fifo.{Fifo, poll-Fifo}
use wine_vr.Logs.Start.{read_signature}
use wine_vr.Logs.Start.Continuity.{update_signature-read_signature}

abbrev start : Tailer
start = record {
  opened = some 1;
  offset = 0;
  signature = [];
  splitter = new_splitter;
  unterminated = 0;
  pending = [];
  carry = 0;
  pending_rotation = false;
}

-- The file `id` holds `text`, from `from` on.
abbrev holds : ℕ → Text → ℕ → Answers
holds id text len = record {
  meta = ok (some (record { id = id; len = len }));
  seen = ok [];
  reopened = ok tt;
  read = λ consumed most. ok (if consumed == 0 then text else []);
  seen_after = ok [];
  id_after = some id;
}

-- The file 1 is replaced by the file 2 during the first poll.
abbrev straddling : Answers
straddling = record (holds 1 (codes "a\n") 2) { id_after = some 2 }

abbrev batch_of : Result LogBatch × Tailer → Result LogBatch
batch_of r = r.0

rotated_once :
    (poll (holds 2 (codes "b\n") 2) (poll straddling start).1).0
    ≡ ok (record { lines = codes "b" ∷ []; rotated = true; truncated = false })
unfolding poll poll_file is_rotated rewritten reopen read_batch read_on straddles announce drain
    current modify answer take_chunk update_signature push_with push_byte match_byte drain_capped
    pure ◌>>=◌
rotated_once = refl

-- The file 2 goes on, and is announced as another once more.
rotated_twice :
    (poll
      (record (holds 2 (codes "c\n") 4) { seen = ok (codes "b\n"); seen_after = ok (codes "b\n") })
      (poll (holds 2 (codes "b\n") 2) (poll straddling start).1).1).0
    ≡ ok (record { lines = codes "c" ∷ []; rotated = true; truncated = false })
unfolding poll poll_file is_rotated rewritten reopen read_batch read_on straddles announce drain
    current modify answer take_chunk update_signature push_with push_byte match_byte drain_capped
    pure ◌>>=◌
rotated_twice = refl

-- Nothing is carried.
start_bound : start.carry ≤ length start.pending
start_bound = ground arith

poll-Fifo_example :
    Post (Fifo start start_bound) (Grown start) (poll straddling start).0 (poll straddling start).1
poll-Fifo_example = poll-Fifo start start_bound straddling

update_signature-read_signature_example :
    update_signature (read_signature (codes "ab\ncd\ne") 3) (codes "cd\n")
    ≡ read_signature (codes "ab\ncd\ne") 6
update_signature-read_signature_example =
    update_signature-read_signature (codes "ab\n") (codes "cd\n") (codes "e")
