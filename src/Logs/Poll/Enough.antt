-- ===== src/Logs/Poll/Enough.antt =====
-- logs.rs: the fuel of the loop of reads is enough.
use wine_vr.Prelude.{
  ◌≡◌, refl, ℕ, zero, suc, ◌+◌, ◌-◌, ◌≤◌, Bool, true, false, ◌&&◌, List, ltb, length, is_empty,
  arith,
}
use wine_vr.Host.Error.{Result, ok, err}
use wine_vr.Host.Effect.{pure, ◌>>=◌, ◌>>◌}
use wine_vr.Logs.Tailer.{Tailer, max_lines_per_poll}
use wine_vr.Logs.Poll.{
  Answers, T, current, modify, answer, take_chunk, min, poll_byte_budget, read_chunk_bytes, read_on,
}

module _ (consumed : ℕ) (next next' : List ℕ → T ℕ)
    (same : (chunk : List ℕ) (t : Tailer)
      → is_empty chunk ≡ false
      → next chunk t ≡ next' chunk t) where
  after_read : (List ℕ → T ℕ) → List ℕ → Bool → T ℕ
  after_read go chunk empty = elim empty [
    | true ↦ pure consumed
    | false ↦ do modify (take_chunk chunk); go chunk
  ]

  chunk-same :
      (chunk : List ℕ) (empty : Bool) (t : Tailer)
      → is_empty chunk ≡ empty
      → after_read next chunk empty t ≡ after_read next' chunk empty t
  unfolding after_read modify ◌>>=◌
  chunk-same chunk true t e = refl
  chunk-same chunk false t e = same chunk (take_chunk chunk t) e

  round : (List ℕ → T ℕ) → Result (List ℕ) → Bool → T ℕ
  round go r more = elim more [
    | false ↦ pure consumed
    | true ↦ do
      chunk ← answer r
      elim (is_empty chunk) [
        | true ↦ pure consumed
        | false ↦ do modify (take_chunk chunk); go chunk
      ]
  ]

  round-same :
      (r : Result (List ℕ)) (more : Bool) (t : Tailer) → round next r more t ≡ round next' r more t
  unfolding round after_read answer ◌>>=◌
  round-same r false t = refl
  round-same (err x) true t = refl
  round-same (ok chunk) true t = chunk-same chunk (is_empty chunk) t refl

-- Once the fuel covers what is left of the budget, more of it changes nothing.
pub read_on-enough :
    (a : Answers) (fuel consumed : ℕ) (t : Tailer)
    → poll_byte_budget ≤ consumed + fuel
    → read_on a fuel consumed t ≡ read_on a (suc fuel) consumed t
unfolding read_on current round after_read ◌>>=◌
read_on-enough a zero consumed t h = ground arith
read_on-enough a (suc fuel) consumed t h =
    round-same consumed (λ chunk. read_on a fuel (consumed + length chunk))
      (λ chunk. read_on a (suc fuel) (consumed + length chunk))
      (λ chunk u e. read_on-enough a fuel (consumed + length chunk) u (ground arith))
      (a.read consumed (min read_chunk_bytes (poll_byte_budget - consumed)))
      (ltb consumed poll_byte_budget && ltb (length t.pending) max_lines_per_poll) t
