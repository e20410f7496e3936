-- ===== src/Host/Splitter/Plain.antt =====
-- No chunk holds a terminator.
use wine_vr.Prelude.{
  ℕ, ◌≡◌, refl, Bool, true, false, List, [], ◌∷◌, ◌++◌, ◌==◌, is_empty, All, All-append,
  if◌then◌else◌,
}
use wine_vr.Host.Splitter.{
  ended_by, cr, eof, ChunkSplitter, Chunk, new_splitter, newline, carriage_return, match_byte,
  push_byte, push_with, finish_with,
}

abbrev pub IsPlain : ℕ → Type 0
IsPlain b = ((b == newline) ≡ false) × ((b == carriage_return) ≡ false)

abbrev pub PlainChunk : Chunk → Type 0
PlainChunk c = All IsPlain c.bytes

abbrev Plain : List Chunk × ChunkSplitter → Type 0
Plain r = All PlainChunk r.0 × All IsPlain r.1.buf

Plain-if :
    (b : Bool) (x y : List Chunk × ChunkSplitter)
    → (b ≡ true → Plain x)
    → (b ≡ false → Plain y)
    → Plain (if b then x else y)
Plain-if true x y h k = h refl
Plain-if false x y h k = k refl

match_byte-Plain : (b : ℕ) (s : ChunkSplitter) → All IsPlain s.buf → Plain (match_byte b s)
unfolding match_byte
match_byte-Plain b s h =
    Plain-if (b == newline) _ _ (λ _. ((h, tt), tt))
      (λ no_lf.
        Plain-if (b == carriage_return) _ _ (λ _. (tt, h))
          (λ no_cr. (tt, All-append IsPlain s.buf (b ∷ []) h ((no_lf, no_cr), tt))))

push_byte-Plain : (b : ℕ) (s : ChunkSplitter) → All IsPlain s.buf → Plain (push_byte b s)
unfolding push_byte
push_byte-Plain b s h =
    Plain-if s.pending_cr _ _
      (λ _.
        Plain-if (b == newline) _ _ (λ _. ((h, tt), tt))
          (λ _. let k = match_byte-Plain b new_splitter tt in ((h, k.0), k.1)))
      (λ _. match_byte-Plain b s h)

push_with-Plain :
    (bytes : List ℕ) (s : ChunkSplitter) → All IsPlain s.buf → Plain (push_with bytes s)
unfolding push_with
push_with-Plain [] s h = (tt, h)
push_with-Plain (b ∷ bytes) s h =
    let first = push_byte-Plain b s h in
    let rest = push_with-Plain bytes (push_byte b s).1 first.1 in
    (
      All-append PlainChunk (push_byte b s).0 (push_with bytes (push_byte b s).1).0 first.0 rest.0,
      rest.1,
    )

finish_with-Plain : (s : ChunkSplitter) → All IsPlain s.buf → All PlainChunk (finish_with s)
unfolding finish_with
finish_with-Plain s h =
    elim s.pending_cr
      as (λ p.
        All PlainChunk
          (if p then ended_by cr s ∷ [] else if is_empty s.buf then [] else ended_by eof s ∷ [])) [
            | true ↦ (h, tt)
            | false ↦
                elim (is_empty s.buf)
                  as (λ e. All PlainChunk (if e then [] else ended_by eof s ∷ [])) [
                    | true ↦ tt
                    | false ↦ (h, tt)
                  ]
          ]

-- No chunk of a stream holds a newline or a carriage return.
pub splitter-PlainChunk :
    (bytes : List ℕ)
    → All PlainChunk
        ((push_with bytes new_splitter).0 ++ finish_with (push_with bytes new_splitter).1)
splitter-PlainChunk bytes =
    let h = push_with-Plain bytes new_splitter tt in
    All-append PlainChunk (push_with bytes new_splitter).0 _ h.0
      (finish_with-Plain (push_with bytes new_splitter).1 h.1)
