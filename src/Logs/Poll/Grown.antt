-- ===== src/Logs/Poll/Grown.antt =====
-- logs.rs: reading only adds to the lines that wait.
use mathlib.Core.List.{append-nil, append_assoc}
use wine_vr.Prelude.{
  ◌≡◌, refl, sym, ap, ◌∙◌, ℕ, zero, suc, ◌+◌, ◌-◌, Bool, true, false, not, ◌&&◌, List, [], ◌∷◌,
  ◌++◌, map, ◌==◌, ltb, length, take, is_empty, Text, arith, if◌then◌else◌,
}
use wine_vr.Host.Error.{Result, ok, err}
use wine_vr.Host.Effect.{pure, ◌>>=◌, ◌>>◌}
use wine_vr.Host.Effect.Rules.{Post, Triple, Triple-pure, Triple-if, Triple-bind, Triple-conseq}
use wine_vr.Host.Splitter.{push_with, finish_with}
use wine_vr.Logs.Tailer.{Tailer, max_lines_per_poll}
use wine_vr.Logs.Poll.{
  Meta, Answers, T, current, modify, answer, line_of, broken, take_chunk, min, poll_byte_budget,
  read_chunk_bytes, read_on, straddles, undone, marked, max_unterminated_line_bytes,
}

module _ (P : Tailer → Type 0) where
  pub On-current : (E : Tailer → Type 0) → Triple P current (λ s t. P s × P t) E
  unfolding current
  On-current E = record { at = λ t h. (h, h) }

  pub On-modify :
      (f : Tailer → Tailer) (Q E : Tailer → Type 0)
      → ((t : Tailer) → P t → Q (f t))
      → Triple P (modify f) (λ u. Q) E
  unfolding modify
  On-modify f Q E h = record { at = λ t p. h t p }

  answer-Post : {A : Type 0} (r : Result A) (t : Tailer) → P t → Post (λ a. P) P r t
  answer-Post (ok a) t h = h
  answer-Post (err x) t h = h

  pub On-answer : {A : Type 0} (r : Result A) → Triple P (answer r) (λ a. P) P
  unfolding answer
  On-answer r = record { at = λ t h. answer-Post r t h }

pub length-append : (xs ys : List Text) → length (xs ++ ys) ≡ length xs + length ys
length-append [] ys = ground arith
length-append (x ∷ xs) ys = ground (arith, length-append xs ys)

take-length : (xs ys : List Text) → take (length xs) (xs ++ ys) ≡ xs
take-length [] ys = refl
take-length (x ∷ xs) ys = ap (λ t. x ∷ t) (take-length xs ys)

module _ (t0 : Tailer) where
  -- Only new lines were queued, and as many are carried.
  abbrev pub Grown : Tailer → Type 0
  Grown t = ((new : List Text) × (t.pending ≡ t0.pending ++ new)) × (t.carry ≡ t0.carry)

  -- The queue is as it was.
  abbrev pub Same : Tailer → Type 0
  Same t = (t.pending ≡ t0.pending) × (t.carry ≡ t0.carry)

  pub Same-Grown : (t : Tailer) → Same t → Grown t
  Same-Grown t h = (([], h.0 ∙ sym (append-nil t0.pending)), h.1)

  pub append-Grown :
      (t : Tailer) (more : List Text) → Grown t → Grown (record t { pending = t.pending ++ more })
  append-Grown t more h =
      ((h.0.0 ++ more, ap (λ p. p ++ more) h.0.1 ∙ append_assoc t0.pending h.0.0 more), h.1)

  Grown-if : (b : Bool) (x y : Tailer) → Grown x → Grown y → Grown (if b then x else y)
  Grown-if true x y h k = h
  Grown-if false x y h k = k

  broken-Grown : (t : Tailer) → Grown t → Grown (broken t)
  broken-Grown t h =
      Grown-if (ltb t.unterminated max_unterminated_line_bytes) _ _ h
        (append-Grown t (map line_of (finish_with t.splitter)) h)

  pub take_chunk-Grown : (chunk : List ℕ) (t : Tailer) → Grown t → Grown (take_chunk chunk t)
  unfolding take_chunk
  take_chunk-Grown chunk t h =
      broken-Grown _ (append-Grown t (map line_of (push_with chunk t.splitter).0) h)

  -- One round, where the rounds behind it keep the queue.
  module _ (consumed : ℕ) (next : List ℕ → T ℕ)
      (rest : (chunk : List ℕ) → Triple Grown (next chunk) (λ n. Grown) Grown) where
    chunk-Grown :
        (chunk : List ℕ) (empty : Bool)
        → Triple Grown
            (elim empty [ true ↦ pure consumed | false ↦ do modify (take_chunk chunk); next chunk ])
            (λ n. Grown)
            Grown
    chunk-Grown chunk true = Triple-pure _ _ _ (λ t h. h)
    chunk-Grown chunk false =
        Triple-bind (On-modify Grown (take_chunk chunk) Grown Grown (take_chunk-Grown chunk))
          (λ u. rest chunk)

    round-Grown :
        (r : Result (List ℕ)) (more : Bool)
        → Triple Grown
            (elim more [
              | false ↦ pure consumed
              | true ↦ do
                chunk ← answer r
                elim (is_empty chunk) [
                  | true ↦ pure consumed
                  | false ↦ do modify (take_chunk chunk); next chunk
                ]
            ])
            (λ n. Grown)
            Grown
    round-Grown r false = Triple-pure _ _ _ (λ t h. h)
    round-Grown r true =
        Triple-bind (On-answer Grown r) (λ chunk. chunk-Grown chunk (is_empty chunk))

  pub read_on-Grown :
      (a : Answers) (fuel consumed : ℕ) → Triple Grown (read_on a fuel consumed) (λ n. Grown) Grown
  unfolding read_on
  read_on-Grown a zero consumed = Triple-pure _ _ _ (λ t h. h)
  read_on-Grown a (suc fuel) consumed = Triple-bind (On-current Grown Grown) (λ t.
      Triple-conseq (λ v h. h.1)
        (round-Grown consumed (λ chunk. read_on a fuel (consumed + length chunk))
          (λ chunk. read_on-Grown a fuel (consumed + length chunk))
          (a.read consumed (min read_chunk_bytes (poll_byte_budget - consumed)))
          (ltb consumed poll_byte_budget && ltb (length t.pending) max_lines_per_poll))
        (λ n v h. h))

  pub straddles-Grown :
      (a : Answers) (m : Meta) (before : Tailer) (consumed : ℕ)
      → Triple Grown (straddles a m before consumed) (λ b. Grown) Grown
  unfolding straddles
  straddles-Grown a m before consumed =
      Triple-if (ltb 0 consumed) _ _
        (λ some_read.
          Triple-bind (On-answer Grown a.seen_after) (λ s. Triple-pure _ _ _ (λ t h. h)))
        (λ none_read. Triple-pure _ _ _ (λ t h. h))

  pub undone-Grown : (n : ℕ) (t : Tailer) → n ≡ length t0.pending → Grown t → Grown (undone n t)
  undone-Grown n t e h = Same-Grown (undone n t) (rw (e, h.0.1) (take-length t0.pending h.0.0), h.1)

  pub marked-Grown : (rotated : Bool) (t : Tailer) → Grown t → Grown (marked rotated t)
  marked-Grown rotated t h = Grown-if (not rotated && t.carry == 0) _ _ h h
