-- ===== src/Host/Splitter/Lossless.antt =====
-- What the chunks of a stream say of its bytes.
use wine_vr.Prelude.{
  ℕ, ◌≡◌, refl, sym, ap, ◌∙◌, Bool, true, false, ◌&&◌, List, [], ◌∷◌, ◌++◌, ◌==◌, Bool-cases,
  ==_iff, inl, inr, if◌then◌else◌,
}
use mathlib.Core.Path.{subst}
use mathlib.Core.List.{append_assoc}
use wine_vr.Host.Splitter.{
  ChunkEnd, lf, cr, eof, ChunkSplitter, Chunk, new_splitter, newline, carriage_return, match_byte,
  push_byte, push_with, finish_with,
}

-- The bytes that put a terminator back.
abbrev pub terminator : ChunkEnd → List ℕ
terminator lf = newline ∷ []
terminator cr = carriage_return ∷ []
terminator eof = []

abbrev pub printed : List Chunk → List ℕ
printed [] = []
printed (c ∷ chunks) = c.bytes ++ (terminator c.end ++ printed chunks)

abbrev starts_with_newline : List ℕ → Bool
starts_with_newline [] = false
starts_with_newline (b ∷ bytes) = b == newline

-- Every carriage return right before a newline is dropped.
abbrev pub crlf_to_lf : List ℕ → List ℕ
crlf_to_lf [] = []
crlf_to_lf (b ∷ bytes) =
    let rest = crlf_to_lf bytes in
    if b == carriage_return && starts_with_newline bytes then rest else b ∷ rest

printed-append : (a b : List Chunk) → printed (a ++ b) ≡ printed a ++ printed b
printed-append [] b = refl
printed-append (c ∷ a) b =
    ap (λ l. c.bytes ++ (terminator c.end ++ l)) (printed-append a b)
    ∙ ap (λ l. c.bytes ++ l) (sym (append_assoc (terminator c.end) (printed a) (printed b)))
    ∙ sym (append_assoc c.bytes (terminator c.end ++ printed a) (printed b))

-- All that a stream prints from a state on.
abbrev pub run : List ℕ → ChunkSplitter → List ℕ
run bytes s = printed ((push_with bytes s).0 ++ finish_with (push_with bytes s).1)

abbrev held : ChunkSplitter → List ℕ → List ℕ
held s bytes = if s.pending_cr then carriage_return ∷ bytes else bytes

abbrev at : List ℕ → Bool → ChunkSplitter
at u p = record { buf = u; pending_cr = p }

run-nil : (u : List ℕ) (p : Bool) → run [] (at u p) ≡ u ++ crlf_to_lf (held (at u p) [])
unfolding push_with finish_with
run-nil u true = refl
run-nil [] false = refl
run-nil (x ∷ u) false = refl

run-step :
    (b : ℕ) (bytes : List ℕ) (s : ChunkSplitter)
    → run (b ∷ bytes) s ≡ printed (push_byte b s).0 ++ run bytes (push_byte b s).1
unfolding push_with
run-step b bytes s =
    let t = (push_byte b s).1 in
    ap printed
      (append_assoc (push_byte b s).0 (push_with bytes t).0 (finish_with (push_with bytes t).1))
    ∙ printed-append (push_byte b s).0 ((push_with bytes t).0 ++ finish_with (push_with bytes t).1)

-- One byte, with what the rest of the stream prints.
abbrev ByteLossless : List ℕ → List ℕ → Bool → ℕ → Type 0
ByteLossless bytes u p b =
    printed (push_byte b (at u p)).0 ++ run bytes (push_byte b (at u p)).1
    ≡ u ++ crlf_to_lf (held (at u p) (b ∷ bytes))

module _ (bytes : List ℕ)
    (ih : (t : List ℕ) (q : Bool)
      → run bytes (at t q) ≡ t ++ crlf_to_lf (held (at t q) bytes)) where
  newline-lossless : (u : List ℕ) (p : Bool) → ByteLossless bytes u p newline
  unfolding push_byte match_byte
  newline-lossless u false =
      append_assoc u (newline ∷ []) (run bytes new_splitter)
      ∙ ap (λ l. u ++ (newline ∷ l)) (ih [] false)
  newline-lossless u true =
      append_assoc u (newline ∷ []) (run bytes new_splitter)
      ∙ ap (λ l. u ++ (newline ∷ l)) (ih [] false)

  return-lossless : (u : List ℕ) (p : Bool) → ByteLossless bytes u p carriage_return
  unfolding push_byte match_byte
  return-lossless u false = ih u true
  return-lossless u true =
      append_assoc u (carriage_return ∷ []) (run bytes (at [] true))
      ∙ ap (λ l. u ++ (carriage_return ∷ l)) (ih [] true)

  other-lossless :
      (b : ℕ) (u : List ℕ) (p : Bool)
      → (b == newline) ≡ false
      → (b == carriage_return) ≡ false
      → ByteLossless bytes u p b
  unfolding push_byte match_byte
  other-lossless b u false no_lf no_cr =
      rw (no_lf, no_cr) (ih (u ++ b ∷ []) false ∙ append_assoc u (b ∷ []) (crlf_to_lf bytes))
  other-lossless b u true no_lf no_cr =
      rw (no_lf, no_cr)
        (append_assoc u (carriage_return ∷ []) (run bytes (at (b ∷ []) false))
          ∙ ap (λ l. u ++ (carriage_return ∷ l)) (ih (b ∷ []) false))

  byte-lossless : (b : ℕ) (u : List ℕ) (p : Bool) → ByteLossless bytes u p b
  byte-lossless b u p = elim (Bool-cases (b == newline)) [
    | inl is_lf ↦
        subst (ByteLossless bytes u p) (sym ((==_iff b newline).0 is_lf)) (newline-lossless u p)
    | inr no_lf ↦ elim (Bool-cases (b == carriage_return)) [
      | inl is_cr ↦
          subst (ByteLossless bytes u p) (sym ((==_iff b carriage_return).0 is_cr))
            (return-lossless u p)
      | inr no_cr ↦ other-lossless b u p no_lf no_cr
    ]
  ]

run-lossless :
    (bytes u : List ℕ) (p : Bool) → run bytes (at u p) ≡ u ++ crlf_to_lf (held (at u p) bytes)
run-lossless [] u p = run-nil u p
run-lossless (b ∷ bytes) u p =
    run-step b bytes (at u p) ∙ byte-lossless bytes (run-lossless bytes) b u p

-- Printed with their terminators, the chunks of a stream are its bytes, with every carriage return
-- right before a newline dropped: no other byte is lost, changed or invented.
pub splitter-lossless : (bytes : List ℕ) → run bytes new_splitter ≡ crlf_to_lf bytes
splitter-lossless bytes = run-lossless bytes [] false

-- How the stream is cut into reads does not matter: two reads give the chunks and the state of one read
-- of both.
pub push_with-append :
    (xs ys : List ℕ) (s : ChunkSplitter)
    → push_with (xs ++ ys) s ≡ (
      (push_with xs s).0 ++ (push_with ys (push_with xs s).1).0,
      (push_with ys (push_with xs s).1).1,
    )
unfolding push_with
push_with-append [] ys s = refl
push_with-append (x ∷ xs) ys s =
    let first = push_byte x s in
    let rest = push_with xs first.1 in
    ap (λ (r : List Chunk × ChunkSplitter). (first.0 ++ r.0, r.1)) (push_with-append xs ys first.1)
    ∙ ap (λ (l : List Chunk). (l, (push_with ys rest.1).1))
        (sym (append_assoc first.0 rest.0 (push_with ys rest.1).0))
