-- ===== src/Logs/Tailer/Queue.antt =====
-- logs.rs: a batch takes the oldest lines, and none from behind a rotation.
use wine_vr.Prelude.{
  ◌≡◌, refl, ap, ℕ, zero, suc, ◌-◌, ◌≤◌, ◌<◌, Bool, not, List, [], ◌∷◌, ◌++◌, length, take, drop,
  is_empty, Text, arith,
}
use wine_vr.Logs.Tailer.{Tailer, max_lines_per_poll, batch_cap, drain_capped}

take-drop : (n : ℕ) (xs : List Text) → take n xs ++ drop n xs ≡ xs
take-drop zero xs = refl
take-drop (suc n) [] = refl
take-drop (suc n) (x ∷ xs) = ap (λ t. x ∷ t) (take-drop n xs)

length-take_le :
    (n : ℕ) (xs : List Text) → (length (take n xs) ≤ n) × (length (take n xs) ≤ length xs)
length-take_le zero xs = (ground arith, ground arith)
length-take_le (suc n) [] = (ground arith, ground arith)
length-take_le (suc n) (x ∷ xs) = ground (arith, length-take_le n xs)

length-take-drop : (n : ℕ) (xs : List Text) → length (drop n xs) ≡ length xs - length (take n xs)
length-take-drop zero xs = ground arith
length-take-drop (suc n) [] = ground arith
length-take-drop (suc n) (x ∷ xs) = ground (arith, length-take-drop n xs)

-- What a batch and the queue behind it are, of the queue before.
abbrev pub Drained : Tailer → List Text → Bool → Tailer → Type 0
Drained t lines truncated after =
    (lines ++ after.pending ≡ t.pending)
    × (length lines ≤ max_lines_per_poll)
    × (0 < t.carry → length lines ≤ t.carry)
    × (truncated ≡ not (is_empty after.pending))
    × (after.carry ≡ t.carry - length lines)
    × (t.carry ≤ length t.pending → after.carry ≤ length after.pending)

pub drain_capped-Drained :
    (t : Tailer) → Drained t (drain_capped t).0.0 (drain_capped t).0.1 (drain_capped t).1
unfolding drain_capped
drain_capped-Drained t =
    let n = batch_cap t.carry in
    let few = length-take_le n t.pending in
    (
      take-drop n t.pending,
      ground (arith, few),
      (λ c. ground (arith, few)),
      refl,
      refl,
      (λ c. ground (arith, length-take-drop n t.pending)),
    )
