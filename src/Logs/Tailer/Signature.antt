-- ===== src/Logs/Tailer/Signature.antt =====
-- logs.rs: the signature is the last bytes of all that was read, however the reads were cut.
use wine_vr.Prelude.{
  ◌≡◌, refl, sym, ap, ◌∙◌, ℕ, zero, suc, ◌+◌, ◌-◌, ◌≤◌, List, [], ◌∷◌, ◌++◌, length, drop, arith,
}
use wine_vr.Logs.Tailer.{continuity_signature_bytes, update_signature}

-- The last bytes of a text, as many as a signature has.
abbrev pub last_bytes : List ℕ → List ℕ
last_bytes s = drop (length s - continuity_signature_bytes) s

pub length-append : (s t : List ℕ) → length (s ++ t) ≡ length s + length t
length-append [] t = ground arith
length-append (x ∷ s) t = ground (arith, length-append s t)

drop-append : (n k : ℕ) (s t : List ℕ) → k ≡ length s + n → drop k (s ++ t) ≡ drop n t
drop-append n k [] t e = let same : k ≡ n = omega arith in ap (λ j. drop j t) same
drop-append n zero (x ∷ s) t e = absurd (omega arith)
drop-append n (suc k) (x ∷ s) t e = drop-append n k s t (omega arith)

-- Dropping in front leaves what is behind.
pub drop-front : (n : ℕ) (s t : List ℕ) → n ≤ length s → drop n (s ++ t) ≡ drop n s ++ t
drop-front zero s t h = refl
drop-front (suc n) [] t h = absurd (omega arith)
drop-front (suc n) (x ∷ s) t h = drop-front n s t (omega arith)

drop-drop : (m n k : ℕ) (s : List ℕ) → k ≡ n + m → drop m (drop n s) ≡ drop k s
drop-drop m zero k s e = let same : m ≡ k = omega arith in ap (λ j. drop j s) same
drop-drop m (suc n) zero s e = absurd (omega arith)
drop-drop zero (suc n) (suc k) [] e = refl
drop-drop (suc m) (suc n) (suc k) [] e = refl
drop-drop m (suc n) (suc k) (x ∷ s) e = drop-drop m n k s (omega arith)

pub length-drop : (n : ℕ) (s : List ℕ) → length (drop n s) ≡ length s - n
length-drop zero s = ground arith
length-drop (suc n) [] = ground arith
length-drop (suc n) (x ∷ s) = ground (arith, length-drop n s)

update_signature_lem :
    (s c : List ℕ)
    → length s ≤ continuity_signature_bytes
    → update_signature s c ≡ last_bytes (s ++ c)
unfolding update_signature
update_signature_lem s c h =
    ground (arith, length-append s c, drop-append (length c - 64) (length s + length c - 64) s c)

-- The last bytes of a text and more are those of its last bytes and more.
last_bytes-append : (s c : List ℕ) → last_bytes (last_bytes s ++ c) ≡ last_bytes (s ++ c)
last_bytes-append s c =
    let n = length s - continuity_signature_bytes in
    let m = length (last_bytes s ++ c) - continuity_signature_bytes in
    ap (drop m) (sym (drop-front n s c (omega arith)))
    ∙ drop-drop m n (length (s ++ c) - continuity_signature_bytes) (s ++ c)
        (ground (arith, length-append (last_bytes s) c, length-append s c, length-drop n s))

-- Read in pieces.
pub update_signature-append :
    (read chunk : List ℕ) → update_signature (last_bytes read) chunk ≡ last_bytes (read ++ chunk)
update_signature-append read chunk =
    update_signature_lem (last_bytes read) chunk
      (ground (arith, length-drop (length read - 64) read))
    ∙ last_bytes-append read chunk
