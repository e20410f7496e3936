-- ===== src/Logs/Start/Continuity.antt =====
-- logs.rs: a log that only grows is never taken for another one.
use wine_vr.Prelude.{
  ◌≡◌, refl, sym, ap, ◌∙◌, ℕ, zero, suc, ◌-◌, List, [], ◌∷◌, ◌++◌, length, take, arith,
}
use mathlib.Core.List.{append_assoc}
use wine_vr.Logs.Tailer.{continuity_signature_bytes, update_signature}
use wine_vr.Logs.Tailer.Signature.{
  last_bytes, length-append, drop-front, length-drop, update_signature-append,
}
use wine_vr.Logs.Poll.{min}
use wine_vr.Logs.Start.{read_signature}

take-front : (n : ℕ) (s t : List ℕ) → n ≡ length s → take n (s ++ t) ≡ s
take-front zero [] t e = refl
take-front zero (x ∷ s) t e = absurd (omega arith)
take-front (suc n) [] t e = absurd (omega arith)
take-front (suc n) (x ∷ s) t e = ap (λ l. x ∷ l) (take-front n s t (omega arith))

-- The witness in a file that starts with what was read is the last of it.
read_signature-append :
    (read more : List ℕ) → read_signature (read ++ more) (length read) ≡ last_bytes read
unfolding read_signature
read_signature-append read more =
    let n = length read - continuity_signature_bytes in
    ground (
      arith,
      length-append read more,
      length-drop n read,
      drop-front n read more,
      take-front (min (length read) continuity_signature_bytes) (last_bytes read) more,
    )

-- While a log only grows, the signature kept by reading it in pieces is the one that the next poll
-- finds in the file.
pub update_signature-read_signature :
    (read chunk more : List ℕ)
    → let file = (read ++ chunk) ++ more in
      update_signature (read_signature file (length read)) chunk
      ≡ read_signature file (length (read ++ chunk))
update_signature-read_signature read chunk more =
    ap (λ f. update_signature (read_signature f (length read)) chunk) (append_assoc read chunk more)
    ∙ ap (λ s. update_signature s chunk) (read_signature-append read (chunk ++ more))
    ∙ update_signature-append read chunk
    ∙ sym (read_signature-append (read ++ chunk) more)
