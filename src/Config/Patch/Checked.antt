-- ===== src/Config/Patch/Checked.antt =====
-- config/runtime_toml.rs: what a text and a patch are where the patch was applied.
use wine_vr.Prelude.{
  ◌≡◌, refl, ℕ, true, Option, none, some, ◌⊎◌, inl, inr, List, [], ◌∷◌, length, is_empty, Text,
  arith, Option-cases, String,
}
use wine_vr.Host.Error.{Message, Result, ok, err, and_then}
use wine_vr.Config.Value.{Key, editable_keys, key_text, Floats}
use wine_vr.Config.Setting.{InvalidValue, RuntimeConfigValues, validate}
use wine_vr.Config.Reader.{hits, raw_assignments}
use wine_vr.Config.Shape.{strip_bom}
use wine_vr.Config.Patch.{
  Documents, Patched, Edits, key_mismatch, mismatches, line_document_mismatch, patch_keys, patched,
  patch_matched, patch_parsed, patch_valid, apply_patch,
}

module _ {F D : Type 0} (docs : Documents F D) where
  -- The runtime's reader and the document see a key equally often.
  abbrev pub Agree : D → Text → Key → Type 0
  Agree doc text k = length (hits (key_text k) (raw_assignments text)) ≡ docs.occurrences doc k

  abbrev pub AllAgree : D → Text → List Key → Type 0
  AllAgree doc text [] = Unit
  AllAgree doc text (k ∷ ks) = Agree doc text k × AllAgree doc text ks

  key_mismatch-none :
      (name : Text) (physical parsed : ℕ)
      → key_mismatch name physical parsed ≡ none
      → physical ≡ parsed
  key_mismatch-none name physical parsed h = ground arith

  mismatches-AllAgree :
      (doc : D) (text : Text) (ks : List Key)
      → mismatches docs doc text ks ≡ none
      → AllAgree doc text ks
  mismatches-AllAgree doc text [] h = tt
  mismatches-AllAgree doc text (k ∷ ks) h =
      let physical = length (hits (key_text k) (raw_assignments text)) in
      elim (Option-cases (key_mismatch (key_text k) physical (docs.occurrences doc k))) [
        | inl e ↦ (
          key_mismatch-none (key_text k) physical (docs.occurrences doc k) e,
          mismatches-AllAgree doc text ks (rest e),
        )
        | inr (why, e) ↦ absurd (clash why e)
      ]
    where
      rest :
          key_mismatch
              (key_text k)
              (length (hits (key_text k) (raw_assignments text)))
              (docs.occurrences doc k)
            ≡ none
          → mismatches docs doc text ks ≡ none
      rest e = ground arith

      clash :
          (why : Message)
          → key_mismatch
              (key_text k)
              (length (hits (key_text k) (raw_assignments text)))
              (docs.occurrences doc k)
            ≡ some why
          → ⊥
      clash why e = ground arith

  -- The document that was edited, and what was known of it before.
  abbrev pub Applied : Floats F → Text → RuntimeConfigValues F → Patched → Type 0
  Applied fl text patch p =
      (doc : D) × (validate fl patch ≡ [])
      × (docs.parse (strip_bom text) ≡ inl doc)
      × AllAgree doc text editable_keys
      × (is_empty p.changed_keys ≡ true → p.text ≡ text)

  edited-Applied :
      (text : Text) (r : Result (Edits D)) (p : Patched)
      → and_then r (λ e. ok (patched docs text e)) ≡ ok p
      → is_empty p.changed_keys ≡ true
      → p.text ≡ text
  edited-Applied text (ok e) p k h = ground arith
  edited-Applied text (err x) p k h = ground arith

  matched-Applied :
      (text : Text) (patch : RuntimeConfigValues F) (doc : D) (o : Option Message) (p : Patched)
      → patch_matched docs text patch doc o ≡ ok p
      → (o ≡ none) × (is_empty p.changed_keys ≡ true → p.text ≡ text)
  matched-Applied text patch doc none p k = (
    refl,
    edited-Applied text
        (patch_keys docs patch editable_keys (record { doc = doc; changed = []; shadowed = [] })) p
        k,
  )
  matched-Applied text patch doc (some why) p k = absurd (cc)

  parsed-Applied :
      (fl : Floats F) (text : Text) (patch : RuntimeConfigValues F) (r : D ⊎ String) (p : Patched)
      → validate fl patch ≡ []
      → docs.parse (strip_bom text) ≡ r
      → patch_parsed docs text patch r ≡ ok p
      → Applied fl text patch p
  unfolding line_document_mismatch
  parsed-Applied fl text patch (inr e) p v q k = absurd (cc)
  parsed-Applied fl text patch (inl doc) p v q k =
      let m = matched-Applied text patch doc (line_document_mismatch docs doc text) p k in
      (doc, v, q, mismatches-AllAgree doc text editable_keys m.0, m.1)

  valid-Applied :
      (fl : Floats F) (text : Text) (patch : RuntimeConfigValues F) (bad : List InvalidValue)
      (p : Patched)
      → validate fl patch ≡ bad
      → patch_valid docs text patch bad ≡ ok p
      → Applied fl text patch p
  valid-Applied fl text patch (b ∷ bad) p v k = absurd (cc)
  valid-Applied fl text patch [] p v k =
      parsed-Applied fl text patch (docs.parse (strip_bom text)) p v refl k

  -- A patch is applied only where all its values are in range, the text parses, and the reader of
  -- lines and the document see every editable key equally often; the text is unchanged where no key
  -- changed.
  pub apply_patch-Applied :
      (fl : Floats F) (text : Text) (patch : RuntimeConfigValues F) (p : Patched)
      → apply_patch docs fl text patch ≡ ok p
      → Applied fl text patch p
  unfolding apply_patch
  apply_patch-Applied fl text patch p k = valid-Applied fl text patch (validate fl patch) p refl k
