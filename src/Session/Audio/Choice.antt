-- ===== src/Session/Audio/Choice.antt =====
-- Which device the fallback picks.
use wine_vr.Prelude.{
  ◌≡◌, refl, ◌∙◌, ap, String, Bool, true, false, not, Option, none, some, List, [], ◌∷◌, any, find,
  ◌⊎◌, inl, inr, Bool-cases, arith,
}
use wine_vr.Session.Audio.{is_built_in_output, is_virtual_output, or_else, fallback_output_device}

-- The device is one of those listed.
abbrev pub Listed : String → List String → Type 0
Listed d [] = ⊥
Listed d (x ∷ xs) = (d ≡ x) ⊎ Listed d xs

-- What a search has found.
abbrev Found : (String → Bool) → List String → String → Type 0
Found p xs d = Listed d xs × (p d ≡ true) × (any p xs ≡ true)

module _ (p : String → Bool) where
  find-Found : (xs : List String) {d : String} → find p xs ≡ some d → Found p xs d
  find-Found [] h = absurd (cc)
  find-Found (x ∷ xs) {d} h = elim (Bool-cases (p x)) [
    | inl yes_x ↦ let same : d ≡ x = (ground arith) in (inl same, ap p same ∙ yes_x, ground arith)
    | inr no_x ↦
        let rest = find-Found xs {d = d} (ground arith) in (inr rest.0, rest.1, ground arith)
  ]

  find-none : (xs : List String) → find p xs ≡ none → any p xs ≡ false
  find-none [] h = refl
  find-none (x ∷ xs) h = let k = find-none xs in ground arith

-- A device that the fallback picks is listed, and it is the Mac's own output where one is listed, and
-- else one that is not virtual.
pub fallback_output_device-picks :
    (devices : List String) {d : String}
    → fallback_output_device devices ≡ some d
    → Listed d devices
      × ((is_built_in_output d ≡ true)
          ⊎ ((any is_built_in_output devices ≡ false) × (is_virtual_output d ≡ false)))
unfolding fallback_output_device
fallback_output_device-picks devices {d} h = picks (find is_built_in_output devices) refl h
  where
    picks :
        (o : Option String)
        → find is_built_in_output devices ≡ o
        → or_else o (find (λ x. not (is_virtual_output x)) devices) ≡ some d
        → Listed d devices
          × ((is_built_in_output d ≡ true)
              ⊎ ((any is_built_in_output devices ≡ false) × (is_virtual_output d ≡ false)))
    picks (some x) e k = let f = find-Found is_built_in_output devices (e ∙ k) in (f.0, inl f.1)
    picks none e k =
        let f = find-Found (λ x. not (is_virtual_output x)) devices k in
        (f.0, inr (find-none is_built_in_output devices e, ground arith))
