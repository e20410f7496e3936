-- ===== src/Config/Reader/Bounds.antt =====
-- config/runtime_toml.rs: the reader reports values that the runtime accepts, and nothing else.
use wine_vr.Prelude.{
  ◌≡◌, refl, Option, none, some, inl, inr, List, [], ◌∷◌, Text, filter_map, arith, Option-cases,
}
use wine_vr.Config.Value.{Key, editable_keys, key_text, Floats, unquote}
use wine_vr.Config.Setting.{
  Setting, RuntimeConfigValues, from_patch, apply, read_raw, parsed, read_as, out_of_range,
  validate,
}
use wine_vr.Config.Setting.Accepted.{from_patch-apply, read_raw_lem, parsed-accepted}
use wine_vr.Config.Reader.{
  Reading, no_reading, take_read, read_hits, read_key, read_keys, read_lines_like_the_runtime, hits,
  raw_assignments,
}

module _ {F : Type 0} (fl : Floats F) where
  -- Every value that is set is one that the runtime accepts.
  pub record InRange (v : RuntimeConfigValues F) : Type 0 where
    pub at : (k : Key) (s : Setting F) → from_patch k v ≡ some s → out_of_range fl s ≡ none

  none-InRange : InRange no_reading.values
  none-InRange = record { at = λ k s e. ground arith }

  apply-InRange :
      (x : Setting F) (v : RuntimeConfigValues F)
      → out_of_range fl x ≡ none
      → InRange v
      → InRange (apply x v)
  apply-InRange x v ex h = record { at = λ k s e. ground (arith, from_patch-apply k x v, h.at k s) }

  take_read-InRange :
      (k : Key) (raw : Text) (x : Option (Setting F)) (r : Reading F)
      → ((s : Setting F) → x ≡ some s → out_of_range fl s ≡ none)
      → InRange r.values
      → InRange (take_read (read_as k raw x) r).values
  take_read-InRange k raw none r ex h = record { at = λ k s e. ground (arith, h.at k s) }
  take_read-InRange k raw (some x) r ex h = apply-InRange x r.values (ex x refl) h

  read_hits-InRange :
      (k : Key) (raws : List Text) (r : Reading F)
      → InRange r.values
      → InRange (read_hits fl (key_text k) raws r).values
  read_hits-InRange k [] r h = h
  read_hits-InRange k (raw ∷ raws) r h =
      let x = parsed fl k (unquote raw) in
      let here = take_read-InRange k raw x r (λ s e. parsed-accepted fl k (unquote raw) s e) h in
      read_hits-InRange k raws (take_read (read_raw fl (key_text k) raw) r)
        (rw (read_raw_lem fl k raw) here)

  read_key-InRange :
      (seen : List (Text × Text)) (k : Key) (r : Reading F)
      → InRange r.values
      → InRange (read_key fl seen k r).values
  unfolding read_key
  read_key-InRange seen k r h =
      let raws = hits (key_text k) seen in
      let read = read_hits-InRange k raws r h in
      record { at = λ k' s e. ground (arith, read.at k' s) }

  read_keys-InRange :
      (seen : List (Text × Text)) (ks : List Key) (r : Reading F)
      → InRange r.values
      → InRange (read_keys fl seen ks r).values
  read_keys-InRange seen [] r h = h
  read_keys-InRange seen (k ∷ ks) r h =
      read_keys-InRange seen ks (read_key fl seen k r) (read_key-InRange seen k r h)

  complaints :
      (v : RuntimeConfigValues F) (ks : List Key)
      → InRange v
      → filter_map (out_of_range fl) (filter_map (λ k. from_patch k v) ks) ≡ []
  complaints v [] h = refl
  complaints v (k ∷ ks) h = elim (Option-cases (from_patch k v)) [
    | inl e ↦ rw (filter_map, e) (complaints v ks h)
    | inr (s, e) ↦ rw (filter_map, e, filter_map, h.at k s e) (complaints v ks h)
  ]

  pub validate-InRange : (v : RuntimeConfigValues F) → InRange v → validate fl v ≡ []
  unfolding validate
  validate-InRange v h = complaints v editable_keys h

  -- Every value that the reader takes from a text is in the range that the editor accepts in a
  -- patch.
  pub validate-read_lines :
      (text : Text) → validate fl (read_lines_like_the_runtime fl text).values ≡ []
  unfolding read_lines_like_the_runtime
  validate-read_lines text =
      validate-InRange _
        (read_keys-InRange (raw_assignments text) editable_keys no_reading none-InRange)
