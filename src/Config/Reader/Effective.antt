-- ===== src/Config/Reader/Effective.antt =====
-- config/runtime_toml.rs: the two readers of the file agree on each editable key.
use mathlib.Core.Option.{map as option_map}
use wine_vr.Prelude.{
  ℕ, ◌≡◌, refl, sym, ap, ◌∙◌, Bool, Option, none, some, List, [], ◌∷◌, map, length, Text, text_eq,
  last, last_or, filter_map, arith, if◌then◌else◌,
}
use wine_vr.Config.Value.{Key, editable_keys, key_text, Floats, unquote}
use wine_vr.Config.Setting.{Setting, from_patch, key, read_raw, runtime_string, parsed, read_as}
use wine_vr.Config.Setting.Accepted.{from_patch-apply, read_raw_lem, parsed-key}
use wine_vr.Config.Reader.{
  Reading, no_reading, take_read, read_hits, note_shadowed, read_key, read_keys,
  read_lines_like_the_runtime, setting_of, effective_accepted, hits, raw_assignments,
}

-- The last of a list, or else what was there before it.
abbrev last_from : {A : Type 0} → Option A → List A → Option A
last_from o [] = o
last_from o (x ∷ xs) = last_from (some x) xs

last_from-some : {A : Type 0} (x : A) (xs : List A) → last_from (some x) xs ≡ some (last_or x xs)
last_from-some x [] = refl
last_from-some x (y ∷ xs) = last_from-some y xs

map-last_from :
    {A B : Type 0} (f : A → B) (x : A) (xs : List A)
    → last (map f (x ∷ xs)) ≡ option_map f (last_from (some x) xs)
map-last_from f x [] = refl
map-last_from f x (y ∷ xs) = map-last_from f y xs

last-map :
    {A B : Type 0} (f : A → B) (xs : List A) → last (map f xs) ≡ option_map f (last_from none xs)
last-map f [] = refl
last-map f (x ∷ xs) = map-last_from f x xs

module _ {F : Type 0} (fl : Floats F) where
  -- The settings that the runtime takes from the values of a key.
  abbrev taken : Key → List Text → List (Setting F)
  taken k raws = filter_map (λ raw. setting_of (read_raw fl (key_text k) raw)) raws

  abbrev same_key : Key → Key → Bool
  same_key k k' = text_eq (key_text k) (key_text k')

  abbrev value_at : Key → Reading F → Option (Setting F)
  value_at k r = from_patch k r.values

  -- What reading the values of `k'` does to the value of `k`.
  abbrev read_at : Key → Key → List Text → Option (Setting F) → Option (Setting F)
  read_at k k' raws o = if same_key k k' then last_from o (taken k' raws) else o

  -- What one value read does to the value of `k`.
  abbrev taken_at : Key → Key → Option (Setting F) → Option (Setting F) → Option (Setting F)
  taken_at k k' none o = o
  taken_at k k' (some s) o = if same_key k k' then some s else o

  taken_value :
      (k k' : Key) (raw : Text) (x : Option (Setting F)) (r : Reading F)
      → ((s : Setting F) → x ≡ some s → key s ≡ k')
      → value_at k (take_read (read_as k' raw x) r) ≡ taken_at k k' x (value_at k r)
  taken_value k k' raw none r h = ground arith
  taken_value k k' raw (some s) r h =
      from_patch-apply k s r.values
      ∙ ap (λ j. if same_key k j then some s else from_patch k r.values) (h s refl)

  read_at_cons :
      (k k' : Key) (raw : Text) (raws : List Text) (o : Option (Setting F))
      → read_at k k' raws (taken_at k k' (parsed fl k' (unquote raw)) o)
        ≡ read_at k k' (raw ∷ raws) o
  read_at_cons k k' raw raws o = ground (arith, read_raw_lem fl k' raw)

  value_at-read_hits :
      (k k' : Key) (raws : List Text) (r : Reading F)
      → value_at k (read_hits fl (key_text k') raws r) ≡ read_at k k' raws (value_at k r)
  value_at-read_hits k k' [] r = ground arith
  value_at-read_hits k k' (raw ∷ raws) r =
      value_at-read_hits k k' raws (take_read (read_raw fl (key_text k') raw) r)
      ∙ ap (λ x. read_at k k' raws (value_at k (take_read x r))) (read_raw_lem fl k' raw)
      ∙ ap (read_at k k' raws) (
          taken_value k k' raw (parsed fl k' (unquote raw)) r
            (λ s e. parsed-key fl k' (unquote raw) s e))
      ∙ read_at_cons k k' raw raws (value_at k r)

  value_at-note_shadowed :
      (k : Key) (name : Text) (count : ℕ) (r : Reading F)
      → value_at k (note_shadowed name count r) ≡ value_at k r
  value_at-note_shadowed k name count r = ground arith

  value_at-read_key :
      (seen : List (Text × Text)) (k k' : Key) (r : Reading F)
      → value_at k (read_key fl seen k' r) ≡ read_at k k' (hits (key_text k') seen) (value_at k r)
  unfolding read_key
  value_at-read_key seen k k' r =
      let raws = hits (key_text k') seen in
      value_at-note_shadowed k (key_text k') (length raws) (read_hits fl (key_text k') raws r)
      ∙ value_at-read_hits k k' raws r

  -- What reading all the keys of a list does to the value of `k`.
  abbrev fold_at : List (Text × Text) → Key → List Key → Option (Setting F) → Option (Setting F)
  fold_at seen k [] o = o
  fold_at seen k (k' ∷ ks) o = fold_at seen k ks (read_at k k' (hits (key_text k') seen) o)

  value_at-read_keys :
      (seen : List (Text × Text)) (k : Key) (ks : List Key) (r : Reading F)
      → value_at k (read_keys fl seen ks r) ≡ fold_at seen k ks (value_at k r)
  value_at-read_keys seen k [] r = refl
  value_at-read_keys seen k (k' ∷ ks) r =
      value_at-read_keys seen k ks (read_key fl seen k' r)
      ∙ ap (λ o. fold_at seen k ks o) (value_at-read_key seen k k' r)

  fold_at_editable :
      (seen : List (Text × Text)) (k : Key)
      → fold_at seen k editable_keys (value_at k no_reading)
        ≡ last_from none (taken k (hits (key_text k) seen))
  fold_at_editable seen Key.protocol = refl
  fold_at_editable seen Key.bitrate_mbps = refl
  fold_at_editable seen Key.encoder_process = refl
  fold_at_editable seen Key.video_codec = refl
  fold_at_editable seen Key.resolution_scale = refl
  fold_at_editable seen Key.refresh_rate_hz = refl

  -- For each editable key the value that the launch reads from a text is the spelling of the value
  -- that the settings screen shows for it.
  pub effective_accepted-read_lines :
      (text : Text) (k : Key)
      → effective_accepted fl text (key_text k)
        ≡ option_map (runtime_string fl) (from_patch k (read_lines_like_the_runtime fl text).values)
  unfolding effective_accepted read_lines_like_the_runtime
  effective_accepted-read_lines text k =
      let seen = raw_assignments text in
      last-map (runtime_string fl) (taken k (hits (key_text k) seen))
      ∙ ap (option_map (runtime_string fl))
          (sym (value_at-read_keys seen k editable_keys no_reading ∙ fold_at_editable seen k))
