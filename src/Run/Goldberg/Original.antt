-- ===== src/Run/Goldberg/Original.antt =====
-- The game's own dll, which a launch replaces: it stays at its name or at the backup's.
pub mod Stage
use wine_vr.Prelude.{
  ◌≡◌, refl, sym, ap, ◌∙◌, ◌⊎◌, inl, inr, ℕ, Bool, true, false, codes, List, [], ◌∷◌, ◌++◌, Text,
  text_eq, text_eq_iff, text_eq_refl, last_or, Bool-cases, ==_refl, ◌==◌, ◌&&◌, if◌then◌else◌,
  arith,
}
use mathlib.Core.Path.{subst}
use wine_vr.Host.Files.{
  Node, gone, other, file, is_file, Files, put, FsOp, make_dir, write, copy, set_mode, effect, made,
  mode_or, remode,
}
use wine_vr.Run.Goldberg.{plugin_path, root_path, api_of, orig_steam_path, ◌/+◌}

last_or-codes : (d : ℕ) (s : Text) (c : ℕ) (t : Text) → last_or d (s ++ c ∷ t) ≡ last_or c t
last_or-codes d [] c t = refl
last_or-codes d (x ∷ s) c t = last_or-codes x s c t

pub ends : (s : Text) (c : ℕ) (t : Text) → last_or 0 (s ++ c ∷ t) ≡ last_or c t
ends s c t = last_or-codes 0 s c t

-- Texts that end differently are different.
pub text_eq-last :
    (p q : Text) (a b : ℕ)
    → last_or 0 p ≡ a
    → last_or 0 q ≡ b
    → (a == b) ≡ false
    → text_eq p q ≡ false
text_eq-last p q a b hp hq ne = elim (Bool-cases (text_eq p q)) [
  | inl eq ↦ absurd (ground (arith, ap (last_or 0) ((text_eq_iff p q).0 eq)))
  | inr no_eq ↦ no_eq
]

text_eq-prefix : (s a b : Text) → text_eq (s ++ a) (s ++ b) ≡ text_eq a b
text_eq-prefix [] a b = refl
text_eq-prefix (c ∷ s) a b = ground (arith, text_eq-prefix s a b)

root-plugin : (bs : Text) → text_eq (root_path bs) (plugin_path bs) ≡ false
root-plugin bs =
    text_eq-prefix bs (b'/' ∷ codes "steam_api64.dll")
      (b'/' ∷ codes "Beat Saber_Data/Plugins/x86_64/steam_api64.dll")

pub ends-api : (plugin : Bool) (bs : Text) → last_or 0 (api_of plugin bs) ≡ b'l'
ends-api true bs = ends bs b'/' (codes "Beat Saber_Data/Plugins/x86_64/steam_api64.dll")
ends-api false bs = ends bs b'/' (codes "steam_api64.dll")

ends-plugin : (bs : Text) → last_or 0 (plugin_path bs) ≡ b'l'
ends-plugin bs = ends-api true bs

pub ends-backup : (api : Text) → last_or 0 (orig_steam_path api) ≡ b'm'
ends-backup api = ends api b'.' (codes "orig-steam")

-- The dll `orig` that the game came with: the name of the live dll does not move, and `orig` is
-- there while nothing is at the backup's name, or else at the backup's.
pub record Original (bs : Text) (plugin : Bool) (orig : Node) (fs : Files) : Type 0 where
  pub same_api : is_file (fs (plugin_path bs)) ≡ plugin
  pub somewhere :
      ((fs (orig_steam_path (api_of plugin bs)) ≡ gone) × (fs (api_of plugin bs) ≡ orig))
      ⊎ (fs (orig_steam_path (api_of plugin bs)) ≡ orig)

-- The same, with the backup made.
pub record BackedUp (bs : Text) (plugin : Bool) (orig : Node) (fs : Files) : Type 0 where
  pub kept_api : is_file (fs (plugin_path bs)) ≡ plugin
  pub backup : fs (orig_steam_path (api_of plugin bs)) ≡ orig

pub BackedUp-Original :
    {bs : Text} {plugin : Bool} {orig : Node} {fs : Files}
    → BackedUp bs plugin orig fs
    → Original bs plugin orig fs
BackedUp-Original h = record { same_api = h.kept_api; somewhere = inr h.backup }

-- A name that neither the live dll nor its backup can have.
pub record IsAside (p : Text) : Type 0 where
  pub not_dll : (last_or 0 p == b'l') ≡ false
  pub not_backup : (last_or 0 p == b'm') ≡ false

module _ (bs : Text) (plugin : Bool) (orig : Node) where
  aside-dll : (p : Text) (b : Bool) → IsAside p → text_eq p (api_of b bs) ≡ false
  aside-dll p b h = text_eq-last p (api_of b bs) _ _ refl (ends-api b bs) h.not_dll

  aside-backup : (p : Text) → IsAside p → text_eq p (orig_steam_path (api_of plugin bs)) ≡ false
  aside-backup p h =
      text_eq-last p (orig_steam_path (api_of plugin bs)) _ _ refl (ends-backup (api_of plugin bs))
        h.not_backup

  -- A change elsewhere keeps both.
  pub put-Original :
      (fs : Files) (p : Text) (n : Node)
      → IsAside p
      → Original bs plugin orig fs
      → Original bs plugin orig (put fs p n)
  put-Original fs p n a h = record {
    same_api = rw (aside-dll p true a) h.same_api;
    somewhere = rw (aside-dll p plugin a, aside-backup p a) h.somewhere;
  }

  pub put-BackedUp :
      (fs : Files) (p : Text) (n : Node)
      → IsAside p
      → BackedUp bs plugin orig fs
      → BackedUp bs plugin orig (put fs p n)
  put-BackedUp fs p n a h = record {
    kept_api = rw (aside-dll p true a) h.kept_api;
    backup = rw (aside-backup p a) h.backup;
  }

  backup-dll : (b : Bool) → text_eq (orig_steam_path (api_of plugin bs)) (api_of b bs) ≡ false
  backup-dll b =
      text_eq-last (orig_steam_path (api_of plugin bs)) (api_of b bs) _ _
        (ends-backup (api_of plugin bs)) (ends-api b bs) refl

  dll-backup : text_eq (api_of plugin bs) (orig_steam_path (api_of plugin bs)) ≡ false
  dll-backup =
      text_eq-last (api_of plugin bs) (orig_steam_path (api_of plugin bs)) _ _ (ends-api plugin bs)
        (ends-backup (api_of plugin bs)) refl

  -- The first copy makes the backup.
  pub copy-BackedUp :
      (fs : Files)
      → (is_file (fs (plugin_path bs)) ≡ plugin) × (fs (api_of plugin bs) ≡ orig)
      → BackedUp bs plugin orig
          (effect (copy (api_of plugin bs) (orig_steam_path (api_of plugin bs))) fs)
  copy-BackedUp fs h = record {
    kept_api = rw (backup-dll true) h.0;
    backup = rw (text_eq_refl (orig_steam_path (api_of plugin bs))) h.1;
  }

  -- A dll put over the live one leaves the backup.
  pub over-BackedUp :
      (fs : Files) (n : Node)
      → is_file n ≡ true
      → BackedUp bs plugin orig fs
      → BackedUp bs plugin orig (put fs (api_of plugin bs) n)
  over-BackedUp fs n f h = record {
    kept_api = over_plugin plugin fs n f h.kept_api;
    backup = rw dll-backup h.backup;
  }
    where
      over_plugin :
          (b : Bool) (fs : Files) (n : Node)
          → is_file n ≡ true
          → is_file (fs (plugin_path bs)) ≡ b
          → is_file (put fs (api_of b bs) n (plugin_path bs)) ≡ b
      over_plugin true fs n f h = rw (text_eq_refl (plugin_path bs)) f
      over_plugin false fs n f h = rw (root-plugin bs) h

  -- Nor does a change of the live one's mode.
  pub remode-BackedUp :
      (fs : Files) (m : ℕ)
      → BackedUp bs plugin orig fs
      → BackedUp bs plugin orig (effect (set_mode (api_of plugin bs) m) fs)
  remode-BackedUp fs m h = record {
    kept_api = over_plugin plugin h.kept_api;
    backup = rw dll-backup h.backup;
  }
    where
      same_kind : (n : Node) → is_file (remode m n) ≡ is_file n
      same_kind gone = refl
      same_kind other = refl
      same_kind (file t k) = refl

      over_plugin :
          (b : Bool)
          → is_file (fs (plugin_path bs)) ≡ b
          → is_file (effect (set_mode (api_of b bs) m) fs (plugin_path bs)) ≡ b
      over_plugin true k = rw (text_eq_refl (plugin_path bs)) (same_kind (fs (plugin_path bs)) ∙ k)
      over_plugin false k = rw (root-plugin bs) k
