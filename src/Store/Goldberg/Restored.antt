-- ===== src/Store/Goldberg/Restored.antt =====
-- A revert that says it restored the dll has put back what was at the backup's name.
use wine_vr.Prelude.{
  text_eq_refl, ◌≡◌, refl, sym, ap, ◌∙◌, inl, inr, ℕ, Bool, true, false, Option, none, some, List,
  [], ◌∷◌, Text, text_eq_iff, arith,
}
use mathlib.Core.Path.{subst}
use wine_vr.Host.Effect.Rules.{
  Post, Triple, Keeps, Keeps-pure, Triple-pure, Triple-if, Triple-bind, Triple-both, Triple-throw,
  Triple-conseq, Triple-weaken, Triple-given,
}
use wine_vr.Host.Files.{
  Node, gone, other, file, is_file, Files, copy, set_mode, effect, remode, mode_or, same_bytes,
  same_mode, FsEnv, FsWorld, files, read_bytes, cmp_files, repair_mode, copy_by, copy_if_changed,
}
use wine_vr.Host.Files.Keeps.{Over, Effect, op-Done, op-Over, cmp_files-Over}
use wine_vr.Session.Doors.{SessionBlock, session_block_at}
use wine_vr.Run.Goldberg.{GoldbergFacts, api_of, orig_steam_path}
use wine_vr.Run.Goldberg.Original.{
  Original, BackedUp, BackedUp-Original, over-BackedUp, remode-BackedUp,
}
use wine_vr.Run.Goldberg.Original.Stage.{steam_api_path-J}
use wine_vr.Store.Goldberg.{
  RevertFacts, RevertReport, file_sha256_matches, goldberg_backup_is_goldberg, is_goldberg,
  restore_unless, revert_from, revert_files, revert_unless_running, revert_unless_live,
  revert_probed,
}

-- A dll with the bytes of another, in that one's mode, is that one.
same_node : (a b : Node) → same_bytes a b ≡ true → same_mode a b ≡ true → b ≡ a
same_node gone b h k = absurd (cc)
same_node other b h k = absurd (cc)
same_node (file t m) gone h k = absurd (cc)
same_node (file t m) other h k = absurd (cc)
same_node (file t m) (file t' m') h k = ground (arith, text_eq_iff t t')

remoded_node : (a b : Node) → same_bytes a b ≡ true → remode (mode_or 420 a) b ≡ a
remoded_node gone b h = absurd (cc)
remoded_node other b h = absurd (cc)
remoded_node (file t m) gone h = absurd (cc)
remoded_node (file t m) other h = absurd (cc)
remoded_node (file t m) (file t' m') h = ground (arith, text_eq_iff t t')

module _ (e : FsEnv) (g : GoldbergFacts) (plugin : Bool) (orig : Node)
    (dll : is_file orig ≡ true) where
  abbrev api : Text
  api = api_of plugin g.bs_dir

  abbrev I : Files → Type 0
  I = Original g.bs_dir plugin orig

  abbrev K : Files → Type 0
  K = BackedUp g.bs_dir plugin orig

  abbrev Restored : Files → Type 0
  Restored fs = fs api ≡ orig

  copy-K : Effect K e (copy (orig_steam_path api) api)
  copy-K = λ real fs h r. over-BackedUp g.bs_dir plugin orig fs (fs (orig_steam_path api)) r h

  copied : (fs : Files) → K fs → Restored (effect (copy (orig_steam_path api) api) fs)
  copied fs h = rw (text_eq_refl api) h.backup

  mode-K : (m : ℕ) → Effect K e (set_mode api m)
  mode-K m = λ real fs h r. remode-BackedUp g.bs_dir plugin orig fs m h

  compared :
      Triple
        (Over K)
        (cmp_files e (orig_steam_path api) api)
        (λ same w. Over K w × (same ≡ true → same_bytes orig (w.fs api) ≡ true))
        (Over K)
  unfolding cmp_files
  compared = record {
    at = λ w h. (h, λ t. subst (λ n. same_bytes n (w.fs api) ≡ true) h.backup (ground arith));
  }

  -- The live dll is `have`, with the bytes of the backup.
  abbrev Have : Node → Files → Type 0
  Have have fs = K fs × (fs api ≡ have)

  remoded :
      (have : Node) (fs : Files)
      → same_bytes orig have ≡ true
      → Have have fs
      → Restored (effect (set_mode api (mode_or 420 orig)) fs)
  remoded have fs hb h = rw (text_eq_refl api, h.1) (remoded_node orig have hb)

  abbrev Ended : {A : Type 0} → A → FsWorld → Type 0
  Ended a w = Over K w × (e.dry_run ≡ false → Restored w.fs)

  repaired :
      (have : Node)
      → same_bytes orig have ≡ true
      → Triple (Over (Have have)) (repair_mode e api have orig) Ended (Over K)
  unfolding repair_mode
  repaired have hb =
      Triple-if (same_mode orig have) _ _
        (λ k. Triple-pure _ _ _ (λ w h. (h.0, λ real. h.1 ∙ same_node orig have hb k)))
        (λ k.
          Triple-bind
            (Triple-weaken
              (Triple-both
                (Triple-conseq (λ w h. h.0) (op-Over K e (set_mode api _) (mode-K _)) (λ a w h. h))
                (op-Done (Have have) e Restored (set_mode api (mode_or 420 orig))
                  (λ fs h r. remoded have fs hb h)))
              (λ a w h. h) (λ w h. h.0))
            (λ _. Triple-pure _ _ _ (λ w h. h)))

  copied-Ended :
      (same : Bool)
      → Triple
          (λ w. Over K w × (same ≡ true → same_bytes orig (w.fs api) ≡ true))
          (copy_by e (orig_steam_path api) api same)
          Ended
          (Over K)
  unfolding copy_by files
  copied-Ended true =
      Triple-bind {Q = λ fs w. (Over K w × (fs ≡ w.fs)) × (same_bytes orig (fs api) ≡ true)}
        (record { at = λ w h. ((h.0, refl), h.1 refl) })
        (λ fs. Triple-given (λ hb. record {
          at = λ w h.
              subst
                (λ want.
                  Post Ended (Over K) (repair_mode e api (fs api) want w).0
                    (repair_mode e api (fs api) want w).1)
                (sym (ap (λ (t : Files). t (orig_steam_path api)) h.1 ∙ h.0.backup))
                ((repaired (fs api) hb).at w (h.0, ap (λ (t : Files). t api) (sym h.1)));
        }))
  copied-Ended false =
      Triple-bind
        (Triple-weaken
          (Triple-both
            (Triple-conseq (λ w h. h.0) (op-Over K e (copy (orig_steam_path api) api) copy-K)
              (λ a w h. h))
            (Triple-conseq (λ w h. h.0)
              (op-Done K e Restored (copy (orig_steam_path api) api) (λ fs h r. copied fs h))
              (λ a w h. h)))
          (λ a w h. h) (λ w h. h.0))
        (λ _. Triple-pure _ _ _ (λ w h. h))

  -- What a report says of the live dll.
  abbrev pub Said : RevertReport → FsWorld → Type 0
  Said r w = Over I w × (r.restored ≡ true → e.dry_run ≡ false → Restored w.fs)

  restore_unless-Said : (known : Bool) → Triple (Over K) (restore_unless e api known) Said (Over I)
  unfolding restore_unless copy_if_changed
  restore_unless-Said true = Triple-pure _ _ _ (λ w h. (BackedUp-Original h, λ t. absurd (cc)))
  restore_unless-Said false =
      Triple-weaken
        (Triple-bind (Triple-bind compared copied-Ended)
          (λ b. Triple-pure _ _ _ (λ w h. (BackedUp-Original h.0, λ t. h.1))))
        (λ a w h. h) (λ w h. BackedUp-Original h)

  read-K : (p : Text) → Keeps (Over K) (read_bytes e p)
  unfolding read_bytes
  read-K p = record { at = λ w h. h }

  is_goldberg-K : (r : RevertFacts) → Keeps (Over K) (is_goldberg e r (orig_steam_path api))
  unfolding is_goldberg file_sha256_matches goldberg_backup_is_goldberg files
  is_goldberg-K r =
      Triple-bind (Triple-bind (read-K (orig_steam_path api)) (λ b. Keeps-pure _)) (λ pinned.
        Triple-if pinned _ _ (λ _. Keeps-pure _)
          (λ _. Triple-bind (cmp_files-Over K e _ _) (λ same.
            Triple-if same _ _ (λ _. Keeps-pure _)
              (λ _.
                Triple-bind {Q = λ _. Over K} (record { at = λ w h. h }) (λ fs. Keeps-pure _)))))

  revert_from-Said :
      (r : RevertFacts) (there : Bool)
      → Triple
          (λ w. Over I w × (is_file (w.fs (orig_steam_path api)) ≡ there))
          (revert_from e r api there)
          Said
          (Over I)
  unfolding revert_from
  revert_from-Said r false = Triple-pure _ _ _ (λ w h. (h.0, λ t. absurd (cc)))
  revert_from-Said r true =
      Triple-conseq (λ w h. there w.fs h)
        (Triple-bind (Triple-weaken (is_goldberg-K r) (λ a w h. h) (λ w h. BackedUp-Original h))
          restore_unless-Said)
        (λ a w h. h)
    where
      not_there : false ≡ true → ⊥
      not_there t = cc

      there : (fs : Files) → I fs × (is_file (fs (orig_steam_path api)) ≡ true) → K fs
      there fs h = elim (h.0.somewhere) [
        | inl no_backup ↦ absurd (not_there (ap is_file (sym no_backup.0) ∙ h.1))
        | inr eq ↦ record { kept_api = h.0.same_api; backup = eq }
      ]

module _ (e : FsEnv) (r : RevertFacts) (plugin : Bool) (orig : Node)
    (dll : is_file orig ≡ true) where
  abbrev J : Files → Type 0
  J = Original r.goldberg.bs_dir plugin orig

  abbrev Told : RevertReport → FsWorld → Type 0
  Told = Said e r.goldberg plugin orig dll

  revert_files-Said : Triple (Over J) (revert_files e r) Told (Over J)
  unfolding revert_files files
  revert_files-Said = Triple-bind (steam_api_path-J e r.goldberg plugin orig dll) (λ p.
      Triple-bind
        {Q = λ fs w.
          (Over J w
            × (fs (orig_steam_path (api_of plugin r.goldberg.bs_dir))
                ≡ w.fs (orig_steam_path (api_of plugin r.goldberg.bs_dir))))
          × (p ≡ api_of plugin r.goldberg.bs_dir)}
        (record { at = λ w h. ((h.0, refl), h.1) })
        (λ fs. Triple-given (λ eq.
          subst
            (λ q.
              Triple
                (λ w.
                  Over J w
                  × (fs (orig_steam_path (api_of plugin r.goldberg.bs_dir))
                      ≡ w.fs (orig_steam_path (api_of plugin r.goldberg.bs_dir))))
                (revert_from e r q (is_file (fs (orig_steam_path q)))) Told (Over J))
            (sym eq)
            (Triple-conseq (λ w h. (h.0, ap is_file (sym h.1)))
              (revert_from-Said e r.goldberg plugin orig dll r
                (is_file (fs (orig_steam_path (api_of plugin r.goldberg.bs_dir)))))
              (λ a w h. h)))))

  revert_unless_running-Said :
      (games : List ℕ) → Triple (Over J) (revert_unless_running e r games) Told (Over J)
  unfolding revert_unless_running
  revert_unless_running-Said [] = revert_files-Said
  revert_unless_running-Said (pid ∷ rest) = Triple-throw _ _ _ (λ w h. h)

  revert_unless_live-Said :
      (b : Option SessionBlock) → Triple (Over J) (revert_unless_live e r b) Told (Over J)
  unfolding revert_unless_live
  revert_unless_live-Said none = revert_unless_running-Said r.games
  revert_unless_live-Said (some b) = Triple-throw _ _ _ (λ w h. h)

  pub revert_probed-Said : Triple (Over J) (revert_probed e r) Told (Over J)
  unfolding revert_probed
  revert_probed-Said = revert_unless_live-Said (session_block_at r.sources)
