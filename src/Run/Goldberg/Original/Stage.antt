-- ===== src/Run/Goldberg/Original/Stage.antt =====
-- A launch keeps the game's own dll, whatever fails.
use wine_vr.Prelude.{
  ◌≡◌, refl, sym, ap, ◌∙◌, inl, inr, ℕ, Bool, true, false, not, ◌&&◌, codes, List, [], ◌∷◌, ◌++◌,
  Text, All, arith,
}
use mathlib.Core.Path.{subst}
use wine_vr.Host.Error.{Result, ok, err}
use wine_vr.Host.Effect.{pure, ◌>>=◌}
use wine_vr.Host.Effect.Rules.{
  Post, Triple, Keeps, Keeps-pure, Triple-pure, Triple-if, Triple-bind, Triple-attempt, Triple-both,
  Triple-conseq, Triple-weaken, Triple-given,
}
use wine_vr.Host.Files.{
  Node, gone, other, file, is_file, Files, FsOp, make_dir, write, copy, effect, FsEnv, FsWorld,
  files, op, cmp_files, copy_by, copy_if_changed, set_mode, same_bytes,
}
use wine_vr.Host.Files.Keeps.{
  Over, note-Over, die-Over, die_with_cause-Over, Effect, op-Done, op-Over, op-To, cmp_files-Over,
  copy_if_changed-Over,
}
use wine_vr.Run.Goldberg.{
  GoldbergFacts, api_of, steam_api_path, orig_steam_path, provenance_dir, goldberg_backup_marker,
  record_goldberg_backup, backup_made, back_up_over, back_up, installed, install_over, install,
  flag_files, write_flags, appid_written, write_settings, stage_at, goldberg_stage, parent, ◌/+◌,
}
use wine_vr.Run.Goldberg.Original.{
  Original, BackedUp, BackedUp-Original, IsAside, put-BackedUp, copy-BackedUp, over-BackedUp,
  remode-BackedUp, ends,
}

same_gone : (n : Node) (b : Bool) → (b && same_bytes n gone) ≡ false
same_gone gone b = ground arith
same_gone other b = ground arith
same_gone (file t m) b = ground arith

module _ (e : FsEnv) (g : GoldbergFacts) (plugin : Bool) (orig : Node)
    (dll : is_file orig ≡ true) where
  abbrev api : Text
  api = api_of plugin g.bs_dir

  abbrev I : Files → Type 0
  I = Original g.bs_dir plugin orig

  -- With the backup made, where anything is done at all.
  abbrev J : Files → Type 0
  J fs = I fs × (e.dry_run ≡ false → BackedUp g.bs_dir plugin orig fs)

  -- Nothing is at the backup's name yet.
  abbrev Unmade : Files → Type 0
  Unmade fs = I fs × (fs (orig_steam_path api) ≡ gone)

  J-effect :
      (a : FsOp)
      → ((fs : Files)
          → BackedUp g.bs_dir plugin orig fs
          → BackedUp g.bs_dir plugin orig (effect a fs))
      → Effect J e a
  J-effect a k real fs h r = (BackedUp-Original (k fs (h.1 real)), λ real'. k fs (h.1 real'))

  aside-write : (p b : Text) → IsAside p → Keeps (Over J) (op e (write p b))
  aside-write p b h =
      op-Over J e (write p b)
        (J-effect (write p b) (λ fs k. put-BackedUp g.bs_dir plugin orig fs p _ h k))

  aside-dir : (p : Text) → IsAside p → Keeps (Over J) (op e (make_dir p))
  aside-dir p h =
      op-Over J e (make_dir p)
        (J-effect (make_dir p) (λ fs k. put-BackedUp g.bs_dir plugin orig fs p _ h k))

  aside : (s : Text) (c : ℕ) (t : Text) → IsAside (c ∷ t) → IsAside (s ++ c ∷ t)
  aside s c t h = record {
    not_dll = rw (ends s c t) h.not_dll;
    not_backup = rw (ends s c t) h.not_backup;
  }

  -- What an attempt ends with.
  kept : {A : Type 0} (r : Result A) (w : FsWorld) → Post (λ _. Over J) (Over J) r w → Over J w
  kept (ok a) w h = h
  kept (err x) w h = h

  record_goldberg_backup-J : Keeps (Over J) (record_goldberg_backup e g (orig_steam_path api))
  unfolding record_goldberg_backup goldberg_backup_marker
  record_goldberg_backup-J =
      Triple-bind
        (Triple-attempt (
          Triple-bind
            (aside-dir (provenance_dir g) (
              aside g.sabrage_appsup b'/' (codes "goldberg-provenance")
                (record { not_dll = refl; not_backup = refl })))
            (λ _. aside-write _ _ (
              aside (provenance_dir g /+ g.sha256 (orig_steam_path api)) b'.'
                (codes "orig-steam-is-goldberg") (record { not_dll = refl; not_backup = refl })))))
        (λ r. Triple-pure _ _ _ (λ w h. kept r w h))

  backup_made-J :
      (already : Bool) (r : Result Bool)
      → Triple
          (λ w. Post (λ _. Over J) (Over I) r w)
          (backup_made e g (orig_steam_path api) already r)
          (λ _. Over J)
          (Over I)
  unfolding backup_made
  backup_made-J already (err x) = die_with_cause-Over I (λ _. Over J) x _
  backup_made-J already (ok b) =
      Triple-weaken
        (Triple-if already _ _ (λ _. Triple-bind record_goldberg_backup-J (λ _. note-Over J _))
          (λ _. Keeps-pure _))
        (λ a w h. h) (λ w h. h.0)

  made :
      (fs : Files)
      → Unmade fs
      → BackedUp g.bs_dir plugin orig (effect (copy api (orig_steam_path api)) fs)
  made fs h = elim (h.0.somewhere) [
    | inl live ↦ copy-BackedUp g.bs_dir plugin orig fs (h.0.same_api, live.1)
    | inr there ↦ absurd (no_dll (sym h.1 ∙ there))
  ]
    where
      no_dll : gone ≡ orig → ⊥
      no_dll eq = cc

  copied-J :
      (same : Bool)
      → Triple
          (λ w. Over Unmade w × (same ≡ false))
          (copy_by e api (orig_steam_path api) same)
          (λ _. Over J)
          (Over I)
  unfolding copy_by
  copied-J true = record { at = λ w h. absurd (cc) }
  copied-J false =
      Triple-bind
        (Triple-conseq (λ w h. h.0)
          (Triple-weaken
            (Triple-both
              (op-To Unmade I e (copy api (orig_steam_path api)) (λ fs h. h.0)
                (λ fs h r. BackedUp-Original (made fs h)))
              (op-Done Unmade e (BackedUp g.bs_dir plugin orig) (copy api (orig_steam_path api))
                (λ fs h r. made fs h)))
            (λ a w h. h) (λ w h. h.0))
          (λ a w h. h))
        (λ _. Triple-pure _ _ _ (λ w h. h))

  -- Nothing is at the backup's name, so the bytes differ.
  differs :
      Triple
        (Over Unmade)
        (cmp_files e api (orig_steam_path api))
        (λ same w. Over Unmade w × (same ≡ false))
        (Over I)
  unfolding cmp_files
  differs = record { at = λ w h. (h, no_bytes w h.1) }
    where
      no_bytes :
          (w : FsWorld)
          → w.fs (orig_steam_path api) ≡ gone
          → (not (e.unread w.tick api)
              && not (e.unread w.tick (orig_steam_path api))
              && same_bytes (w.fs api) (w.fs (orig_steam_path api)))
            ≡ false
      no_bytes w eq = rw eq (same_gone (w.fs api) _)

  back_up_over-J :
      (n : Node)
      → Triple
          (λ w. Over I w × (w.fs (orig_steam_path api) ≡ n))
          (back_up_over e g api n)
          (λ _. Over J)
          (Over I)
  unfolding back_up_over copy_if_changed
  back_up_over-J (file b m) = Triple-pure _ _ _ (λ w h. (h.0, λ real. there w.fs b m h))
    where
      there :
          (fs : Files) (b : Text) (m : ℕ)
          → I fs × (fs (orig_steam_path api) ≡ file b m)
          → BackedUp g.bs_dir plugin orig fs
      there fs b m h = elim (h.0.somewhere) [
        | inl none_there ↦ absurd (cc (none_there.0, h.1))
        | inr eq ↦ record { kept_api = h.0.same_api; backup = eq }
      ]
  back_up_over-J other = Triple-conseq (λ w h. h.0) (die-Over I (λ _. Over J) _ _) (λ a w h. h)
  back_up_over-J gone =
      Triple-bind (Triple-weaken (cmp_files-Over Unmade e g.gbe_dll api) (λ a w h. h) (λ w h. h.0))
        (λ already.
          Triple-bind (Triple-attempt (Triple-bind differs copied-J)) (backup_made-J already))

  back_up-J : Triple (Over I) (back_up e g api) (λ _. Over J) (Over I)
  unfolding back_up files
  back_up-J =
      Triple-bind {Q = λ fs w. Over I w × (fs ≡ w.fs)} (record { at = λ w h. (h, refl) })
        (λ fs.
          Triple-conseq (λ w h. (h.0, ap (λ (t : Files). t (orig_steam_path api)) (sym h.1)))
            (back_up_over-J (fs (orig_steam_path api))) (λ a w h. h))

  -- The Goldberg dll, or a mode, over the live dll.
  over-J : Effect J e (copy g.gbe_dll api)
  over-J = λ real fs h r.
      let k = over-BackedUp g.bs_dir plugin orig fs (fs g.gbe_dll) r (h.1 real) in
      (BackedUp-Original k, λ real'. k)

  installed-J :
      (r : Result Bool)
      → Triple (λ w. Post (λ _. Over J) (Over J) r w) (installed api r) (λ _. Over J) (Over J)
  unfolding installed
  installed-J (ok b) = note-Over J _
  installed-J (err x) = die_with_cause-Over J (λ _. Over J) x _

  install_over-J : (same : Bool) → Keeps (Over J) (install_over e g api same)
  unfolding install_over
  install_over-J true = note-Over J _
  install_over-J false =
      Triple-bind
        (Triple-attempt (
          copy_if_changed-Over J e g.gbe_dll api over-J
            (λ m. J-effect (set_mode api m) (λ fs k. remode-BackedUp g.bs_dir plugin orig fs m k))))
        installed-J

  install-J : Keeps (Over J) (install e g api)
  unfolding install
  install-J = Triple-bind (cmp_files-Over J e g.gbe_dll api) install_over-J

  write_flags-J :
      (dir : Text) (names : List Text)
      → All (λ n. (d : Text) → IsAside (d /+ n)) names
      → Keeps (Over J) (write_flags e dir names)
  unfolding write_flags
  write_flags-J dir [] h = Keeps-pure _
  write_flags-J dir (name ∷ rest) h =
      Triple-bind (aside-write (dir /+ name) [] (h.0 dir)) (λ _. write_flags-J dir rest h.1)

  appid_written-J :
      (dir : Text) (r : Result (Unit {0}))
      → Triple (λ w. Post (λ _. Over J) (Over J) r w) (appid_written e dir r) (λ _. Over J) (Over J)
  unfolding appid_written
  appid_written-J dir (err x) = die_with_cause-Over J (λ _. Over J) x _
  appid_written-J dir (ok u) =
      Triple-bind
        (aside-dir (dir /+ codes "steam_settings")
          (aside dir b'/' (codes "steam_settings") (record { not_dll = refl; not_backup = refl })))
        (λ _. write_flags-J (dir /+ codes "steam_settings") flag_files (
          λ d. aside d b'/' (codes "offline.txt") (record { not_dll = refl; not_backup = refl }),
          (
            λ d.
                aside d b'/' (codes "disable_networking.txt")
                  (record { not_dll = refl; not_backup = refl }),
            (
              λ d.
                  aside d b'/' (codes "disable_overlay.txt")
                    (record { not_dll = refl; not_backup = refl }),
              tt,
            ),
          ),
        ))

  write_settings-J : (dir : Text) → Keeps (Over J) (write_settings e g dir)
  unfolding write_settings
  write_settings-J dir =
      Triple-bind
        (Triple-attempt (
          aside-write (dir /+ codes "steam_appid.txt") g.appid (
            aside dir b'/' (codes "steam_appid.txt")
              (record { not_dll = refl; not_backup = refl }))))
        (appid_written-J dir)

  stage_at-J : (there : Bool) → Triple (Over I) (stage_at e g api there) (λ _. Over J) (Over I)
  unfolding stage_at
  stage_at-J false = die-Over I (λ _. Over J) _ _
  stage_at-J true = Triple-bind back_up-J (λ _.
      Triple-weaken (Triple-bind install-J (λ _. write_settings-J (parent api))) (λ a w h. h)
        (λ w h. h.0))

  -- The name of the live dll is the one that the dll had.
  pub steam_api_path-J :
      Triple (Over I) (steam_api_path e g.bs_dir) (λ p w. Over I w × (p ≡ api)) (Over I)
  unfolding steam_api_path files pure ◌>>=◌
  steam_api_path-J = record { at = λ w h. (h, ap (λ b. api_of b g.bs_dir) h.same_api) }

  pub goldberg_stage-J : Triple (Over I) (goldberg_stage e g) (λ _. Over J) (Over I)
  unfolding goldberg_stage files
  goldberg_stage-J = Triple-bind steam_api_path-J (λ p.
      Triple-bind {Q = λ fs w. Over I w × (p ≡ api)} (record { at = λ w h. h })
        (λ fs. Triple-given (λ eq.
          subst (λ q. Triple (Over I) (stage_at e g q (is_file (fs q))) (λ _. Over J) (Over I))
            (sym eq) (stage_at-J (is_file (fs api))))))

  pub goldberg_stage-Original : Keeps (Over I) (goldberg_stage e g)
  goldberg_stage-Original = Triple-weaken goldberg_stage-J (λ a w h. h.0) (λ w h. h)
