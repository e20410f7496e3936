-- ===== src/Config/Write/Outcome.antt =====
-- config/runtime_toml.rs: what a whole write leaves, whether it returns or fails.
use mathlib.Core.Path.{subst}
use wine_vr.Prelude.{◌≡◌, refl, ℕ, true, false, none, ◌⊎◌, inl, inr, List, [], ◌∷◌, is_empty, Text}
use wine_vr.Host.Error.{SabrageError, Result, ok, err}
use wine_vr.Host.Effect.{pure}
use wine_vr.Host.Effect.Rules.{
  Post, Triple, Triple-pure, Triple-throw, Triple-if, Triple-bind, Triple-conseq,
}
use wine_vr.Config.Value.{Floats}
use wine_vr.Config.Setting.{RuntimeConfigValues, validate}
use wine_vr.Config.Site.{SiteEvent, SiteEnv, SiteWorld}
use wine_vr.Config.Patch.{Documents, Patched, apply_patch}
use wine_vr.Config.Write.{
  WriteReport, BaseText, report_of, replace, write_patched, write_valid, write,
}
use wine_vr.Config.Write.Log.{Replaced, LogAllowed, On}
use wine_vr.Config.Write.Steps.{Before, Unreplaced, refuse_live-Open, load_base-Before}
use wine_vr.Config.Setting.{InvalidValue}
use wine_vr.Config.Write.Keeps.{lock_unless_dry-Keeps}
use wine_vr.Config.Write.Safe.{Kept, replace-Wrote}

-- What a write of a patch makes of a text.
module _ {F D : Type 0} (fl : Floats F) (docs : Documents F D) (patch : RuntimeConfigValues F) where
  abbrev pub Makes : Text → Text → Type 0
  Makes base new = (p : Patched) × (apply_patch docs fl base patch ≡ ok p) × (p.text ≡ new)

  -- A write that returned either had nothing to change, and replaced nothing, or replaced the text
  -- that the patch was computed against, after a backup of it unless it came from the template.
  abbrev pub Outcome : WriteReport → List SiteEvent → Type 0
  Outcome report log =
      ((is_empty report.changed_keys ≡ true) × Unreplaced log)
      ⊎ ((base : Text) × (p : Patched) × (apply_patch docs fl base patch ≡ ok p)
          × Replaced p.text log
          × Kept report.backup_path base log
          × (report.backup_path ≡ none → report.created_from_template ≡ true))

  module _ (template : Text) (e : SiteEnv) (real : e.dry_run ≡ false) where
    abbrev Fresh : List SiteEvent → Type 0
    Fresh log = Before Makes template e real log

    abbrev Ends : WriteReport → List SiteEvent → Type 0
    Ends report log = LogAllowed Makes template log × Outcome report log

    patched-Ends :
        (base : BaseText) (r : Result Patched) (fuel : ℕ)
        → apply_patch docs fl base.text patch ≡ r
        → Triple (On Fresh) (write_patched e base r fuel) (λ report. On (Ends report)) (On Fresh)
    unfolding write_patched
    patched-Ends base (err x) fuel k = Triple-throw _ _ _ (λ w h. h)
    patched-Ends base (ok p) fuel k =
        Triple-if (is_empty p.changed_keys) (pure (report_of base p none)) (replace e base p fuel)
          (λ same. Triple-pure _ _ _ (λ w h. (h.0, inl (same, h.1))))
          (λ changed.
            Triple-conseq (λ w h. h) (replace-Wrote Makes template e real base p fuel (p, k, refl))
              (λ report w h. (h.0.0, inr (base.text, p, k, h.0.1, h.0.2, h.1))))

    valid-Ends :
        (fuel : ℕ) (bad : List InvalidValue)
        → Triple
            (On Fresh)
            (write_valid fl docs template e patch fuel bad)
            (λ report. On (Ends report))
            (On Fresh)
    valid-Ends fuel (b ∷ bad) = Triple-throw _ _ _ (λ w h. h)
    valid-Ends fuel [] =
        Triple-bind
          (Triple-conseq (λ w h. h) (refuse_live-Open Makes template e real)
            (λ u w h. rw h.1 ((tt, h.2.0), (tt, h.2.1))))
          (λ u. Triple-bind (lock_unless_dry-Keeps Fresh e) (λ l.
            Triple-bind (load_base-Before Makes template e real)
              (λ base. patched-Ends base (apply_patch docs fl base.text patch) fuel refl)))

    write-Ends :
        (fuel : ℕ)
        → Triple
            (On Fresh)
            (write fl docs template e patch fuel)
            (λ report. On (Ends report))
            (On Fresh)
    unfolding write
    write-Ends fuel = valid-Ends fuel (validate fl patch)

    allowed :
        (r : Result WriteReport) (v : SiteWorld)
        → Post (λ report. On (Ends report)) (On Fresh) r v
        → LogAllowed Makes template v.log
    allowed (ok report) v h = h.0
    allowed (err x) v h = h.0

    module _ (fuel : ℕ) (w : SiteWorld) (start : w.log ≡ []) where
      abbrev run : Result WriteReport × SiteWorld
      run = write fl docs template e patch fuel w

      ended : Post (λ report. On (Ends report)) (On Fresh) run.0 run.1
      ended = (write-Ends fuel).at w (rw start (tt, tt))

      -- Whatever other processes and the machine do, a real write replaces the file only right
      -- after it saw the door open and the file with the text that the patch was computed against,
      -- by what the patch makes of that text; it creates only a file that is not there, from the
      -- template; it creates only backups whose name is free; and it removes only a backup that it
      -- created itself, or any after a reported replacement.
      pub write-LogAllowed : LogAllowed Makes template run.1.log
      write-LogAllowed = allowed run.0 run.1 ended

      -- Where a real write fails, no replacement of the file was reported to it, whichever step
      -- failed.
      pub write-failed : (x : SabrageError) → run.0 ≡ err x → Unreplaced run.1.log
      write-failed x k =
          (subst (λ r. Post (λ report. On (Ends report)) (On Fresh) r run.1) k ended).1

      -- A real write that returned either changed no key and replaced nothing, or replaced the file
      -- by what the patch makes of a text, with a backup of that text under the reported name, or
      -- with no backup and the file reported as created.
      pub write-Outcome : (report : WriteReport) → run.0 ≡ ok report → Outcome report run.1.log
      write-Outcome report k =
          (subst (λ r. Post (λ report. On (Ends report)) (On Fresh) r run.1) k ended).1
