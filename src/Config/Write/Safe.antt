-- ===== src/Config/Write/Safe.antt =====
-- config/runtime_toml.rs: what a real write replaces, backs up and removes.
use wine_vr.Prelude.{
  ◌≡◌, refl, ap, ℕ, true, false, not, Option, none, some, inl, inr, List, [], ◌∷◌, Text,
}
use wine_vr.Host.Error.{Result, ok, err}
use wine_vr.Host.Effect.Rules.{
  Post, Triple, Triple-pure, Triple-throw, Triple-if, Triple-bind, Triple-attempt, Triple-both,
  Triple-given, Triple-conseq,
}
use wine_vr.Host.World.{FileAnswer, done, refused, done_late}
use wine_vr.Config.Site.{
  Site, write_toml, remove_backup, SiteEvent, saw_door, saw_toml, did, SiteEnv, SiteWorld,
}
use wine_vr.Config.Patch.{Patched}
use wine_vr.Config.Write.{
  WriteReport, BaseText, Reserved, reserve, commit, unreserve, prune, settle, report_of, replace,
}
use wine_vr.Config.Write.Log.{BackedUp, Replaced, LogAllowed, On, On-look, On-op}
use wine_vr.Config.Write.Steps.{Before, Looked, still_safe-Looked, make_dir-Before}
use wine_vr.Config.Write.Reserve.{reserve_backup_path-Backed}
use wine_vr.Config.Write.Keeps.{still_safe-Keeps}

abbrev pub Kept : Option Text → Text → List SiteEvent → Type 0
Kept none bytes log = Unit
Kept (some name) bytes log = BackedUp name bytes log

Kept-cons :
    (backup : Option Text) (bytes : Text) (x : SiteEvent) (log : List SiteEvent)
    → Kept backup bytes log
    → Kept backup bytes (x ∷ log)
Kept-cons none bytes x log h = tt
Kept-cons (some name) bytes x log h = inr h

module _ (New : Text → Text → Type 0) (template : Text) (e : SiteEnv)
    (real : e.dry_run ≡ false) where
  abbrev Early : List SiteEvent → Type 0
  Early log = Before New template e real log

  -- What was reserved is there, and a file that was there was backed up.
  abbrev Ready : BaseText → Option Text → List SiteEvent → Type 0
  Ready base backup log = Early log × Kept backup base.text log

  abbrev HasBackup : BaseText → Option Text → Type 0
  HasBackup base backup = backup ≡ none → base.exists ≡ false

  reserve-Ready :
      (base : BaseText) (fuel : ℕ)
      → Triple
          (On Early)
          (reserve e base fuel)
          (λ r w. Ready base r.backup w.log × HasBackup base r.backup)
          (On Early)
  unfolding reserve
  reserve-Ready base fuel =
      Triple-if base.exists _ _
        (λ there. Triple-bind (On-look e Early _) (λ s.
          Triple-bind
            (make_dir-Before New template e real Early (λ x t log h. ((tt, h.0), (tt, h.1))))
            (λ u.
              Triple-bind (reserve_backup_path-Backed New template e real base.text fuel)
                (λ name. Triple-pure _ _ _ (λ w h. (h, (λ k. absurd (cc))))))))
        (λ absent. Triple-pure _ _ _ (λ w h. ((h, tt), (λ k. absent))))

  -- The file was replaced, by what was allowed.
  abbrev pub After : Text → BaseText → Option Text → List SiteEvent → Type 0
  After new base backup log =
      LogAllowed New template log × Replaced new log × Kept backup base.text log

  commit-After :
      (base : BaseText) (backup : Option Text) (new : Text)
      → New base.text new
      → Triple
          (On (Ready base backup))
          (commit e base.text new)
          (λ u. On (After new base backup))
          (On (Ready base backup))
  unfolding commit
  commit-After base backup new k =
      Triple-bind
        (Triple-both
          (Triple-conseq (λ w h. h.0) (still_safe-Looked New template e real base.text)
            (λ u w h. h))
          (Triple-conseq (λ w h. h.1)
            (still_safe-Keeps e (Kept backup base.text)
              (λ b log h. Kept-cons backup base.text (saw_door b) log h)
              (λ t log h. Kept-cons backup base.text (saw_toml t) log h) base.text)
            (λ u w h. h)))
        (λ u.
          On-op e (λ log. Looked New template e real base.text log × Kept backup base.text log)
            (After new base backup) (Ready base backup) (write_toml new)
            (λ r s log f h. (
              (((base.text, h.0.1, k), h.0.0.0), inl refl, Kept-cons backup base.text _ log h.1),
              (λ x. (
                (((base.text, h.0.1, k), h.0.0.0), (tt, h.0.0.1)),
                Kept-cons backup base.text _ log h.1,
              )),
              (λ x. (
                (((base.text, h.0.1, k), h.0.0.0), (tt, h.0.0.1)),
                Kept-cons backup base.text _ log h.1,
              )),
            ))
            (λ d. absurd (cc)))

  unreserve-Early :
      (base : BaseText) (backup : Option Text)
      → Triple (On (Ready base backup)) (unreserve e backup) (λ u. On Early) (On Early)
  unreserve-Early base none = Triple-pure _ _ _ (λ w h. h.0)
  unreserve-Early base (some name) =
      Triple-bind
        (Triple-attempt (
          On-op e (Ready base (some name)) Early Early (remove_backup name)
            (λ r s log f h. (
              ((inl (base.text, h.1), h.0.0), (tt, h.0.1)),
              (λ x. ((inl (base.text, h.1), h.0.0), (tt, h.0.1))),
              (λ x. ((inl (base.text, h.1), h.0.0), (tt, h.0.1))),
            ))
            (λ d. absurd (cc))))
        (λ r. Triple-pure _ _ _ (λ w h. either r w h))
    where
      either :
          (r : Result (Unit {0})) (w : SiteWorld)
          → Post (λ u. On Early) (On Early) r w
          → Early w.log
      either (ok u) w h = h
      either (err x) w h = h

  After-remove :
      (new : Text) (base : BaseText) (backup : Option Text) (name : Text) (x : FileAnswer)
      (s : Site) (log : List SiteEvent)
      → After new base backup log
      → After new base backup (did (remove_backup name) x s ∷ log)
  After-remove new base backup name x s log h =
      ((inr (new, h.1), h.0), inr h.1, Kept-cons backup base.text _ log h.2)

  prune-After :
      (new : Text) (base : BaseText) (backup : Option Text) (names : List Text)
      → Triple
          (On (After new base backup))
          (prune e names)
          (λ u. On (After new base backup))
          (On Early)
  prune-After new base backup [] = Triple-pure _ _ _ (λ w h. h)
  prune-After new base backup (name ∷ names) =
      let rest = prune-After new base backup names in
      Triple-bind
        (Triple-attempt (
          On-op e (After new base backup) (After new base backup) (After new base backup)
            (remove_backup name)
            (λ r s log f h. (
              After-remove new base backup name done s log h,
              (λ x. After-remove new base backup name (refused x) s log h),
              (λ x. After-remove new base backup name (done_late x) s log h),
            ))
            (λ d. absurd (cc))))
        (λ r. Triple-conseq (λ w h. either r w h) rest (λ u w h. h))
    where
      either :
          (r : Result (Unit {0})) (w : SiteWorld)
          → Post (λ u. On (After new base backup)) (On (After new base backup)) r w
          → After new base backup w.log
      either (ok u) w h = h
      either (err x) w h = h

  -- What a write that returned has done.
  abbrev pub Wrote : BaseText → Patched → WriteReport → List SiteEvent → Type 0
  Wrote base p report log =
      After p.text base report.backup_path log
      × (report.backup_path ≡ none → report.created_from_template ≡ true)

  settle-Wrote :
      (base : BaseText) (p : Patched) (r : Reserved) (res : Result (Unit {0}))
      → HasBackup base r.backup
      → Triple
          (Post (λ u. On (After p.text base r.backup)) (On (Ready base r.backup)) res)
          (settle e r (report_of base p r.backup) res)
          (λ report. On (Wrote base p report))
          (On Early)
  unfolding settle
  settle-Wrote base p r (ok u) k =
      Triple-bind (prune-After p.text base r.backup r.stale)
        (λ v. Triple-pure _ _ _ (λ w h. (h, (λ n. ap not (k n)))))
  settle-Wrote base p r (err x) k =
      Triple-bind (unreserve-Early base r.backup) (λ v. Triple-throw _ _ _ (λ w h. h))

  pub replace-Wrote :
      (base : BaseText) (p : Patched) (fuel : ℕ)
      → New base.text p.text
      → Triple (On Early) (replace e base p fuel) (λ report. On (Wrote base p report)) (On Early)
  unfolding replace
  replace-Wrote base p fuel k =
      Triple-bind
        (Triple-conseq (λ w h. h) (still_safe-Looked New template e real base.text) (λ u w h. h.0))
        (λ u. Triple-bind (reserve-Ready base fuel) (λ r. Triple-given (λ b.
          Triple-bind (Triple-attempt (commit-After base r.backup p.text k))
            (λ res. settle-Wrote base p r res b))))
