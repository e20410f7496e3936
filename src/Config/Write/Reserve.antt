-- ===== src/Config/Write/Reserve.antt =====
-- config/runtime_toml.rs: what the reservation of a backup keeps.
use wine_vr.Prelude.{
  ◌≡◌, refl, ℕ, zero, suc, Bool, true, false, Option, none, some, inl, inr, List, ◌∷◌, Text,
}
use wine_vr.Host.Error.{SabrageError}
use wine_vr.Host.Effect.{pure, throw, ◌>>=◌}
use wine_vr.Host.Effect.Rules.{Triple, Triple-pure, Triple-throw, Triple-bind, Triple-conseq}
use wine_vr.Host.World.{FileAnswer, done, refused, done_late}
use wine_vr.Config.Site.{
  Site, create_backup, SiteEvent, did, SiteEnv, SiteWorld, C, create_new, is_taken,
}
use wine_vr.Config.Backups.{next_backup_path}
use wine_vr.Config.Write.{reserve_backup_path}
use wine_vr.Config.Write.Log.{BackedUp, On, On-look, On-create_new, Created}
use wine_vr.Config.Write.Steps.{Before}

module _ (New : Text → Text → Type 0) (template : Text) (e : SiteEnv)
    (real : e.dry_run ≡ false) where
  -- The backup under this name was made, of these bytes.
  abbrev pub Backed : Text → Text → List SiteEvent → Type 0
  Backed bytes name log = (Before New template e real) log × BackedUp name bytes log

  create_backup-Before :
      (name bytes : Text) (s : Site) (log : List SiteEvent) (x : FileAnswer)
      → is_taken (create_backup name bytes) s ≡ false
      → (Before New template e real) log
      → (Before New template e real) (did (create_backup name bytes) x s ∷ log)
  create_backup-Before name bytes s log x f h = ((f, h.0), (tt, h.1))

  -- A new backup, or else the name was taken.
  create_new-Backed :
      (name bytes : Text)
      → Triple
          (On (Before New template e real))
          (create_new e (create_backup name bytes))
          (Created e (Before New template e real) (Backed bytes name) (Before New template e real))
          (On (Before New template e real))
  create_new-Backed name bytes =
      On-create_new e (Before New template e real) (Backed bytes name) (Before New template e real)
        (create_backup name bytes)
        (λ r s log f h. (
          (create_backup-Before name bytes s log done f h, inl (refl, refl)),
          (λ x. create_backup-Before name bytes s log (refused x) f h),
          (λ x. create_backup-Before name bytes s log (done_late x) f h),
        ))
        (λ d. absurd (cc))

  Created-Backed :
      (name bytes : Text) (w : SiteWorld)
      → Created e
          (Before New template e real)
          (Backed bytes name)
          (Before New template e real)
          true
          w
      → Backed bytes name w.log
  Created-Backed name bytes w (inl (r, h)) = h
  Created-Backed name bytes w (inr (r, h)) = absurd (cc)

  Created-lost :
      (name bytes : Text) (w : SiteWorld)
      → Created e
          (Before New template e real)
          (Backed bytes name)
          (Before New template e real)
          false
          w
      → (Before New template e real) w.log
  Created-lost name bytes w (inl (r, h)) = h.0
  Created-lost name bytes w (inr (r, h)) = h

  -- The rounds that are left, after a name was looked for and tried.
  module _ (bytes : Text) (m : C Text)
      (rest : Triple
        (On (Before New template e real))
        m
        (λ name. On (Backed bytes name))
        (On (Before New template e real))) where
    tried-Backed :
        (name : Text) (made : Bool)
        → Triple
            (Created e
              (Before New template e real)
              (Backed bytes name)
              (Before New template e real)
              made)
            (elim made [ true ↦ pure name | false ↦ m ])
            (λ n. On (Backed bytes n))
            (On (Before New template e real))
    tried-Backed name true = Triple-pure _ _ _ (λ w h. Created-Backed name bytes w h)
    tried-Backed name false = Triple-conseq (λ w h. Created-lost name bytes w h) rest (λ n w h. h)

    found-Backed :
        (o : Option Text)
        → Triple
            (On (Before New template e real))
            (elim o [
              | none ↦ throw SabrageError.cancelled
              | some name ↦ do
                created ← create_new e (create_backup name bytes)
                elim created [ true ↦ pure name | false ↦ m ]
            ])
            (λ n. On (Backed bytes n))
            (On (Before New template e real))
    found-Backed none = Triple-throw _ _ _ (λ w h. h)
    found-Backed (some name) = Triple-bind (create_new-Backed name bytes) (tried-Backed name)

  pub reserve_backup_path-Backed :
      (bytes : Text) (fuel : ℕ)
      → Triple
          (On (Before New template e real))
          (reserve_backup_path e bytes fuel)
          (λ name. On (Backed bytes name))
          (On (Before New template e real))
  unfolding reserve_backup_path
  reserve_backup_path-Backed bytes zero = Triple-throw _ _ _ (λ w h. h)
  reserve_backup_path-Backed bytes (suc fuel) =
      let rest = reserve_backup_path-Backed bytes fuel in
      Triple-bind (On-look e (Before New template e real) _) (λ s.
        found-Backed bytes (reserve_backup_path e bytes fuel) rest
          (next_backup_path e.unix_secs s.backups))
