-- ===== src/Config/Write/Dry.antt =====
-- config/runtime_toml.rs: a dry run plans its operations and carries out none.
use wine_vr.Prelude.{
  ◌≡◌, ℕ, zero, suc, Bool, true, false, Option, none, some, inl, inr, List, [], ◌∷◌, is_empty, Text,
}
use wine_vr.Host.Error.{SabrageError, Result, ok, err}
use wine_vr.Host.Effect.{pure, throw, attempt, ◌>>=◌}
use wine_vr.Host.Effect.Rules.{
  Post, Triple, Triple-pure, Triple-throw, Triple-if, Triple-bind, Keeps-after, Triple-attempt,
  Triple-conseq, Triple-weaken,
}
use wine_vr.Config.Value.{Floats}
use wine_vr.Config.Setting.{RuntimeConfigValues, validate}
use wine_vr.Config.Site.{
  FileOp, make_dir, create_toml, write_toml, create_backup, remove_backup, SiteEvent, did, SiteEnv,
  SiteWorld, C, op, create_new,
}
use wine_vr.Config.Backups.{next_backup_path}
use wine_vr.Config.Patch.{Documents, Patched, apply_patch}
use wine_vr.Config.Write.{
  WriteReport, still_safe_to_replace, BaseText, read_base, create_base, is_file, probe_again,
  load_base, reserve_backup_path, Reserved, reserve, commit, unreserve, prune, settle, report_of,
  replace, write_patched, write_valid, write,
}
use wine_vr.Config.Write.Log.{On, On-look, On-op, On-create_new, Created}
use wine_vr.Config.Setting.{InvalidValue}
use wine_vr.Config.Write.Keeps.{
  still_safe-Keeps, read_base-Keeps, is_file-Keeps, refuse_live-Keeps, lock_unless_dry-Keeps,
}

-- No operation was carried out.
abbrev NotDoing : SiteEvent → Type 0
NotDoing (did a x s) = ⊥
NotDoing _ = Unit

abbrev pub OnlyLooked : List SiteEvent → Type 0
OnlyLooked [] = Unit
OnlyLooked (x ∷ log) = NotDoing x × OnlyLooked log

-- An action that leaves a log without operations so.
abbrev KeepsQuiet : {A : Type 0} → C A → Type 0
KeepsQuiet m = Triple (On OnlyLooked) m (λ a. On OnlyLooked) (On OnlyLooked)

module _ (e : SiteEnv) (dry : e.dry_run ≡ true) where
  op-OnlyLooked :
      (a : FileOp) → Triple (On OnlyLooked) (op e a) (λ u. On OnlyLooked) (On OnlyLooked)
  op-OnlyLooked a =
      On-op e OnlyLooked OnlyLooked OnlyLooked a (λ r. absurd (cc)) (λ d log h. (tt, h))

  create_new-OnlyLooked :
      (a : FileOp) → Triple (On OnlyLooked) (create_new e a) (λ u. On OnlyLooked) (On OnlyLooked)
  create_new-OnlyLooked a =
      Triple-weaken
        (On-create_new e OnlyLooked OnlyLooked OnlyLooked a (λ r. absurd (cc)) (λ d log h. (tt, h)))
        (λ b w h. either b w h) (λ w h. h)
    where
      either :
          (b : Bool) (w : SiteWorld)
          → Created e OnlyLooked OnlyLooked OnlyLooked b w
          → OnlyLooked w.log
      either b w (inl (r, h)) = h
      either b w (inr (r, h)) = h

  load_base-OnlyLooked : (template : Text) → KeepsQuiet (load_base e template)
  unfolding load_base probe_again create_base
  load_base-OnlyLooked template = Triple-bind is_file' (λ there.
      Triple-bind (again there) (λ exists.
        Triple-if exists _ _ (λ yes. read_base')
          (λ no.
            Triple-bind (create_new-OnlyLooked (create_toml template))
              (λ made. Triple-if made _ _ (λ y. Triple-pure _ _ _ (λ w h. h)) (λ n. read_base')))))
    where
      is_file' : Triple (On OnlyLooked) (is_file e) (λ a. On OnlyLooked) (On OnlyLooked)
      is_file' = is_file-Keeps e OnlyLooked (λ b log h. (tt, h)) (λ t log h. (tt, h))

      read_base' : Triple (On OnlyLooked) (read_base e) (λ a. On OnlyLooked) (On OnlyLooked)
      read_base' = read_base-Keeps e OnlyLooked (λ b log h. (tt, h)) (λ t log h. (tt, h))

      again :
          (there : Bool)
          → Triple (On OnlyLooked) (probe_again e there) (λ a. On OnlyLooked) (On OnlyLooked)
      again true = Triple-pure _ _ _ (λ w h. h)
      again false = Triple-bind (op-OnlyLooked make_dir) (λ u. is_file')

  still_safe-OnlyLooked : (base : Text) → KeepsQuiet (still_safe_to_replace e base)
  still_safe-OnlyLooked base =
      still_safe-Keeps e OnlyLooked (λ b log h. (tt, h)) (λ t log h. (tt, h)) base

  module _ (bytes : Text) (m : C Text) (rest : KeepsQuiet m) where
    tried-OnlyLooked :
        (name : Text) (made : Bool) → KeepsQuiet (elim made [ true ↦ pure name | false ↦ m ])
    tried-OnlyLooked name true = Triple-pure _ _ _ (λ w h. h)
    tried-OnlyLooked name false = rest

    found-OnlyLooked :
        (o : Option Text)
        → KeepsQuiet {A = Text} (elim o [
          | none ↦ throw SabrageError.cancelled
          | some name ↦ do
            created ← create_new e (create_backup name bytes)
            elim created [ true ↦ pure name | false ↦ m ]
        ])
    found-OnlyLooked none = Triple-throw _ _ _ (λ w h. h)
    found-OnlyLooked (some name) =
        Triple-bind (create_new-OnlyLooked (create_backup name bytes)) (tried-OnlyLooked name)

  reserve_backup_path-OnlyLooked :
      (bytes : Text) (fuel : ℕ) → KeepsQuiet (reserve_backup_path e bytes fuel)
  unfolding reserve_backup_path
  reserve_backup_path-OnlyLooked bytes zero = Triple-throw _ _ _ (λ w h. h)
  reserve_backup_path-OnlyLooked bytes (suc fuel) =
      let rest = reserve_backup_path-OnlyLooked bytes fuel in
      Triple-bind (On-look e OnlyLooked _) (λ s.
        found-OnlyLooked bytes (reserve_backup_path e bytes fuel) rest
          (next_backup_path e.unix_secs s.backups))

  reserve-OnlyLooked : (base : BaseText) (fuel : ℕ) → KeepsQuiet (reserve e base fuel)
  unfolding reserve
  reserve-OnlyLooked base fuel =
      Triple-if base.exists _ _
        (λ there. Triple-bind (On-look e OnlyLooked _) (λ s.
          Triple-bind (op-OnlyLooked make_dir) (λ u.
            Triple-bind (reserve_backup_path-OnlyLooked base.text fuel)
              (λ name. Triple-pure _ _ _ (λ w h. h)))))
        (λ absent. Triple-pure _ _ _ (λ w h. h))

  -- An attempt of what keeps it keeps it.
  attempt-OnlyLooked : {A : Type 0} (m : C A) → KeepsQuiet m → KeepsQuiet (attempt m)
  attempt-OnlyLooked m h = Triple-conseq (λ w p. p) (Triple-attempt h) (λ r w p. Post-const r w p)
    where
      Post-const :
          {A : Type 0} (r : Result A) (w : SiteWorld)
          → Post (λ a. On OnlyLooked) (On OnlyLooked) r w
          → OnlyLooked w.log
      Post-const (ok a) w h = h
      Post-const (err x) w h = h

  removed-OnlyLooked : (name : Text) → KeepsQuiet (attempt (op e (remove_backup name)))
  removed-OnlyLooked name = attempt-OnlyLooked _ (op-OnlyLooked (remove_backup name))

  prune-OnlyLooked : (names : List Text) → KeepsQuiet (prune e names)
  prune-OnlyLooked [] = Triple-pure _ _ _ (λ w h. h)
  prune-OnlyLooked (name ∷ names) =
      let rest = prune-OnlyLooked names in Triple-bind (removed-OnlyLooked name) (λ r. rest)

  settle-OnlyLooked :
      (r : Reserved) (report : WriteReport) (res : Result (Unit {0}))
      → KeepsQuiet (settle e r report res)
  unfolding settle
  settle-OnlyLooked r report (ok u) =
      Triple-bind (prune-OnlyLooked r.stale) (λ v. Triple-pure _ _ _ (λ w h. h))
  settle-OnlyLooked r report (err x) =
      Triple-bind (freed r.backup) (λ v. Triple-throw _ _ _ (λ w h. h))
    where
      freed :
          (o : Option Text)
          → Triple (On OnlyLooked) (unreserve e o) (λ a. On OnlyLooked) (On OnlyLooked)
      freed none = Triple-pure _ _ _ (λ w h. h)
      freed (some name) = Triple-bind (removed-OnlyLooked name) (λ v. Triple-pure _ _ _ (λ w h. h))

  patched-OnlyLooked :
      (base : BaseText) (r : Result Patched) (fuel : ℕ) → KeepsQuiet (write_patched e base r fuel)
  unfolding write_patched replace commit
  patched-OnlyLooked base (err x) fuel = Triple-throw _ _ _ (λ w h. h)
  patched-OnlyLooked base (ok p) fuel =
      Triple-if (is_empty p.changed_keys) _ _ (λ same. Triple-pure _ _ _ (λ w h. h))
        (λ changed. Triple-bind (still_safe-OnlyLooked base.text) (λ u.
          Triple-bind (reserve-OnlyLooked base fuel) (λ r.
            Triple-bind (attempt-OnlyLooked _ (committed p.text))
              (λ res. settle-OnlyLooked r (report_of base p r.backup) res))))
    where
      committed :
          (new : Text)
          → Triple (On OnlyLooked) (commit e base.text new) (λ a. On OnlyLooked) (On OnlyLooked)
      committed new =
          Triple-bind (still_safe-OnlyLooked base.text) (λ u. op-OnlyLooked (write_toml new))

  module _ {F E : Type 0} (fl : Floats F) (docs : Documents F E) (template : Text)
      (patch : RuntimeConfigValues F) (fuel : ℕ) where
    valid-OnlyLooked :
        (bad : List InvalidValue) → KeepsQuiet (write_valid fl docs template e patch fuel bad)
    valid-OnlyLooked (b ∷ bad) = Triple-throw _ _ _ (λ w h. h)
    valid-OnlyLooked [] =
        Triple-bind (refuse_live-Keeps e OnlyLooked (λ b log h. (tt, h)) (λ t log h. (tt, h))) (λ u.
          Triple-bind (lock_unless_dry-Keeps OnlyLooked e) (λ l.
            Triple-bind (load_base-OnlyLooked template)
              (λ base. patched-OnlyLooked base (apply_patch docs fl base.text patch) fuel)))

    -- A dry run of a write carries out no operation.
    pub write-OnlyLooked :
        (w : SiteWorld) → w.log ≡ [] → OnlyLooked (write fl docs template e patch fuel w).1.log
    unfolding write
    write-OnlyLooked w start = Keeps-after (valid-OnlyLooked (validate fl patch)) w (rw start tt)
