-- ===== src/Config/Write/Steps.antt =====
-- config/runtime_toml.rs: what the steps of a real write before the replacement keep.
use wine_vr.Prelude.{
  ◌≡◌, refl, ap, ◌∙◌, Bool, true, false, Option, none, some, inl, inr, List, [], ◌∷◌, Text, text_eq,
  text_eq_iff, arith,
}
use wine_vr.Host.Effect.{pure, throw}
use wine_vr.Host.Effect.Rules.{
  Triple, Triple-pure, Triple-throw, Triple-if, Triple-bind, Triple-conseq, Triple-weaken,
}
use wine_vr.Host.World.{FileAnswer, done, refused, done_late}
use wine_vr.Session.Doors.{SessionBlock}
use wine_vr.Config.Site.{
  Site, make_dir, create_toml, write_toml, SiteEvent, saw_door, saw_toml, did, SiteEnv, SiteWorld,
  op, is_taken,
}
use wine_vr.Config.Write.{
  refuse_block, refuse_live, compare_bytes, still_safe_to_replace, read_base, create_base, is_file,
  probe_again, load_base, changed_underneath,
}
use wine_vr.Config.Write.Log.{
  LookedAt, LogAllowed, On, On-look, On-blocking_session, On-read_toml, On-op, On-create_new,
  Created,
}

-- No replacement of the file was reported.
abbrev NotReplacing : SiteEvent → Type 0
NotReplacing (did (write_toml t) done s) = ⊥
NotReplacing _ = Unit

abbrev pub Unreplaced : List SiteEvent → Type 0
Unreplaced [] = Unit
Unreplaced (x ∷ log) = NotReplacing x × Unreplaced log

module _ (New : Text → Text → Type 0) (template : Text) (e : SiteEnv)
    (real : e.dry_run ≡ false) where
  -- A run so far that was allowed and has not replaced the file.
  abbrev pub Before : List SiteEvent → Type 0
  Before log = LogAllowed New template log × Unreplaced log

  -- The door was just seen open.
  abbrev pub Open : List SiteEvent → Type 0
  Open log = (rest : List SiteEvent) × (log ≡ saw_door none ∷ rest) × Before rest

  abbrev pub Looked : Text → List SiteEvent → Type 0
  Looked base log = Before log × LookedAt base log

  refuse_block-Open :
      (b : Option SessionBlock)
      → Triple
          (λ w. (rest : List SiteEvent) × (w.log ≡ saw_door b ∷ rest) × Before rest)
          (refuse_block b)
          (λ u. On Open)
          (On Before)
  refuse_block-Open none = Triple-pure _ _ _ (λ w h. h)
  refuse_block-Open (some b) = Triple-throw _ _ _ (λ w h. rw h.1 ((tt, h.2.0), (tt, h.2.1)))

  pub refuse_live-Open : Triple (On Before) (refuse_live e) (λ u. On Open) (On Before)
  unfolding refuse_live
  refuse_live-Open = Triple-bind (On-blocking_session e Before _) refuse_block-Open

  Open-saw : (t : Option Text) (log : List SiteEvent) → Open log → Before (saw_toml t ∷ log)
  Open-saw t log h = rw h.1 ((tt, (tt, h.2.0)), (tt, (tt, h.2.1)))

  Open-Looked :
      (base now : Text) (log : List SiteEvent)
      → text_eq now base ≡ true
      → Open log
      → Looked base (saw_toml (some now) ∷ log)
  Open-Looked base now log same h = (
    Open-saw (some now) log h,
    (
      h.0,
      ap (λ t. saw_toml (some t) ∷ log) ((text_eq_iff now base).0 same)
          ∙ ap (λ l. saw_toml (some base) ∷ l) h.1,
    ),
  )

  compare_bytes-Looked :
      (base : Text) → Triple (On Open) (compare_bytes e base) (λ u. On (Looked base)) (On Before)
  unfolding compare_bytes
  compare_bytes-Looked base =
      Triple-bind
        (Triple-weaken (On-read_toml e Open) (λ now w h. h) (λ w h. rw h.1 (Open-saw none h.0 h.2)))
        (λ now.
          Triple-if (text_eq now base) (pure tt) (throw changed_underneath)
            (λ same. Triple-pure tt _ _ (λ w h. rw h.1 (Open-Looked base now h.0 same h.2)))
            (λ other.
              Triple-throw changed_underneath _ _ (λ w h. rw h.1 (Open-saw (some now) h.0 h.2))))

  pub still_safe-Looked :
      (base : Text)
      → Triple (On Before) (still_safe_to_replace e base) (λ u. On (Looked base)) (On Before)
  unfolding still_safe_to_replace
  still_safe-Looked base = Triple-bind refuse_live-Open (λ u.
      Triple-if e.dry_run (pure tt) (compare_bytes e base) (λ d. absurd (cc))
        (λ d. compare_bytes-Looked base))

  read_base-Before : Triple (On Before) (read_base e) (λ b. On Before) (On Before)
  unfolding read_base
  read_base-Before =
      Triple-bind
        (Triple-weaken (On-read_toml e Before) (λ now w h. rw h.1 ((tt, h.2.0), (tt, h.2.1)))
          (λ w h. rw h.1 ((tt, h.2.0), (tt, h.2.1))))
        (λ now. Triple-pure _ _ _ (λ w h. h))

  is_file-Before : Triple (On Before) (is_file e) (λ b. On Before) (On Before)
  unfolding is_file
  is_file-Before = Triple-bind (On-look e Before _) (λ s. Triple-pure _ _ _ (λ w h. h))

  pub make_dir-Before :
      (Φ : List SiteEvent → Type 0)
      → ((x : FileAnswer) (s : Site) (log : List SiteEvent) → Φ log → Φ (did make_dir x s ∷ log))
      → Triple (On Φ) (op e make_dir) (λ u. On Φ) (On Φ)
  make_dir-Before Φ h =
      On-op e Φ Φ Φ make_dir
        (λ r s log f p.
          (h done s log p, (λ x. h (refused x) s log p), (λ x. h (done_late x) s log p)))
        (λ d. absurd (cc))

  probe_again-Before :
      (there : Bool) → Triple (On Before) (probe_again e there) (λ b. On Before) (On Before)
  unfolding probe_again
  probe_again-Before true = Triple-pure _ _ _ (λ w h. h)
  probe_again-Before false =
      Triple-bind (make_dir-Before Before (λ x s log h. ((tt, h.0), (tt, h.1))))
        (λ u. is_file-Before)

  -- A creation of the file, where it was not there.
  create_toml-Before :
      (s : Site) (log : List SiteEvent) (x : FileAnswer)
      → is_taken (create_toml template) s ≡ false
      → Before log
      → Before (did (create_toml template) x s ∷ log)
  create_toml-Before s log x f h = (((refl, ground arith), h.0), (tt, h.1))

  Created-Before :
      (made : Bool) (w : SiteWorld) → Created e Before Before Before made w → Before w.log
  Created-Before made w (inl (r, h)) = h
  Created-Before made w (inr (r, h)) = h

  create_base-Before : Triple (On Before) (create_base e template) (λ b. On Before) (On Before)
  unfolding create_base
  create_base-Before =
      Triple-bind
        (On-create_new e Before Before Before (create_toml template)
          (λ r s log f h. (
            create_toml-Before s log done f h,
            (λ x. create_toml-Before s log (refused x) f h),
            (λ x. create_toml-Before s log (done_late x) f h),
          ))
          (λ d. absurd (cc)))
        (λ made.
          Triple-if made (pure (record { text = template; exists = false })) (read_base e)
            (λ yes. Triple-pure _ _ _ (λ w h. Created-Before made w h))
            (λ lost. Triple-conseq (λ w h. Created-Before made w h) read_base-Before (λ b w h. h)))

  pub load_base-Before : Triple (On Before) (load_base e template) (λ b. On Before) (On Before)
  unfolding load_base
  load_base-Before = Triple-bind is_file-Before (λ there.
      Triple-bind (probe_again-Before there) (λ exists.
        Triple-if exists (read_base e) (create_base e template) (λ yes. read_base-Before)
          (λ no. create_base-Before)))
