-- ===== src/Config/Write/Keeps.antt =====
-- config/runtime_toml.rs: a predicate of the log that the code's looks keep.
use wine_vr.Prelude.{ℕ, zero, suc, Bool, true, false, Option, none, some, List, ◌∷◌, Text, text_eq}
use wine_vr.Host.Effect.{pure, throw}
use wine_vr.Host.Effect.Rules.{
  Triple, Triple-pure, Triple-throw, Triple-if, Triple-bind, Triple-weaken,
}
use wine_vr.Session.Doors.{SessionBlock}
use wine_vr.Config.Site.{SiteEvent, saw_door, saw_toml, SiteEnv}
use wine_vr.Config.Write.{
  refuse_block, refuse_live, compare_bytes, still_safe_to_replace, read_base, is_file,
  changed_underneath,
}
use wine_vr.Config.Write.Log.{On, On-look, On-blocking_session, On-read_toml}
use wine_vr.Config.Write.{lock_toml, lock_polls, lock_unless_dry}

-- A predicate of the log that both looks keep is kept where the code looks.
module _ (e : SiteEnv) (K : List SiteEvent → Type 0)
    (door : (b : Option SessionBlock) (log : List SiteEvent) → K log → K (saw_door b ∷ log))
    (toml : (t : Option Text) (log : List SiteEvent) → K log → K (saw_toml t ∷ log)) where
  refuse_block-Keeps : (b : Option SessionBlock) → Triple (On K) (refuse_block b) (λ u. On K) (On K)
  refuse_block-Keeps none = Triple-pure _ _ _ (λ w h. h)
  refuse_block-Keeps (some b) = Triple-throw _ _ _ (λ w h. h)

  pub refuse_live-Keeps : Triple (On K) (refuse_live e) (λ u. On K) (On K)
  unfolding refuse_live
  refuse_live-Keeps =
      Triple-bind
        (Triple-weaken (On-blocking_session e K (On K)) (λ b w h. rw h.1 (door b h.0 h.2))
          (λ w h. h))
        refuse_block-Keeps

  compare_bytes-Keeps : (base : Text) → Triple (On K) (compare_bytes e base) (λ u. On K) (On K)
  unfolding compare_bytes
  compare_bytes-Keeps base =
      Triple-bind
        (Triple-weaken (On-read_toml e K) (λ now w h. rw h.1 (toml (some now) h.0 h.2))
          (λ w h. rw h.1 (toml none h.0 h.2)))
        (λ now.
          Triple-if (text_eq now base) (pure tt) (throw changed_underneath)
            (λ same. Triple-pure _ _ _ (λ w h. h)) (λ other. Triple-throw _ _ _ (λ w h. h)))

  pub still_safe-Keeps :
      (base : Text) → Triple (On K) (still_safe_to_replace e base) (λ u. On K) (On K)
  unfolding still_safe_to_replace
  still_safe-Keeps base = Triple-bind refuse_live-Keeps (λ u.
      Triple-if e.dry_run (pure tt) (compare_bytes e base) (λ d. Triple-pure _ _ _ (λ w h. h))
        (λ d. compare_bytes-Keeps base))

  pub read_base-Keeps : Triple (On K) (read_base e) (λ b. On K) (On K)
  unfolding read_base
  read_base-Keeps =
      Triple-bind
        (Triple-weaken (On-read_toml e K) (λ now w h. rw h.1 (toml (some now) h.0 h.2))
          (λ w h. rw h.1 (toml none h.0 h.2)))
        (λ now. Triple-pure _ _ _ (λ w h. h))

  pub is_file-Keeps : Triple (On K) (is_file e) (λ b. On K) (On K)
  unfolding is_file
  is_file-Keeps = Triple-bind (On-look e K _) (λ s. Triple-pure _ _ _ (λ w h. h))

-- Polling the lock writes nothing.
module _ (Φ : List SiteEvent → Type 0) (e : SiteEnv) where
  lock_toml-Keeps : (n : ℕ) → Triple (On Φ) (lock_toml e n) (λ b. On Φ) (On Φ)
  unfolding lock_toml
  lock_toml-Keeps zero = Triple-pure _ _ _ (λ w h. h)
  lock_toml-Keeps (suc n) =
      let rest = lock_toml-Keeps n in Triple-bind (On-look e Φ _) (λ s. polled s.locked rest)
    where
      polled :
          (locked : Bool)
          → Triple (On Φ) (lock_toml e n) (λ b. On Φ) (On Φ)
          → Triple
              (On Φ)
              (elim locked [ false ↦ pure true | true ↦ lock_toml e n ])
              (λ b. On Φ)
              (On Φ)
      polled false rest = Triple-pure _ _ _ (λ w h. h)
      polled true rest = rest

  pub lock_unless_dry-Keeps : Triple (On Φ) (lock_unless_dry e) (λ b. On Φ) (On Φ)
  unfolding lock_unless_dry
  lock_unless_dry-Keeps =
      Triple-if e.dry_run _ _ (λ d. Triple-pure _ _ _ (λ w h. h)) (λ d. lock_toml-Keeps lock_polls)
