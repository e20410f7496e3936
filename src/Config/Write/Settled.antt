-- ===== src/Config/Write/Settled.antt =====
-- config/runtime_toml.rs: the loop that reserves a backup ends once the other processes are done.
use mathlib.Core.Path.{subst}
use wine_vr.Prelude.{
  ◌≡◌, refl, sym, ℕ, zero, suc, ◌+◌, ◌≤◌, ◌<◌, true, false, Bool-cases, Option, none, some, inl,
  inr, ◌∷◌, length, Text, arith,
}
use wine_vr.Host.Error.{SabrageError, Result, ok}
use wine_vr.Host.Effect.{pure, throw, ◌>>=◌}
use wine_vr.Host.World.{done}
use wine_vr.Config.Site.{
  Site, FileOp, create_backup, SiteEnv, SiteWorld, C, turn, after_turn, look, create_new, link_new,
  real_op, has_backup,
}
use wine_vr.Config.Backups.Free.{next_backup_path-Free}
use wine_vr.Config.Write.{reserve_backup_path}

-- A machine that carries out every operation, on which other processes act before the operation
-- `last` alone, and which do not make more backups than there are numbers for.
pub record Settles (e : SiteEnv) (last : ℕ) : Type 0 where
  pub real : e.dry_run ≡ false
  pub done_all : (t : ℕ) (a : FileOp) → e.answer t a ≡ done
  pub quiet : (t : ℕ) (s : Site) → last ≤ t → e.others t s ≡ s
  pub few :
      (t : ℕ) (s : Site)
      → length s.backups < 4294967293
      → length (e.others t s).backups < 4294967293

-- The reservation returned the name of a backup of these bytes.
abbrev pub Made : Text → Result Text → SiteWorld → Type 0
Made bytes r w =
    (name : Text) × (before : Site) × (r ≡ ok name)
    × (has_backup name before.backups ≡ false)
    × (w.site.backups ≡ (name, bytes) ∷ before.backups)

module _ (e : SiteEnv) (last : ℕ) (h : Settles e last) (bytes : Text) where
  -- What is left of a round, once the name is known.
  abbrev tried : ℕ → Text → C Text
  tried fuel name = do
    made ← create_new e (create_backup name bytes)
    elim made [ true ↦ pure name | false ↦ reserve_backup_path e bytes fuel ]

  abbrev searched : ℕ → Option Text → C Text
  searched fuel o = elim o [ none ↦ throw SabrageError.cancelled | some name ↦ tried fuel name ]

  -- A name that is free when it is tried is had.
  free-Made :
      (fuel : ℕ) (name : Text) (w : SiteWorld)
      → has_backup name (turn e w).backups ≡ false
      → Made bytes (tried fuel name w).0 (tried fuel name w).1
  unfolding create_new link_new real_op pure ◌>>=◌
  free-Made fuel name w f =
      simp (h.real, f, h.done_all w.tick (create_backup name bytes)) (name, turn e w, refl, f, refl)

  taken-Made :
      (fuel : ℕ) (name : Text) (w : SiteWorld)
      → has_backup name (turn e w).backups ≡ true
      → (let out = reserve_backup_path e bytes fuel (after_turn e w) in Made bytes out.0 out.1)
      → Made bytes (tried fuel name w).0 (tried fuel name w).1
  unfolding create_new link_new ◌>>=◌
  taken-Made fuel name w f m = simp (h.real, f) m

  -- Where the name was free a moment ago, it is, or the others are not done.
  tried-Made :
      (fuel : ℕ) (name : Text) (w : SiteWorld)
      → has_backup name w.site.backups ≡ false
      → (w.tick < last
          → let out = reserve_backup_path e bytes fuel (after_turn e w) in Made bytes out.0 out.1)
      → Made bytes (tried fuel name w).0 (tried fuel name w).1
  tried-Made fuel name w f later = elim (Bool-cases (has_backup name (turn e w).backups)) [
    | inr free ↦ free-Made fuel name w free
    | inl taken ↦ taken-Made fuel name w taken (later (busy taken))
  ]
    where
      busy : has_backup name (turn e w).backups ≡ true → w.tick < last
      busy taken = ground (arith, h.quiet w.tick w.site)

  -- On a machine that carries out every operation, where no other process acts from some operation
  -- on and there are fewer backups than numbers, the reservation of a backup returns within as many
  -- rounds as there are operations until then, with a new backup of the bytes under a name that was
  -- free.
  pub reserve_backup_path-Made :
      (fuel : ℕ) (w : SiteWorld)
      → 0 < fuel
      → last ≤ w.tick + fuel
      → length w.site.backups < 4294967293
      → let out = reserve_backup_path e bytes fuel w in Made bytes out.0 out.1
  unfolding reserve_backup_path look ◌>>=◌
  reserve_backup_path-Made zero w p b c = absurd (omega arith)
  reserve_backup_path-Made (suc fuel) w p b c =
      let few = h.few w.tick w.site c in
      let next = next_backup_path-Free e.unix_secs (turn e w).backups few in
      let here = tried-Made fuel next.0 (after_turn e w) next.2 (λ busy.
        reserve_backup_path-Made fuel (after_turn e (after_turn e w)) (omega arith) (omega arith)
          (h.few (suc w.tick) (turn e w) few)) in
      subst
        (λ o. Made bytes (searched fuel o (after_turn e w)).0 (searched fuel o (after_turn e w)).1)
        (sym next.1) here
