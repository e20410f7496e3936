-- ===== src/Config/Write/Log.antt =====
-- config/runtime_toml.rs: what a write may do, as a predicate of what it did before.
use wine_vr.Prelude.{
  ◌≡◌, refl, Bool, true, false, Option, none, some, ◌⊎◌, inl, inr, List, [], ◌∷◌, Text,
  if◌then◌else◌,
}
use wine_vr.Host.Error.{SabrageError, Result, ok}
use wine_vr.Host.Effect.Rules.{Post, Triple, Triple-if}
use wine_vr.Host.World.{FileAnswer, done, refused, done_late}
use wine_vr.Config.Site.{
  Site, FileOp, make_dir, create_toml, write_toml, create_backup, remove_backup, SiteEvent,
  saw_door, saw_toml, did, planned, SiteEnv, SiteWorld, look, blocking_session, read_toml,
  text_read, seen, op, real_op, plan_op, turn, create_new, link_new, plan_new, is_taken, answered,
}

abbrev Log : Type 0
Log = List SiteEvent

-- The backup of these bytes was created under this name, and that was reported.
abbrev IsBackup : Text → Text → SiteEvent → Type 0
IsBackup name bytes (did (create_backup n t) done s) = (n ≡ name) × (t ≡ bytes)
IsBackup name bytes _ = ⊥

abbrev pub BackedUp : Text → Text → Log → Type 0
BackedUp name bytes [] = ⊥
BackedUp name bytes (x ∷ log) = IsBackup name bytes x ⊎ BackedUp name bytes log

-- The file was replaced by this text, and that was reported.
abbrev IsReplaced : Text → SiteEvent → Type 0
IsReplaced new (did (write_toml t) done s) = t ≡ new
IsReplaced new _ = ⊥

abbrev pub Replaced : Text → Log → Type 0
Replaced new [] = ⊥
Replaced new (x ∷ log) = IsReplaced new x ⊎ Replaced new log

-- The two looks right before: the door was open, and the file held `base`.
abbrev pub LookedAt : Text → Log → Type 0
LookedAt base log = (rest : Log) × (log ≡ saw_toml (some base) ∷ saw_door none ∷ rest)

-- `New base new`: what the write makes of the text `base` is `new`.
module _ (New : Text → Text → Type 0) (template : Text) where
  abbrev pub OpAllowed : FileOp → Site → Log → Type 0
  OpAllowed make_dir s log = Unit
  OpAllowed (create_toml t) s log = (t ≡ template) × (s.toml ≡ none)
  OpAllowed (write_toml new) s log = (base : Text) × LookedAt base log × New base new
  OpAllowed (create_backup name t) s log = is_taken (create_backup name t) s ≡ false
  OpAllowed (remove_backup name) s log =
      ((bytes : Text) × BackedUp name bytes log) ⊎ ((new : Text) × Replaced new log)

  abbrev pub Allowed : SiteEvent → Log → Type 0
  Allowed (did a x s) log = OpAllowed a s log
  Allowed _ log = Unit

  -- Every step of a run was allowed by what came before.
  abbrev pub LogAllowed : Log → Type 0
  LogAllowed [] = Unit
  LogAllowed (x ∷ log) = Allowed x log × LogAllowed log

abbrev pub On : (Log → Type 0) → SiteWorld → Type 0
On Φ w = Φ w.log

-- The rules of the operations, for predicates of the log.
module _ (e : SiteEnv) (Φ : Log → Type 0) where
  pub On-look : (E : SiteWorld → Type 0) → Triple (On Φ) (look e) (λ s. On Φ) E
  unfolding look
  On-look E = record { at = λ w h. h }

  pub On-blocking_session :
      (E : SiteWorld → Type 0)
      → Triple
          (On Φ)
          (blocking_session e)
          (λ b w. (rest : Log) × (w.log ≡ saw_door b ∷ rest) × Φ rest)
          E
  unfolding blocking_session
  On-blocking_session E = record { at = λ w h. (w.log, refl, h) }

  read-Post :
      (x : Option SabrageError) (t : Option Text) (log : Log) (v : SiteWorld)
      → v.log ≡ saw_toml (seen x t) ∷ log
      → Φ log
      → Post
          (λ now w. (rest : Log) × (w.log ≡ saw_toml (some now) ∷ rest) × Φ rest)
          (λ w. (rest : Log) × (w.log ≡ saw_toml none ∷ rest) × Φ rest)
          (text_read e x t)
          v
  read-Post (some x) t log v k h = (log, k, h)
  read-Post none none log v k h = (log, k, h)
  read-Post none (some t) log v k h = (log, k, h)

  pub On-read_toml :
      Triple
        (On Φ)
        (read_toml e)
        (λ now w. (rest : Log) × (w.log ≡ saw_toml (some now) ∷ rest) × Φ rest)
        (λ w. (rest : Log) × (w.log ≡ saw_toml none ∷ rest) × Φ rest)
  unfolding read_toml
  On-read_toml = record { at = λ w h. read-Post (e.unread w.tick) _ w.log _ refl h }

  -- `Ψ` and `Ξ` are what holds after the step, done or failed.
  module _ (Ψ Ξ : Log → Type 0) where
    abbrev Steps : FileOp → (Site → Type 0) → Type 0
    Steps a Free =
        (s : Site) (log : Log)
        → Free s
        → Φ log
        → Ψ (did a done s ∷ log)
          × ((x : SabrageError) → Ξ (did a (refused x) s ∷ log))
          × ((x : SabrageError) → Ξ (did a (done_late x) s ∷ log))

    -- An operation that was carried out, with any outcome.
    answered-Post :
        {A : Type 0} (Q : A → SiteWorld → Type 0) (out : A) (ans : FileAnswer) (a : FileOp)
        (s : Site) (log : Log) (v : SiteWorld)
        → v.log ≡ did a ans s ∷ log
        → Ψ (did a done s ∷ log)
          × ((x : SabrageError) → Ξ (did a (refused x) s ∷ log))
          × ((x : SabrageError) → Ξ (did a (done_late x) s ∷ log))
        → (On Ψ v → Q out v)
        → Post Q (On Ξ) (answered ans out) v
    answered-Post Q out done a s log v k h q = q (rw k h.0)
    answered-Post Q out (refused x) a s log v k h q = rw k (h.1 x)
    answered-Post Q out (done_late x) a s log v k h q = rw k (h.2 x)

    pub On-op :
        (a : FileOp)
        → (e.dry_run ≡ false → Steps a (λ s. Unit))
        → (e.dry_run ≡ true → (log : Log) → Φ log → Ψ (planned a ∷ log))
        → Triple (On Φ) (op e a) (λ r. On Ψ) (On Ξ)
    unfolding op real_op plan_op
    On-op a h k =
        Triple-if e.dry_run (plan_op tt a) (real_op e tt a)
          (λ d. record { at = λ w p. k d w.log p })
          (λ d. record {
            at = λ w p.
                answered-Post (λ r. On Ψ) tt (e.answer w.tick a) a (turn e w) w.log _ refl
                  (h d _ w.log tt p) (λ q. q);
          })

    abbrev pub Created : Bool → SiteWorld → Type 0
    Created r w = ((r ≡ true) × On Ψ w) ⊎ ((r ≡ false) × On Φ w)

    taken-Post :
        (b : Bool) (v : SiteWorld) (r : Result Bool × SiteWorld)
        → Φ v.log
        → (b ≡ false → Post Created (On Ξ) r.0 r.1)
        → let out = if b then (ok false, v) else r in Post Created (On Ξ) out.0 out.1
    taken-Post true v r p h = inr (refl, p)
    taken-Post false v r p h = h refl

    pub On-create_new :
        (a : FileOp)
        → (e.dry_run ≡ false → Steps a (λ s. is_taken a s ≡ false))
        → (e.dry_run ≡ true → (log : Log) → Φ log → Ψ (planned a ∷ log))
        → Triple (On Φ) (create_new e a) Created (On Ξ)
    unfolding create_new link_new plan_new real_op plan_op
    On-create_new a h k =
        Triple-if e.dry_run (plan_new e a) (link_new e a)
          (λ d. record {
            at = λ w p. taken-Post (is_taken a (turn e w)) _ _ p (λ f. inl (refl, k d w.log p));
          })
          (λ d. record {
            at = λ w p. taken-Post (is_taken a (turn e w)) _ _ p (λ f.
                answered-Post Created true (e.answer w.tick a) a (turn e w) w.log _ refl
                  (h d _ w.log f p) (λ q. inl (refl, q)));
          })
