-- ===== src/Host/Files/Keeps.antt =====
-- A condition on the files that an operation's effect keeps is kept by the operation.
use wine_vr.Prelude.{
  ◌≡◌, refl, sym, ℕ, Bool, true, false, not, ◌&&◌, String, Option, none, Text, Bool-cases, inl, inr,
  arith,
}
use mathlib.Core.Path.{subst}
use wine_vr.Host.Error.{Message, SabrageError}
use wine_vr.Host.World.{FileAnswer, done, refused, done_late, answer_of}
use wine_vr.Host.Effect.Rules.{
  Post, Triple, Keeps, Keeps-pure, Triple-if, Triple-bind, Triple-throw,
}
use wine_vr.Host.Files.{
  Files, FsOp, FsEvent, FsEnv, FsWorld, effect, is_file, sourced, files_after, note, files, die,
  die_with_cause, real_op, plan_op, op, cmp_files, repair_mode, copy_by, copy_if_changed, set_mode,
  copy, write, make_dir, Node, same_mode,
}

module _ (I : Files → Type 0) where
  abbrev pub Over : FsWorld → Type 0
  Over w = I w.fs

  pub note-Over : (x : FsEvent) → Keeps Over (note x)
  unfolding note
  note-Over x = record { at = λ w p. p }

  -- The files that are looked at satisfy it too.
  pub files-Over : Triple Over files (λ fs w. Over w × I fs) Over
  unfolding files
  files-Over = record { at = λ w p. (p, p) }

  -- These never return.
  pub die-Over :
      {A : Type 0} (Q : A → FsWorld → Type 0) (m : Message) (r : Option String)
      → Triple Over (die {A = A} m r) Q Over
  unfolding die
  die-Over Q m r = Triple-bind (note-Over _) (λ _. Triple-throw _ _ _ (λ w l. l))

  pub die_with_cause-Over :
      {A : Type 0} (Q : A → FsWorld → Type 0) (x : SabrageError) (m : Message)
      → Triple Over (die_with_cause {A = A} x m) Q Over
  unfolding die_with_cause
  die_with_cause-Over Q x m = Triple-bind (note-Over _) (λ _. die-Over Q m none)

  -- A copy takes effect only where its source is a file.
  abbrev pub Ready : FsOp → Files → Type 0
  Ready (copy src dst) fs = is_file (fs src) ≡ true
  Ready _ fs = Unit

  done-Over :
      (Q : FsWorld → Type 0) (ans : FileAnswer) (w : FsWorld)
      → (ans ≡ done → Q w)
      → Post (λ _. Q) (λ _. Unit {0}) (answer_of ans) w
  done-Over Q done w k = k refl
  done-Over Q (refused x) w k = tt
  done-Over Q (done_late x) w k = tt

  answered-Over :
      (ans : FileAnswer) (w : FsWorld) → I w.fs → Post (λ _. Over) Over (answer_of ans) w
  answered-Over done w h = h
  answered-Over (refused x) w h = h
  answered-Over (done_late x) w h = h

  after-Over :
      (ans : FileAnswer) (a : FsOp) (fs : Files)
      → I fs
      → (Ready a fs → I (effect a fs))
      → Ready a fs
      → I (files_after ans a fs)
  after-Over done a fs h k r = k r
  after-Over (refused x) a fs h k r = h
  after-Over (done_late x) a fs h k r = k r

  module _ (e : FsEnv) where
    abbrev pub Effect : FsOp → Type 0
    Effect a = e.dry_run ≡ false → (fs : Files) → I fs → Ready a fs → I (effect a fs)

    sourced-Over :
        (a : FsOp) (n : ℕ) (fs : Files)
        → I fs
        → (Ready a fs → I (effect a fs))
        → I (files_after (sourced e n fs a) a fs)
    sourced-Over (make_dir p) n fs h k = after-Over (e.answer n (make_dir p)) (make_dir p) fs h k tt
    sourced-Over (write p b) n fs h k = after-Over (e.answer n (write p b)) (write p b) fs h k tt
    sourced-Over (set_mode p m) n fs h k =
        after-Over (e.answer n (set_mode p m)) (set_mode p m) fs h k tt
    sourced-Over (copy src dst) n fs h k =
        elim (Bool-cases (is_file (fs src) && not (e.unread n src))) [
          | inl ready ↦
              rw ready (after-Over (e.answer n (copy src dst)) (copy src dst) fs h k (ground arith))
          | inr not_ready ↦ rw not_ready h
        ]

    sourced-Ready : (a : FsOp) (n : ℕ) (fs : Files) → sourced e n fs a ≡ done → Ready a fs
    sourced-Ready (make_dir p) n fs h = tt
    sourced-Ready (write p b) n fs h = tt
    sourced-Ready (set_mode p m) n fs h = tt
    sourced-Ready (copy src dst) n fs h = ground arith

    -- What an operation that returned has done.
    pub op-Done :
        (Q : Files → Type 0) (a : FsOp)
        → ((fs : Files) → I fs → Ready a fs → Q (effect a fs))
        → Triple Over (op e a) (λ _ w. e.dry_run ≡ false → Q w.fs) (λ _. Unit)
    unfolding op plan_op real_op
    op-Done Q a k =
        Triple-if e.dry_run (plan_op a) (real_op e a)
          (λ dry. record { at = λ w p real. absurd (cc) })
          (λ _. record {
            at = λ w p.
                done-Over (λ v. e.dry_run ≡ false → Q v.fs) (sourced e w.tick w.fs a) _
                  (λ d real.
                    subst (λ t. Q (files_after t a w.fs)) (sym d)
                      (k w.fs p (sourced-Ready a w.tick w.fs d)));
          })

    pub op-Over : (a : FsOp) → Effect a → Keeps Over (op e a)
    unfolding op plan_op real_op
    op-Over a k =
        Triple-if e.dry_run (plan_op a) (real_op e a) (λ _. record { at = λ w p. p })
          (λ real. record {
            at = λ w p.
                answered-Over (sourced e w.tick w.fs a) _
                  (sourced-Over a w.tick w.fs p (k real w.fs p));
          })

    pub cmp_files-Over : (a b : Text) → Keeps Over (cmp_files e a b)
    unfolding cmp_files
    cmp_files-Over a b = record { at = λ w p. p }

    repair_mode-Over :
        (dst : Text) (have want : Node)
        → ((m : ℕ) → Effect (set_mode dst m))
        → Keeps Over (repair_mode e dst have want)
    unfolding repair_mode
    repair_mode-Over dst have want r =
        Triple-if (same_mode want have) _ _ (λ _. Keeps-pure _)
          (λ _. Triple-bind (op-Over (set_mode dst _) (r _)) (λ _. Keeps-pure _))

    copied-Over :
        (src dst : Text)
        → Effect (copy src dst)
        → ((m : ℕ) → Effect (set_mode dst m))
        → (same : Bool) → Keeps Over (copy_by e src dst same)
    unfolding copy_by files
    copied-Over src dst k r true =
        Triple-bind (record { at = λ w p. p }) (λ fs. repair_mode-Over dst _ _ r)
    copied-Over src dst k r false = Triple-bind (op-Over (copy src dst) k) (λ _. Keeps-pure _)

    -- A copy, or the repair of a mode, keeps the condition where both do.
    pub copy_if_changed-Over :
        (src dst : Text)
        → Effect (copy src dst)
        → ((m : ℕ) → Effect (set_mode dst m))
        → Keeps Over (copy_if_changed e src dst)
    unfolding copy_if_changed
    copy_if_changed-Over src dst k r =
        Triple-bind (cmp_files-Over src dst) (copied-Over src dst k r)

-- An operation from one condition on the files to another.
pub op-To :
    (I J : Files → Type 0) (e : FsEnv) (a : FsOp)
    → ((fs : Files) → I fs → J fs)
    → ((fs : Files) → I fs → Ready J a fs → J (effect a fs))
    → Triple (Over I) (op e a) (λ _. Over J) (Over J)
unfolding op plan_op real_op
op-To I J e a h k =
    Triple-if e.dry_run (plan_op a) (real_op e a) (λ _. record { at = λ w p. h w.fs p })
      (λ real. record {
        at = λ w p.
            answered-Over J (sourced e w.tick w.fs a) _
              (sourced-Over J e a w.tick w.fs (h w.fs p) (k w.fs p));
      })
