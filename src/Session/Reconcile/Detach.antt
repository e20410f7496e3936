-- ===== src/Session/Reconcile/Detach.antt =====
-- session/reconcile.rs: `detach`, which leaves the game running and the guards in place.
use wine_vr.Prelude.{
  ℕ, zero, suc, ◌≡◌, refl, sym, Bool, true, false, not, ◌||◌, ◌==◌, List, [], All, arith,
  if◌then◌else◌,
}
use mathlib.Core.Path.{subst}
use wine_vr.Host.Error.{Result, ok, err}
use wine_vr.Host.Record.{SessionState, is_supported_version, has_live_foreign_owner}
use wine_vr.Host.Effect.{pure, attempt, ◌>>◌}
use wine_vr.Host.World.{Disk, absent, unreadable, holds, Action, Event, Env, World, M, load}
use wine_vr.Host.Effect.Rules.{
  Post, Triple, Keeps, Triple-pure, Triple-throw, Triple-if, Triple-bind, Triple-attempt,
  Triple-never_fails, Keeps-after,
}
use wine_vr.Host.World.Logs.{Logged, file_op-Logged, make_dir-Logged}
use wine_vr.Session.State.{write_record, mark_loaded, mark_detached}

-- The wait: `held i` says whether the supervisor still holds the slot at the poll `i`, and the number
-- counts the polls before the deadline.
unfoldable pub wait_cleared : (ℕ → Bool) → ℕ → ℕ → Bool
wait_cleared held i zero = not (held i)
wait_cleared held i (suc n) =
    let rest = wait_cleared held (suc i) n in if held i then rest else true

-- `detach_with`, over the real executor: whether the stop token had fired at the start, and after the
-- wait. `true` says that the detach token was fired.
unfoldable pub detach_with : Env → ℕ → Bool → Bool → (ℕ → Bool) → ℕ → M Bool
detach_with e run_id stopped stopped_later held polls =
    if stopped
    then pure false
    else if not (wait_cleared held 0 polls) || stopped_later
    then pure true
    else (do attempt (mark_detached (record e { dry_run = false }) run_id); pure true)

module _ (e : Env) (run_id : ℕ) (stopped stopped_later : Bool) (held : ℕ → Bool) (polls : ℕ) where
  -- The machine is asked for nothing but to replace a record of the run by itself, marked as
  -- detached.
  abbrev pub OnlyMarks : Event → Type 0
  OnlyMarks (Event.did (Action.write_record s) d) =
      (x : SessionState) × (d ≡ holds x)
      × (s ≡ record x { detached = true })
      × (x.run_id ≡ run_id)
      × (has_live_foreign_owner e.os x ≡ false)
      × (is_supported_version x ≡ true)
      × (stopped ≡ false)
      × (stopped_later ≡ false)
      × (wait_cleared held 0 polls ≡ true)
  OnlyMarks (Event.did Action.remove_record d) = ⊥
  OnlyMarks (Event.did (Action.run c) d) = ⊥
  OnlyMarks _ = Unit

  abbrev LogMarks : World → Type 0
  LogMarks = Logged OnlyMarks

  abbrev real : Env
  real = record e { dry_run = false }

  load-Marks : Triple LogMarks (load real) (λ d w. LogMarks w × (w.disk ≡ d)) LogMarks
  unfolding load
  load-Marks = record { at = λ w h. (h, refl) }

  module _ (go : stopped ≡ false) (later : stopped_later ≡ false)
      (cleared : wait_cleared held 0 polls ≡ true) where
    mark_loaded-Marks :
        (d : Disk)
        → Triple
            (λ w. LogMarks w × (w.disk ≡ d))
            (mark_loaded real run_id d)
            (λ _. LogMarks)
            LogMarks
    unfolding mark_loaded write_record
    mark_loaded-Marks (holds x) =
        Triple-if (not (x.run_id == run_id) || x.detached) _ _ (λ _. Triple-pure _ _ _ (λ w p. p.0))
          (λ mine.
            Triple-if (has_live_foreign_owner e.os x) _ _ (λ _. Triple-throw _ _ _ (λ w p. p.0))
              (λ ours.
                Triple-if (not (is_supported_version x)) _ _ (λ _. Triple-throw _ _ _ (λ w p. p.0))
                  (λ known.
                    Triple-bind
                      (Triple-bind (make_dir-Logged OnlyMarks real (holds x) (λ y. tt) tt) (λ _.
                        file_op-Logged OnlyMarks real
                          (Action.write_record (record x { detached = true })) (λ w p. p.0)
                          (λ w p r.
                            (x, p.1, refl, ground arith, ours, ground arith, go, later, cleared))
                          tt))
                      (λ _. Triple-pure _ _ _ (λ w p. p)))))
    mark_loaded-Marks absent = Triple-pure _ _ _ (λ w p. p.0)
    mark_loaded-Marks unreadable = Triple-pure _ _ _ (λ w p. p.0)

    mark_detached-Marks : Keeps LogMarks (mark_detached real run_id)
    unfolding mark_detached
    mark_detached-Marks = Triple-bind load-Marks mark_loaded-Marks

  ended : (r : Result Bool) (w : World) → Post (λ _. LogMarks) LogMarks r w → LogMarks w
  ended (ok b) w h = h
  ended (err x) w h = h

  detach-Marks :
      Triple LogMarks
        (detach_with e run_id stopped stopped_later held polls)
        (λ _. LogMarks)
        (λ _. ⊥)
  unfolding detach_with
  detach-Marks =
      Triple-if stopped _ _ (λ _. Triple-pure _ _ _ (λ w h. h))
        (λ go.
          Triple-if (not (wait_cleared held 0 polls) || stopped_later) _ _
            (λ _. Triple-pure _ _ _ (λ w h. h))
            (λ k.
              Triple-bind (Triple-attempt (mark_detached-Marks go (ground arith) (ground arith)))
                (λ r. Triple-pure _ _ _ (λ w h. ended r w h))))

  -- From an empty log, whatever other processes do to the file and whatever the machine answers, a
  -- detach does nothing to the machine but to replace a record of its own run, of a known version
  -- and with no live foreign owner, by the same record marked as detached; and that only where no
  -- stop was fired before or during the wait and a poll within the deadline found the supervisor
  -- gone.
  pub detach_with-OnlyMarks :
      (w : World)
      → w.log ≡ []
      → All OnlyMarks (detach_with e run_id stopped stopped_later held polls w).1.log
  detach_with-OnlyMarks w k =
      Keeps-after {E = LogMarks} (Triple-never_fails detach-Marks) w
        (subst (λ (l : List Event). All OnlyMarks l) (sym k) tt)
