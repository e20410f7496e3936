-- ===== src/Session/Reconcile/Ending.antt =====
-- What a pass that returned has left on disk.
use wine_vr.Prelude.{ℕ, ◌≡◌, refl, sym, ◌≢◌, Bool, true, false, not, Option, some, ◌==◌, arith}
use mathlib.Core.Path.{subst}
use wine_vr.Host.Error.{Result, ok}
use wine_vr.Host.Record.{SessionState, is_supported_version, has_live_foreign_owner}
use wine_vr.Host.World.{
  FileAnswer, done, refused, done_late, answer_of, disk_after, Action, Disk, absent, unreadable,
  holds, Env, World, emit, load, plan_file, real_file, file_op,
}
use wine_vr.Host.Effect.Rules.{
  Post, Triple, Triple-pure, Triple-throw, Triple-if, Triple-bind, Triple-any,
}
use wine_vr.Session.State.{refuse_save, write_record, save, clear_loaded, clear_inner, clear_run}
use wine_vr.Session.Reconcile.Classify.{RestoreMode}
use wine_vr.Session.Reconcile.Restore.{StageCtx, AudioProbe, Progress}
use wine_vr.Session.Reconcile.Forwards.{
  restore_with, restore_complete, finish_record, restore_and_finish,
}

abbrev Any : World → Type 0
Any w = Unit

-- The file no longer holds a record of the run `own`.
abbrev pub Gone : ℕ → Disk → Type 0
Gone own absent = Unit
Gone own unreadable = ⊥
Gone own (holds x) = x.run_id ≢ own

-- After an operation that was answered well, the file is as the operation leaves it.
answered-effect :
    (ans : FileAnswer) (a : Action) (d : Disk) (Q : Disk → Type 0) (w : World)
    → w.disk ≡ disk_after ans a d
    → Q (disk_after done a d)
    → Post (λ _ w'. Q w'.disk) Any (answer_of ans) w
answered-effect done a d Q w e h = subst Q (sym e) h
answered-effect (refused x) a d Q w e h = tt
answered-effect (done_late x) a d Q w e h = tt

module _ (e : Env) (real : e.dry_run ≡ false) where
  file_op-effect :
      (a : Action) (Q : Disk → Type 0)
      → ((d : Disk) → Q (disk_after done a d))
      → Triple Any (file_op e a) (λ _ w. Q w.disk) Any
  unfolding file_op real_file
  file_op-effect a Q h =
      Triple-if e.dry_run (plan_file a) (real_file e a) (λ dry. absurd (cc))
        (λ _. record {
          at = λ w p.
              answered-effect (e.file w.tick a) a w.disk Q (real_file e a w).1 refl (h w.disk);
        })

  pub save-written : (s : SessionState) → Triple Any (save e s) (λ _ w. w.disk ≡ holds s) Any
  unfolding save write_record
  save-written s = Triple-bind (Triple-any (load e)) (λ d.
      Triple-bind (Triple-any (refuse_save e s d)) (λ _.
        Triple-bind (Triple-any (file_op e Action.make_dir))
          (λ _. file_op-effect (Action.write_record s) (λ d'. d' ≡ holds s) (λ _. refl))))

  removed :
      (own : ℕ) (d : Disk)
      → Triple (λ w. w.disk ≡ d) (file_op e Action.remove_record) (λ _ w. Gone own w.disk) Any
  removed own d = record {
    at = λ w h. (file_op-effect Action.remove_record (Gone own) (λ _. tt)).at w tt;
  }

  clear_loaded-Gone :
      (own : ℕ) (d : Disk)
      → Triple (λ w. w.disk ≡ d) (clear_loaded e (some own) d) (λ _ w. Gone own w.disk) Any
  unfolding clear_loaded
  clear_loaded-Gone own (holds x) =
      Triple-if (has_live_foreign_owner e.os x) _ _ (λ _. Triple-throw _ _ _ (λ w h. tt))
        (λ _.
          Triple-if (not (is_supported_version x)) _ _ (λ _. Triple-throw _ _ _ (λ w h. tt))
            (λ _.
              Triple-if (not (own == x.run_id)) _ _
                (λ other.
                  Triple-pure _ _ _ (λ w h. subst (Gone own) (sym h) (λ same. ground arith)))
                (λ _. removed own (holds x))))
  clear_loaded-Gone own absent = removed own absent
  clear_loaded-Gone own unreadable = removed own unreadable

  pub clear_run-Gone : (own : ℕ) → Triple Any (clear_run e own) (λ _ w. Gone own w.disk) Any
  unfolding clear_run clear_inner load
  clear_run-Gone own =
      Triple-bind {Q = λ d w. w.disk ≡ d} (record { at = λ w h. refl }) (clear_loaded-Gone own)

-- What the pass reports of the record, against what the file holds.
abbrev pub Left : RestoreMode → Bool → SessionState → Disk → Type 0
Left mode true s d = (restore_complete s mode ≡ false) × (d ≡ holds s)
Left mode false s d = (restore_complete s mode ≡ true) × Gone s.run_id d

module _ (c : StageCtx) (real : c.env.dry_run ≡ false) (mode : RestoreMode) where
  finish_record-Left :
      (s : SessionState)
      → Triple Any (finish_record c s mode) (λ kept w. Left mode kept s w.disk) Any
  unfolding finish_record emit
  finish_record-Left s =
      Triple-if (restore_complete s mode) _ _
        (λ complete.
          Triple-bind (clear_run-Gone c.env real s.run_id)
            (λ _. Triple-pure _ _ _ (λ w h. (complete, h))))
        (λ pending. Triple-bind (save-written c.env real s) (λ _.
          Triple-bind {Q = λ _ w. w.disk ≡ holds s} (record { at = λ w h. h })
            (λ _. Triple-pure _ _ _ (λ w h. (pending, h)))))

  finish-Left :
      (s : SessionState) (probe : Result (Option AudioProbe))
      → Triple Any (restore_and_finish c s mode probe) (λ r w. Left mode r.0 r.1.state w.disk) Any
  unfolding restore_and_finish
  finish-Left s probe =
      Triple-bind (Triple-any (restore_with c s mode probe))
        (λ p. Triple-bind (finish_record-Left p.state) (λ kept. Triple-pure _ _ _ (λ w h. h)))

  -- A pass of the real executor that returned reports the record as kept exactly when a guard that the
  -- mode may release is still held, and then the file holds that record; otherwise every such guard is
  -- released and the file holds no record of the run. Other processes may change the file meanwhile.
  pub restore_and_finish-Left :
      (s : SessionState) (probe : Result (Option AudioProbe)) (w : World) {kept : Bool}
      {p : Progress}
      → (restore_and_finish c s mode probe w).0 ≡ ok (kept, p)
      → Left mode kept p.state (restore_and_finish c s mode probe w).1.disk
  restore_and_finish-Left s probe w {kept} {p} h =
      subst
        (λ r.
          Post (λ q w'. Left mode q.0 q.1.state w'.disk) Any r
            (restore_and_finish c s mode probe w).1)
        h ((finish-Left s probe).at w tt)
