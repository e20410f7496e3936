-- ===== src/Session/State/Safety.antt =====
-- What the operations on the record may do to it, whatever other processes do meanwhile.
use wine_vr.Prelude.{
  ℕ, suc, ◌≡◌, refl, sym, true, false, Option, none, some, ◌∷◌, arith, ◌==◌, not, ◌&&◌, ◌||◌, All,
}
use mathlib.Core.Path.{subst}
use wine_vr.Host.Process.{ProcInfo, Os, is_same_process}
use wine_vr.Host.Record.{SessionState, is_supported_version, has_live_foreign_owner}
use wine_vr.Host.World.{
  Disk, absent, unreadable, holds, Command, Action, Event, Env, World, load, emit, ChildAnswer,
  exited, broken, exit_of, FileAnswer, done, refused, done_late, answer_of, disk_after, plan_file,
  real_file, plan_child, real_child, file_op, run_child,
}
use wine_vr.Host.Effect.Rules.{
  Post, Triple, Keeps, Triple-pure, Triple-throw, Triple-if, Triple-bind,
}
use wine_vr.Session.State.{
  refuse_save, write_record, save, mark_loaded, mark_detached, clear_loaded, clear_inner, clear_run,
}

-- A record may be replaced by `s` unless it is a live foreign session's of another run, or newer.
abbrev pub MayWrite : Os → SessionState → Disk → Type 0
MayWrite os s (holds x) =
    ((x.run_id == s.run_id) ≡ false → has_live_foreign_owner os x ≡ false)
    × (is_supported_version x ≡ true)
MayWrite os s _ = Unit

-- A record may be removed if it has the run id `own`, no live foreign owner, and a known version.
abbrev pub MayRemove : Os → ℕ → Disk → Type 0
MayRemove os own (holds x) =
    (has_live_foreign_owner os x ≡ false) × (is_supported_version x ≡ true) × (x.run_id ≡ own)
MayRemove os own _ = Unit

-- A process may be signalled if it is the recorded dashboard, still running under its identity.
abbrev pub MaySignal : Os → Option ProcInfo → ℕ → Type 0
MaySignal os none pid = ⊥
MaySignal os (some id) pid =
    (id.pid ≡ pid) × ((id.pid == 0) ≡ false) × (is_same_process os id ≡ true)

-- What an operation for the run `own` may ask of the machine: it writes only records that satisfy
-- `W`, and signals only the process `dash`.
abbrev pub Allowed : Os → ℕ → Option ProcInfo → (SessionState → Type 0) → Event → Type 0
Allowed os own dash W (Event.did (Action.write_record s) d) = MayWrite os s d × W s
Allowed os own dash W (Event.did Action.remove_record d) = MayRemove os own d
Allowed os own dash W (Event.did (Action.run (Command.kill_term pid)) d) = MaySignal os dash pid
Allowed os own dash W _ = Unit

module _ (e : Env) (own : ℕ) (dash : Option ProcInfo) (W : SessionState → Type 0) where
  abbrev pub LogAllowed : World → Type 0
  LogAllowed w = All (Allowed e.os own dash W) w.log

  -- The same with the file known.
  abbrev pub LogAllowedAt : Disk → World → Type 0
  LogAllowedAt d w = LogAllowed w × (w.disk ≡ d)

  pub load-Allowed : Triple LogAllowed (load e) LogAllowedAt LogAllowed
  unfolding load
  load-Allowed = record { at = λ w h. (h, refl) }

  pub emit-Allowed : (ev : Event) → Allowed e.os own dash W ev → Keeps LogAllowed (emit ev)
  unfolding emit
  emit-Allowed ev ok_ev = record { at = λ w h. (ok_ev, h) }

  answered-Allowed :
      (ans : FileAnswer) (w : World)
      → LogAllowed w
      → Post (λ _. LogAllowed) LogAllowed (answer_of ans) w
  answered-Allowed done w h = h
  answered-Allowed (refused x) w h = h
  answered-Allowed (done_late x) w h = h

  file_op-Allowed :
      (a : Action) (d : Disk)
      → Allowed e.os own dash W (Event.did a d)
      → Triple (LogAllowedAt d) (file_op e a) (λ _. LogAllowed) LogAllowed
  unfolding file_op plan_file real_file
  file_op-Allowed a d h =
      Triple-if e.dry_run (plan_file a) (real_file e a) (λ _. record { at = λ w p. (tt, p.0) })
        (λ _. record {
          at = λ w p.
              answered-Allowed (e.file w.tick a) _
                (subst (λ x. Allowed e.os own dash W (Event.did a x)) (sym p.1) h, p.0);
        })

  make_dir-kept :
      (d : Disk) (ans : FileAnswer) (w : World)
      → LogAllowed w
      → w.disk ≡ d
      → Post
          (λ _. LogAllowedAt d)
          LogAllowed
          (answer_of ans)
          (record w { disk = disk_after ans Action.make_dir w.disk })
  make_dir-kept d done w h p = (h, p)
  make_dir-kept d (refused x) w h p = h
  make_dir-kept d (done_late x) w h p = h

  make_dir-Allowed :
      (d : Disk)
      → Triple (LogAllowedAt d) (file_op e Action.make_dir) (λ _. LogAllowedAt d) LogAllowed
  unfolding file_op plan_file real_file
  make_dir-Allowed d =
      Triple-if e.dry_run (plan_file Action.make_dir) (real_file e Action.make_dir)
        (λ _. record { at = λ w p. ((tt, p.0), p.1) })
        (λ _. record {
          at = λ w p.
              make_dir-kept d (e.file w.tick Action.make_dir)
                (record w { tick = suc w.tick; log = Event.did Action.make_dir w.disk ∷ w.log })
                (tt, p.0) p.1;
        })

  write_record-Allowed :
      (s : SessionState) (d : Disk)
      → MayWrite e.os s d
      → W s
      → Triple (LogAllowedAt d) (write_record e s) (λ _. LogAllowed) LogAllowed
  unfolding write_record
  write_record-Allowed s d h k =
      Triple-bind (make_dir-Allowed d) (λ _. file_op-Allowed (Action.write_record s) d (h, k))

  -- The refusals of `save` leave exactly the files that may be replaced.
  refuse_save-Allowed :
      (s : SessionState) (d : Disk)
      → Triple
          (LogAllowedAt d)
          (refuse_save e s d)
          (λ _ w. LogAllowedAt d w × MayWrite e.os s d)
          LogAllowed
  unfolding refuse_save
  refuse_save-Allowed s (holds x) =
      Triple-if (not (x.run_id == s.run_id) && has_live_foreign_owner e.os x) _ _
        (λ _. Triple-throw _ _ _ (λ w p. p.0))
        (λ mine.
          Triple-if (not (is_supported_version x)) _ _ (λ _. Triple-throw _ _ _ (λ w p. p.0))
            (λ known. Triple-pure _ _ _ (λ w p. (p, (λ other. ground arith, ground arith)))))
  refuse_save-Allowed s absent = Triple-pure _ _ _ (λ w p. (p, tt))
  refuse_save-Allowed s unreadable = Triple-pure _ _ _ (λ w p. (p, tt))

  allow-write :
      (s : SessionState) (d : Disk)
      → W s
      → Triple
          (λ w. LogAllowedAt d w × MayWrite e.os s d)
          (write_record e s)
          (λ _. LogAllowed)
          LogAllowed
  allow-write s d k = record { at = λ w p. (write_record-Allowed s d p.1 k).at w p.0 }

  pub save-Allowed : (s : SessionState) → W s → Keeps LogAllowed (save e s)
  unfolding save
  save-Allowed s k =
      Triple-bind load-Allowed (λ d. Triple-bind (refuse_save-Allowed s d) (λ _. allow-write s d k))

  mark_loaded-Allowed :
      (run_id : ℕ) (d : Disk)
      → ((x : SessionState) → x.run_id ≡ run_id → W (record x { detached = true }))
      → Triple (LogAllowedAt d) (mark_loaded e run_id d) (λ _. LogAllowed) LogAllowed
  unfolding mark_loaded
  mark_loaded-Allowed run_id (holds x) k =
      Triple-if (not (x.run_id == run_id) || x.detached) _ _ (λ _. Triple-pure _ _ _ (λ w p. p.0))
        (λ mine.
          Triple-if (has_live_foreign_owner e.os x) _ _ (λ _. Triple-throw _ _ _ (λ w p. p.0))
            (λ ours.
              Triple-if (not (is_supported_version x)) _ _ (λ _. Triple-throw _ _ _ (λ w p. p.0))
                (λ known.
                  Triple-bind
                    (write_record-Allowed (record x { detached = true }) (holds x)
                      ((λ _. ours), ground arith) (k x (ground arith)))
                    (λ _. Triple-pure _ _ _ (λ w p. p)))))
  mark_loaded-Allowed run_id absent k = Triple-pure _ _ _ (λ w p. p.0)
  mark_loaded-Allowed run_id unreadable k = Triple-pure _ _ _ (λ w p. p.0)

  pub mark_detached-Allowed :
      (run_id : ℕ)
      → ((x : SessionState) → x.run_id ≡ run_id → W (record x { detached = true }))
      → Keeps LogAllowed (mark_detached e run_id)
  unfolding mark_detached
  mark_detached-Allowed run_id k = Triple-bind load-Allowed (λ d. mark_loaded-Allowed run_id d k)

  clear_loaded-Allowed :
      (d : Disk)
      → Triple (LogAllowedAt d) (clear_loaded e (some own) d) (λ _. LogAllowed) LogAllowed
  unfolding clear_loaded
  clear_loaded-Allowed (holds x) =
      Triple-if (has_live_foreign_owner e.os x) _ _ (λ _. Triple-throw _ _ _ (λ w p. p.0))
        (λ ours.
          Triple-if (not (is_supported_version x)) _ _ (λ _. Triple-throw _ _ _ (λ w p. p.0))
            (λ known.
              Triple-if (not (own == x.run_id)) _ _ (λ _. Triple-pure _ _ _ (λ w p. p.0))
                (λ same.
                  file_op-Allowed Action.remove_record (holds x)
                    (ours, ground arith, ground arith))))
  clear_loaded-Allowed absent = file_op-Allowed Action.remove_record absent tt
  clear_loaded-Allowed unreadable = file_op-Allowed Action.remove_record unreadable tt

  pub clear_run-Allowed : Keeps LogAllowed (clear_run e own)
  unfolding clear_run clear_inner
  clear_run-Allowed = Triple-bind load-Allowed clear_loaded-Allowed

  child-Allowed :
      (ans : ChildAnswer) (w : World)
      → LogAllowed w
      → Post (λ _. LogAllowed) LogAllowed (exit_of ans) w
  child-Allowed (exited b) w h = h
  child-Allowed (broken x) w h = h

  pub run_child-Allowed :
      (c : Command)
      → ((d : Disk) → Allowed e.os own dash W (Event.did (Action.run c) d))
      → Keeps LogAllowed (run_child e c)
  unfolding run_child plan_child real_child
  run_child-Allowed c h =
      Triple-if e.dry_run (plan_child c) (real_child e c) (λ _. record { at = λ w p. (tt, p) })
        (λ _. record {
          at = λ w p. child-Allowed (e.child w.tick c) _ (h (e.others w.tick w.disk), p);
        })
