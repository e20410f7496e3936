-- ===== src/Host/World/Logs.antt =====
-- What every event of a log satisfies, for the operations of the executor.
use wine_vr.Prelude.{◌≡◌, false, All, refl, ◌∙◌}
use wine_vr.Host.Error.{Result, ok, err}
use wine_vr.Host.World.{
  Disk, disk_after, Action, Command, Event, FileAnswer, done, refused, done_late, answer_of,
  ChildAnswer, exited, broken, exit_of, Env, World, emit, load, plan_file, real_file, file_op,
  plan_child, real_child, run_child, found,
}
use wine_vr.Host.Effect.Rules.{Post, Triple, Keeps, Triple-if}

same_disk : (a : FileAnswer) (d : Disk) → disk_after a Action.make_dir d ≡ d
same_disk done d = refl
same_disk (refused x) d = refl
same_disk (done_late x) d = refl

module _ (V : Event → Type 0) where
  abbrev pub Logged : World → Type 0
  Logged w = All V w.log

  answered-Logged :
      (a : FileAnswer) (w : World) → Logged w → Post (λ _. Logged) Logged (answer_of a) w
  answered-Logged done w h = h
  answered-Logged (refused x) w h = h
  answered-Logged (done_late x) w h = h

  exited-Logged : (a : ChildAnswer) (w : World) → Logged w → Post (λ _. Logged) Logged (exit_of a) w
  exited-Logged (exited b) w h = h
  exited-Logged (broken x) w h = h

  found-Logged :
      {A : Type 0} (a : Result A) (w : World) → Logged w → Post (λ _. Logged) Logged (found a) w
  found-Logged (ok a) w h = h
  found-Logged (err x) w h = h

  pub emit-Logged : (ev : Event) → V ev → Keeps Logged (emit ev)
  unfolding emit
  emit-Logged ev h = record { at = λ w p. (h, p) }

  made :
      (a : FileAnswer) (d : Disk) (w : World)
      → Logged w
      → w.disk ≡ d
      → Post (λ _ v. Logged v × (v.disk ≡ d)) Logged (answer_of a) w
  made done d w h p = (h, p)
  made (refused x) d w h p = h
  made (done_late x) d w h p = h

  module _ (e : Env) where
    pub load-Logged : Keeps Logged (load e)
    unfolding load
    load-Logged = record { at = λ w p. p }

    -- `P` is what is known of the world in which the action is done.
    pub file_op-Logged :
        {P : World → Type 0} (a : Action)
        → ((w : World) → P w → Logged w)
        → ((w : World) → P w → e.dry_run ≡ false → V (Event.did a w.disk))
        → V (Event.planned a)
        → Triple P (file_op e a) (λ _. Logged) Logged
    unfolding file_op plan_file real_file
    file_op-Logged a l h k =
        Triple-if e.dry_run (plan_file a) (real_file e a) (λ _. record { at = λ w p. (k, l w p) })
          (λ real. record { at = λ w p. answered-Logged (e.file w.tick a) _ (h w p real, l w p) })

    pub run_child-Logged :
        {P : World → Type 0} (c : Command)
        → ((w : World) → P w → Logged w)
        → ((w : World)
            → P w
            → e.dry_run ≡ false
            → V (Event.did (Action.run c) (e.others w.tick w.disk)))
        → V (Event.planned (Action.run c))
        → Triple P (run_child e c) (λ _. Logged) Logged
    unfolding run_child plan_child real_child
    run_child-Logged c l h k =
        Triple-if e.dry_run (plan_child c) (real_child e c) (λ _. record { at = λ w p. (k, l w p) })
          (λ real. record { at = λ w p. exited-Logged (e.child w.tick c) _ (h w p real, l w p) })

    -- The directory is made, and the file is as it was.
    pub make_dir-Logged :
        (d : Disk)
        → ((x : Disk) → V (Event.did Action.make_dir x))
        → V (Event.planned Action.make_dir)
        → Triple
            (λ w. Logged w × (w.disk ≡ d))
            (file_op e Action.make_dir)
            (λ _ w. Logged w × (w.disk ≡ d))
            Logged
    unfolding file_op plan_file real_file
    make_dir-Logged d h k =
        Triple-if e.dry_run (plan_file Action.make_dir) (real_file e Action.make_dir)
          (λ _. record { at = λ w p. ((k, p.0), p.1) })
          (λ _. record {
            at = λ w p.
                made (e.file w.tick Action.make_dir) d (real_file e Action.make_dir w).1
                  (h w.disk, p.0) (same_disk (e.file w.tick Action.make_dir) w.disk ∙ p.1);
          })
