-- ===== src/Run/Guards/Attempted.antt =====
-- The teardown of a launch asks for the device to be put back, whatever fails before it.
use wine_vr.Prelude.{
  ◌≡◌, refl, String, Bool, true, false, Option, none, some, List, [], ◌∷◌, ◌⊎◌, inl, inr,
}
use wine_vr.Host.Process.{ProcInfo}
use wine_vr.Host.Error.{SabrageError, Result, ok, err}
use wine_vr.Host.Record.{SessionState}
use wine_vr.Host.World.{
  Action, Command, Event, World, emit, load, plan_file, real_file, file_op, plan_child, real_child,
  run_child,
}
use wine_vr.Host.Effect.Rules.{
  Post, Triple, Keeps, Triple-pure, Triple-if, Triple-bind, Triple-attempt, Triple-any, Returns,
  Keeps-pure, Keeps-throw, Keeps-if,
}
use wine_vr.Session.State.{save}
use wine_vr.Session.State.Frame.{save-Keeps}
use wine_vr.Session.Audio.{fallback_output_device}
use wine_vr.Session.Reconcile.Restore.{StageCtx}
use wine_vr.Run.Guards.{AudioGuard}
use wine_vr.Run.Guards.Teardown.{
  switch_answer, switch_output, unrestorable, restore_alternative, restore_output, finish_release,
  release_from, release_held, release_audio, finish_close, release_dashboard, release_optional,
  release_guards,
}

abbrev pub Has : (Event → Type 0) → List Event → Type 0
Has V [] = ⊥
Has V (ev ∷ l) = V ev ⊎ Has V l

-- The machine was asked for the output `device`.
abbrev pub AsksFor : String → String → Event → Type 0
AsksFor bin device (Event.did (Action.run (Command.switch_output b d)) disk) =
    (b ≡ bin) × (d ≡ device)
AsksFor bin device _ = ⊥

module _ (c : StageCtx) (real : c.env.dry_run ≡ false) (bin device : String) where
  abbrev pub Asked : World → Type 0
  Asked w = Has (AsksFor bin device) w.log

  same : {A : Type 0} (r : Result A) (w : World) → Asked w → Post (λ _. Asked) Asked r w
  same (ok a) w h = h
  same (err x) w h = h

  emit-Asked : (ev : Event) → Keeps Asked (emit ev)
  unfolding emit
  emit-Asked ev = record { at = λ w h. inr h }

  file_op-Asked : (a : Action) → Keeps Asked (file_op c.env a)
  unfolding file_op plan_file real_file
  file_op-Asked a =
      Triple-if c.env.dry_run (plan_file a) (real_file c.env a) (λ _. record { at = λ w h. inr h })
        (λ _. record { at = λ w h. same (real_file c.env a w).0 (real_file c.env a w).1 (inr h) })

  run_child-Asked : (d : Command) → Keeps Asked (run_child c.env d)
  unfolding run_child plan_child real_child
  run_child-Asked d =
      Triple-if c.env.dry_run (plan_child d) (real_child c.env d)
        (λ _. record { at = λ w h. inr h })
        (λ _. record { at = λ w h. same (real_child c.env d w).0 (real_child c.env d w).1 (inr h) })

  -- The first request of a restore is for the recorded device.
  run_child-first_asks :
      Triple (λ _. Unit) (run_child c.env (Command.switch_output bin device)) (λ _. Asked) Asked
  unfolding run_child plan_child real_child
  run_child-first_asks =
      Triple-if c.env.dry_run (plan_child _) (real_child c.env _) (λ dry. absurd (cc))
        (λ _. record {
          at = λ w h.
              same (real_child c.env (Command.switch_output bin device) w).0
                (real_child c.env (Command.switch_output bin device) w).1 (inl (refl, refl));
        })

  load-Asked : Keeps Asked (load c.env)
  unfolding load
  load-Asked = record { at = λ w h. h }

  save-Asked : (s : SessionState) → Keeps Asked (save c.env s)
  save-Asked s = save-Keeps c.env s load-Asked (file_op-Asked _) (file_op-Asked _)

  after : {A : Type 0} (r : Result A) (w : World) → Post (λ _. Asked) Asked r w → Asked w
  after (ok a) w h = h
  after (err x) w h = h

  answer-Asked : (r : Result Bool) → Keeps Asked (switch_answer r)
  unfolding switch_answer
  answer-Asked (ok took) = Keeps-pure took
  answer-Asked (err SabrageError.cancelled) = Keeps-throw _
  answer-Asked (err (SabrageError.fatal _ _)) = Keeps-pure false
  answer-Asked (err (SabrageError.invalid_input _)) = Keeps-pure false
  answer-Asked (err (SabrageError.io _)) = Keeps-pure false
  answer-Asked (err (SabrageError.child_failed _ _)) = Keeps-pure false
  answer-Asked (err (SabrageError.download _)) = Keeps-pure false
  answer-Asked (err (SabrageError.hash_mismatch _ _)) = Keeps-pure false
  answer-Asked (err SabrageError.admin_declined) = Keeps-pure false
  answer-Asked (err (SabrageError.tcc_denied _)) = Keeps-pure false

  switched-Asked :
      (r : Result Bool)
      → Triple (λ w. Post (λ _. Asked) Asked r w) (switch_answer r) (λ _. Asked) Asked
  switched-Asked r = record { at = λ w h. (answer-Asked r).at w (after r w h) }

  switch_output-Asked : (b d : String) → Keeps Asked (switch_output c b d)
  unfolding switch_output
  switch_output-Asked b d = Triple-bind (Triple-attempt (run_child-Asked _)) switched-Asked

  switch_output-asks : Triple (λ _. Unit) (switch_output c bin device) (λ _. Asked) Asked
  unfolding switch_output
  switch_output-asks = Triple-bind (Triple-attempt run_child-first_asks) switched-Asked

  unrestorable-Asked : Keeps Asked (unrestorable device)
  unrestorable-Asked = Triple-bind (emit-Asked _) (λ _. Keeps-pure false)

  alternative-Asked : (o : Option String) → Keeps Asked (restore_alternative c bin device o)
  unfolding restore_alternative
  alternative-Asked none = unrestorable-Asked
  alternative-Asked (some alt) = Triple-bind (switch_output-Asked bin alt) (λ took.
      Keeps-if took _ _ (Triple-bind (emit-Asked _) (λ _. Keeps-pure true)) unrestorable-Asked)

  restore_output-asks :
      (outputs : List String)
      → Triple (λ _. Unit) (restore_output c bin device outputs) (λ _. Asked) Asked
  unfolding restore_output
  restore_output-asks outputs = Triple-bind switch_output-asks (λ took.
      Keeps-if took _ _ (Triple-bind (emit-Asked _) (λ _. Keeps-pure true))
        (alternative-Asked (fallback_output_device outputs)))

  abbrev Always : World → Type 0
  Always w = Unit

  abbrev Never : World → Type 0
  Never w = ⊥

  finish-Asked :
      (s : SessionState) (r : Result Bool) → Triple Asked (finish_release c s r) (λ _. Asked) Never
  unfolding finish_release
  finish-Asked s (err x) = Triple-pure _ _ _ (λ w h. h)
  finish-Asked s (ok b) =
      Triple-bind (Triple-attempt (save-Asked _)) (λ r. Triple-pure _ _ _ (λ w h. after r w h))

  release-asks :
      (outputs : List String) (s : SessionState)
      → Triple Always (release_from c (some bin) device outputs s) (λ _. Asked) Never
  unfolding release_from
  release-asks outputs s =
      Triple-bind (Triple-attempt (restore_output-asks outputs))
        (λ r. record { at = λ w h. (finish-Asked s r).at w (after r w h) })

  optional-asks :
      (g : AudioGuard) (outputs : List String) (s : SessionState)
      → g.previous_output ≡ some device
      → g.switch_bin ≡ some bin
      → Triple Always (release_optional c (some g) outputs s) (λ _. Asked) Never
  unfolding release_optional release_audio release_held
  optional-asks g outputs s e k = rw (e, k) (release-asks outputs s)

  closing-returns :
      (s : SessionState) (r : Result (Unit {0}))
      → Triple Always (finish_close c s r) (λ _. Always) Never
  unfolding finish_close
  closing-returns s (err x) = Triple-pure _ _ _ (λ w h. tt)
  closing-returns s (ok u) =
      Triple-bind (Triple-attempt (Triple-any _)) (λ r. Triple-pure _ _ _ (λ w h. tt))

  dashboard-returns :
      (d : Option ProcInfo) (s : SessionState)
      → Triple Always (release_dashboard c d s) (λ _. Always) Never
  unfolding release_dashboard
  dashboard-returns none s = Triple-pure _ _ _ (λ w h. tt)
  dashboard-returns (some id) s =
      Triple-bind (Triple-attempt (Triple-any _))
        (λ r. record { at = λ w h. (closing-returns s r).at w tt })

  -- The teardown of a real launch returns, and whatever became of the dashboard, of the helper and of
  -- every save, it has asked for the device that the audio guard holds.
  pub release_guards-Asked :
      (reap_helper : World → World) (g : AudioGuard) (dashboard : Option ProcInfo)
      (outputs : List String) (s : SessionState) (w : World)
      → g.previous_output ≡ some device
      → g.switch_bin ≡ some bin
      → (r : Result (Unit {0}) × SessionState) × ((release_guards c reap_helper
            (some g)
            dashboard
            outputs
            s
            w).0
          ≡ ok r)
        × Asked (release_guards c reap_helper (some g) dashboard outputs s w).1
  unfolding release_guards
  release_guards-Asked reap_helper g dashboard outputs s w e k =
      Returns (λ _. Asked) (release_guards c reap_helper (some g) dashboard outputs s w).0
        (release_guards c reap_helper (some g) dashboard outputs s w).1
        ((Triple-bind (dashboard-returns dashboard s) (λ d.
            Triple-bind {Q = λ _. Always} (record { at = λ w' h. tt })
              (λ _.
                Triple-bind (optional-asks g outputs d.1 e k)
                  (λ a. Triple-pure _ _ _ (λ w' h. h))))).at
          w tt)
