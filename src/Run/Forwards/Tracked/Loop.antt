-- ===== src/Run/Forwards/Tracked/Loop.antt =====
-- The loop over the stream ports and its rollback forget no forward.
use wine_vr.Prelude.{
  ◌≡◌, sym, ℕ, String, Bool, true, false, Option, none, some, List, [], ◌∷◌, ◌++◌, All, All-append,
  if◌then◌else◌,
}
use mathlib.Core.Path.{subst}
use wine_vr.Host.Error.{Message, SabrageError, Result, ok, err}
use wine_vr.Host.Record.{SessionState}
use wine_vr.Host.World.{Action, Command, Event, Env, World, M, emit, fatal, run_child, exit_of}
use wine_vr.Host.Effect.Rules.{
  Post, Triple, Keeps, Triple-pure, Triple-if, Triple-bind, Triple-attempt, Triple-both,
  Triple-conseq, Triple-given, Returns,
}
use wine_vr.Host.World.Logs.{Logged, load-Logged, file_op-Logged, run_child-Logged}
use wine_vr.Session.State.{save}
use wine_vr.Session.State.Frame.{save-Keeps}
use wine_vr.Fixes.Adb.Only.{remove_adb_forwards_at-Logged}
use wine_vr.Run.Forwards.{
  WiredFacts, with_forward, without_removed, confirmed, remove_ports, rollback_forwards,
  die_with_cause, forward_error, forward_refused, forward_made, forward_saved, make_forwards,
  wired_on, wired_with, cleared_forwards, adb_forward_hygiene, Recorded, failed_with,
  probe_device_serial,
}
use wine_vr.Run.Forwards.Tracked.{
  RemovedBy, Kept, Tracked, AllRemoved, Keeping, with_forward-Keeping, without_removed-Keeping,
  Kept-last, Keeping-log, run_child-answer,
}

module _ (e : Env) (real : e.dry_run ≡ false) (s : SessionState) where
  abbrev Known : SessionState → World → Type 0
  Known x = Logged (Tracked e x)

  -- The record that an operation returns keeps what the log asked for and what `s` kept.
  abbrev Ended : Recorded → World → Type 0
  Ended r w = Known r.1 w × Keeping e s r.1

  kept :
      {A : Type 0} (x : SessionState) (r : Result A) (w : World)
      → Post (λ _. Known x) (Known x) r w
      → Known x w
  kept x (ok a) w h = h
  kept x (err y) w h = h

  row-Known :
      (x : SessionState) (ev : Event)
      → Tracked e x ev
      → Triple (Known x) (emit ev) (λ _. Known x) (λ _. ⊥)
  unfolding emit
  row-Known x ev h = record { at = λ w p. (h, p) }

  save-Known : (x y : SessionState) → Keeps (Known x) (save e y)
  save-Known x y =
      save-Keeps e y (load-Logged (Tracked e x) e)
        (file_op-Logged (Tracked e x) e Action.make_dir (λ w p. p) (λ w p r. tt) tt)
        (file_op-Logged (Tracked e x) e (Action.write_record y) (λ w p. p) (λ w p r. tt) tt)

  fatal-Known :
      (x : SessionState) (m : Message) (remedy : Option String)
      → Triple (Known x) (fatal m remedy) (λ _. Known x) (λ _. ⊥)
  unfolding fatal
  fatal-Known x m remedy =
      Triple-bind (row-Known x (Event.fatal_row m remedy) tt) (λ _. Triple-pure _ _ _ (λ w l. l))

  failed_with-Known :
      (x : SessionState) (m : Message)
      → Keeping e s x
      → Triple (Known x) (failed_with x (fatal m none)) Ended (λ _. ⊥)
  failed_with-Known x m k =
      Triple-bind (fatal-Known x m none) (λ y. Triple-pure _ _ _ (λ w l. (l, k)))

  module _ (adb serial : String) where
    -- What adb answered to the removal of a port.
    abbrev Answer : ℕ → Bool → Type 0
    Answer port b = (m : ℕ) × (exit_of (e.child m (Command.forward_remove adb serial port)) ≡ ok b)

    removed_with :
        (port : ℕ) (removed : List ℕ) (r : Result Bool) (w : World)
        → Post (λ b _. Answer port b) (λ _. Unit {0}) r w
        → AllRemoved e serial removed
        → AllRemoved e serial (if confirmed r then removed ++ port ∷ [] else removed)
    removed_with port removed (ok true) w h all =
        All-append (λ p. RemovedBy e (record { serial = serial; port = p })) removed (port ∷ []) all
          ((h.0, adb, h.1), tt)
    removed_with port removed (ok false) w h all = all
    removed_with port removed (err x) w h all = all

    removal-Known :
        (x : SessionState) (port : ℕ)
        → Triple
            (Known x)
            (run_child e (Command.forward_remove adb serial port))
            (λ b w. Known x w × Answer port b)
            (λ w. Known x w × Unit)
    removal-Known x port =
        Triple-both {Q = λ b. Known x} {R = λ b w. Answer port b}
          (run_child-Logged (Tracked e x) e _ (λ w l. l) (λ w l r. tt) tt)
          (Triple-conseq (λ w l. tt) (run_child-answer e _ real) (λ a w h. h))

    after :
        (x : SessionState) (port : ℕ) (r : Result Bool) (w : World)
        → Post (λ b v. Known x v × Answer port b) (λ v. Known x v × Unit) r w
        → (Known x w) × Post (λ b _. Answer port b) (λ _. Unit {0}) r w
    after x port (ok b) w h = (h.0, h.1)
    after x port (err y) w h = (h.0, tt)

    remove_ports-Known :
        (x : SessionState) (removed ports : List ℕ)
        → AllRemoved e serial removed
        → Triple
            (Known x)
            (remove_ports e adb serial removed ports)
            (λ r w. Known x w × AllRemoved e serial r)
            (λ _. ⊥)
    unfolding remove_ports
    remove_ports-Known x removed [] all = Triple-pure _ _ _ (λ w l. (l, all))
    remove_ports-Known x removed (port ∷ rest) all =
        Triple-bind (Triple-attempt (removal-Known x port)) (λ r. record {
          at = λ w h.
              (remove_ports-Known x (if confirmed r then removed ++ port ∷ [] else removed) rest
                  (removed_with port removed r w (after x port r w h).1 all)).at
                w (after x port r w h).0;
        })

    rollback_forwards-Known :
        (x : SessionState) (ports : List ℕ)
        → Keeping e s x
        → Triple
            (Known x)
            (rollback_forwards e adb serial ports x)
            (λ y w. Known y w × Keeping e s y)
            (λ _. ⊥)
    unfolding rollback_forwards
    rollback_forwards-Known x ports k = Triple-bind (remove_ports-Known x [] ports tt) (λ removed.
        Triple-given (λ all.
          let step = without_removed-Keeping e serial removed x all in
          Triple-bind
            (Triple-attempt (
              Triple-conseq (λ w l. Keeping-log e x (without_removed serial removed x) step w.log l)
                (save-Known (without_removed serial removed x) (without_removed serial removed x))
                (λ a w l. l)))
            (λ r.
              Triple-pure _ _ _
                (λ w l. (kept (without_removed serial removed x) r w l, λ f h. step f (k f h))))))

    die_with_cause-Known :
        (x : SessionState) (y : SabrageError) (m : Message)
        → Triple (Known x) (die_with_cause y m) (λ _. Known x) (λ _. ⊥)
    unfolding die_with_cause
    die_with_cause-Known x y m =
        Triple-bind (row-Known x (Event.output y) tt) (λ _. fatal-Known x m none)

    forward_error-Known :
        (x : SessionState) (port : ℕ) (r : Result Bool)
        → Triple (Known x) (forward_error serial port r) (λ _. Known x) (λ _. ⊥)
    unfolding forward_error
    forward_error-Known x port (ok b) = fatal-Known x _ _
    forward_error-Known x port (err SabrageError.cancelled) = Triple-pure _ _ _ (λ w l. l)
    forward_error-Known x port (err (SabrageError.fatal _ _)) = die_with_cause-Known x _ _
    forward_error-Known x port (err (SabrageError.invalid_input _)) = die_with_cause-Known x _ _
    forward_error-Known x port (err (SabrageError.io _)) = die_with_cause-Known x _ _
    forward_error-Known x port (err (SabrageError.child_failed _ _)) = die_with_cause-Known x _ _
    forward_error-Known x port (err (SabrageError.download _)) = die_with_cause-Known x _ _
    forward_error-Known x port (err (SabrageError.hash_mismatch _ _)) = die_with_cause-Known x _ _
    forward_error-Known x port (err SabrageError.admin_declined) = die_with_cause-Known x _ _
    forward_error-Known x port (err (SabrageError.tcc_denied _)) = die_with_cause-Known x _ _

    forward_saved-Known :
        (ports : List ℕ) (port : ℕ) (x : SessionState) (next : M Recorded) (r : Result (Unit {0}))
        → Keeping e s x
        → Kept e x (record { serial = serial; port = port })
        → Triple (Known x) next Ended (λ _. ⊥)
        → Triple (λ w. Known x w) (forward_saved e adb serial ports port x next r) Ended (λ _. ⊥)
    unfolding forward_saved forward_made forward_refused
    forward_saved-Known ports port x next (err y) k own later =
        Triple-bind (rollback_forwards-Known x ports k) (λ x'. Triple-pure _ _ _ (λ w l. l))
    forward_saved-Known ports port x next (ok u) k own later =
        Triple-bind
          (Triple-attempt (
            run_child-Logged (Tracked e x) e (Command.forward_add adb serial port) (λ w l. l)
              (λ w l r. own) tt))
          (λ r.
            Triple-if (confirmed r) _ _ (λ _. record { at = λ w l. later.at w (kept x r w l) })
              (λ _.
                Triple-bind
                  (Triple-conseq (kept x r) (rollback_forwards-Known x ports k) (λ a w l. l))
                  (λ x'. Triple-given (λ k'.
                    Triple-bind (forward_error-Known x' port r)
                      (λ y. Triple-pure _ _ _ (λ w l. (l, k')))))))

    make_forwards-Known :
        (ports rest : List ℕ) (x : SessionState)
        → Keeping e s x
        → Triple (Known x) (make_forwards e adb serial ports rest x) Ended (λ _. ⊥)
    unfolding make_forwards
    make_forwards-Known ports [] x k =
        Triple-bind (row-Known x _ tt) (λ _. Triple-pure _ _ _ (λ w l. (l, k)))
    make_forwards-Known ports (port ∷ rest) x k =
        let y = with_forward serial port x in
        let step = with_forward-Keeping e serial port x in
        let k' : Keeping e s y = λ f h. step f (k f h) in
        Triple-bind
          (Triple-attempt
            (Triple-conseq (λ w l. Keeping-log e x y step w.log l) (save-Known y y) (λ a w l. l)))
          (λ r. record {
            at = λ w l.
                (forward_saved-Known ports port y _ r k' (Kept-last e serial port x)
                    (make_forwards-Known ports rest y k')).at
                  w (kept y r w l);
          })

  same-Keeping : Keeping e s s
  same-Keeping x h = h

  wired_on-Known :
      (f : WiredFacts) (adb : String) (o : Option String)
      → Triple (Known s) (wired_on e f adb o s) Ended (λ _. ⊥)
  unfolding wired_on
  wired_on-Known f adb (some serial) =
      make_forwards-Known adb serial f.adb.ports f.adb.ports s same-Keeping
  wired_on-Known f adb none =
      Triple-if f.cancelled _ _ (λ _. Triple-pure _ _ _ (λ w l. (l, same-Keeping)))
        (λ _. failed_with-Known s _ same-Keeping)

  wired_with-Known :
      (f : WiredFacts) (o : Option String) → Triple (Known s) (wired_with e f o s) Ended (λ _. ⊥)
  unfolding wired_with
  wired_with-Known f (some adb) = wired_on-Known f adb (probe_device_serial f.stdout)
  wired_with-Known f none = failed_with-Known s _ same-Keeping

  cleared_forwards-Known :
      (f : WiredFacts) → Triple (Known s) (cleared_forwards e f.adb s) Ended (λ _. ⊥)
  unfolding cleared_forwards
  cleared_forwards-Known f =
      Triple-bind
        (Triple-attempt (
          remove_adb_forwards_at-Logged (Tracked e s) e f.adb (λ v m. tt) (λ c. tt)
            (λ adb serial locl d stale. tt)))
        (λ r. Triple-pure _ _ _ (λ w l. (kept s r w l, same-Keeping)))

-- A launch that is no dry run, from an empty log, whatever other processes and the machine do,
-- returns a result beside its record, whether it made its forwards, failed or was cancelled: the
-- record names every forward that the launch asked of adb and every forward that it named before,
-- except those for which an `adb forward --remove` of that very forward succeeded.
pub adb_forward_hygiene-Tracked :
    (e : Env) (f : WiredFacts) (s : SessionState) (w : World)
    → e.dry_run ≡ false
    → w.log ≡ []
    → (r : Recorded) × ((adb_forward_hygiene e f s w).0 ≡ ok r)
      × (All (Tracked e r.1) (adb_forward_hygiene e f s w).1.log × Keeping e s r.1)
unfolding adb_forward_hygiene
adb_forward_hygiene-Tracked e f s w real empty =
    Returns (λ r v. All (Tracked e r.1) v.log × Keeping e s r.1) _ _
      ((Triple-if f.wired _ _ (λ _. wired_with-Known e real s f f.adb.adb)
          (λ _. cleared_forwards-Known e real s f)).at
        w (subst (λ (l : List Event). All (Tracked e s) l) (sym empty) tt))
