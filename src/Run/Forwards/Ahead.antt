-- ===== src/Run/Forwards/Ahead.antt =====
-- A wired launch's forward is on record before it is made, and no other port is touched.
use wine_vr.Prelude.{
  ◌≡◌, refl, sym, ap, ◌∙◌, ℕ, String, text_eq, Bool, true, false, Option, none, some, List, [], ◌∷◌,
  ◌++◌, ◌==◌, any, All, map, if◌then◌else◌, arith,
}
use mathlib.Core.List.{append_assoc, append-nil}
use mathlib.Core.Path.{subst}
use wine_vr.Host.Error.{Message, SabrageError, Result, ok, err}
use wine_vr.Host.Record.{WiredForward, SessionState}
use wine_vr.Host.World.{holds, Action, Command, Event, Env, World, M, emit, fatal}
use wine_vr.Host.Effect.Rules.{
  Post, Triple, Keeps, Triple-pure, Triple-if, Triple-bind, Triple-attempt, Triple-both,
  Triple-conseq, Triple-never_fails, Keeps-after,
}
use wine_vr.Host.World.Logs.{Logged, load-Logged, file_op-Logged, run_child-Logged}
use wine_vr.Session.State.{save}
use wine_vr.Session.State.Frame.{save-Keeps}
use wine_vr.Run.Guards.WriteAhead.{save-known}
use wine_vr.Fixes.Adb.Only.{remove_adb_forwards_at-Logged}
use wine_vr.Fixes.Adb.{stale_local_specs}
use wine_vr.Run.Forwards.{
  WiredFacts, with_forward, without_removed, confirmed, remove_ports, rollback_forwards,
  die_with_cause, forward_error, forward_refused, forward_made, forward_saved, make_forwards,
  wired_on, wired_with, cleared_forwards, adb_forward_hygiene, Recorded, failed_with,
  probe_device_serial,
}

abbrev pub forward_on : String → ℕ → WiredForward
forward_on serial port = record { serial = serial; port = port }

-- The record with a forward of the device for each port after those that it had.
abbrev pub recorded : String → SessionState → List ℕ → SessionState
recorded serial s ports = record s {
  wired_forwards = s.wired_forwards ++ map (forward_on serial) ports;
}

forwards-append :
    (serial : String) (ports : List ℕ) (port : ℕ)
    → map (forward_on serial) (ports ++ port ∷ [])
      ≡ map (forward_on serial) ports ++ forward_on serial port ∷ []
forwards-append serial [] port = refl
forwards-append serial (p ∷ ps) port =
    ap (λ (l : List WiredForward). forward_on serial p ∷ l) (forwards-append serial ps port)

pub recorded-append :
    (serial : String) (s : SessionState) (ports : List ℕ) (port : ℕ)
    → recorded serial s (ports ++ port ∷ []) ≡ with_forward serial port (recorded serial s ports)
recorded-append serial s ports port =
    ap (λ (l : List WiredForward). record s { wired_forwards = l })
      (ap (λ (l : List WiredForward). s.wired_forwards ++ l) (forwards-append serial ports port)
        ∙ sym (append_assoc s.wired_forwards _ _))

-- A forward is asked of adb only by a wired launch, and with the launch's record, that has the
-- forwards of all the contract's ports before this one and this one, as the last that the launch
-- wrote to the file; a removal names a port of the contract.
abbrev pub Proper : Env → WiredFacts → SessionState → Event → Type 0
Proper e f s (Event.did (Action.run (Command.forward_add adb serial port)) d) =
    (f.wired ≡ true)
    × (before : List ℕ) × (after : List ℕ) × (f.adb.ports ≡ before ++ port ∷ after)
    × (n : ℕ) × (d ≡ e.others n (holds (recorded serial s (before ++ port ∷ []))))
Proper e f s (Event.did (Action.run (Command.forward_remove adb serial port)) d) =
    (f.wired ≡ true) × (any (λ p. p == port) f.adb.ports ≡ true)
Proper e f s (Event.did (Action.run (Command.forward_clear adb serial locl)) d) =
    (f.wired ≡ false) × (any (text_eq locl) (stale_local_specs f.adb.ports) ≡ true)
Proper e f s _ = Unit

-- Every element of a list is found in it.
any-cons :
    (x : ℕ) (xs ys : List ℕ)
    → All (λ p. any (λ q. q == p) xs ≡ true) ys
    → All (λ p. any (λ q. q == p) (x ∷ xs) ≡ true) ys
any-cons x xs [] h = tt
any-cons x xs (y ∷ ys) h = (ground (arith, h.0), any-cons x xs ys h.1)

every-any : (xs : List ℕ) → All (λ p. any (λ q. q == p) xs ≡ true) xs
every-any [] = tt
every-any (x ∷ xs) = (ground arith, any-cons x xs xs (every-any xs))

module _ (e : Env) (f : WiredFacts) (s : SessionState) where
  abbrev LogProper : World → Type 0
  LogProper = Logged (Proper e f s)

  kept : {A : Type 0} (r : Result A) (w : World) → Post (λ _. LogProper) LogProper r w → LogProper w
  kept (ok a) w h = h
  kept (err x) w h = h

  save-Proper : (x : SessionState) → Keeps LogProper (save e x)
  save-Proper x =
      save-Keeps e x (load-Logged (Proper e f s) e)
        (file_op-Logged (Proper e f s) e Action.make_dir (λ w p. p) (λ w p r. tt) tt)
        (file_op-Logged (Proper e f s) e (Action.write_record x) (λ w p. p) (λ w p r. tt) tt)

  row-Proper : (ev : Event) → Proper e f s ev → Triple LogProper (emit ev) (λ _. LogProper) (λ _. ⊥)
  unfolding emit
  row-Proper ev h = record { at = λ w p. (h, p) }

  fatal-Proper :
      (m : Message) (remedy : Option String)
      → Triple LogProper (fatal m remedy) (λ _. LogProper) (λ _. ⊥)
  unfolding fatal
  fatal-Proper m remedy =
      Triple-bind (row-Proper (Event.fatal_row m remedy) tt) (λ _. Triple-pure _ _ _ (λ w l. l))

  module _ (wired : f.wired ≡ true) (adb serial : String) where
    remove_ports-Proper :
        (removed ports : List ℕ)
        → All (λ p. any (λ q. q == p) f.adb.ports ≡ true) ports
        → Triple LogProper (remove_ports e adb serial removed ports) (λ _. LogProper) (λ _. ⊥)
    unfolding remove_ports
    remove_ports-Proper removed [] h = Triple-pure _ _ _ (λ w l. l)
    remove_ports-Proper removed (port ∷ rest) h =
        Triple-bind
          (Triple-attempt (
            run_child-Logged (Proper e f s) e (Command.forward_remove adb serial port) (λ w l. l)
              (λ w l r. (wired, h.0)) tt))
          (λ r. record {
            at = λ w l.
                (remove_ports-Proper (if confirmed r then removed ++ port ∷ [] else removed) rest
                    h.1).at
                  w (kept r w l);
          })

    rollback_forwards-Proper :
        (x : SessionState)
        → Triple LogProper (rollback_forwards e adb serial f.adb.ports x) (λ _. LogProper) (λ _. ⊥)
    unfolding rollback_forwards
    rollback_forwards-Proper x =
        Triple-bind (remove_ports-Proper [] f.adb.ports (every-any f.adb.ports)) (λ removed.
          Triple-bind (Triple-attempt (save-Proper (without_removed serial removed x)))
            (λ r. Triple-pure _ _ _ (λ w l. kept r w l)))

    die_with_cause-Proper :
        (x : SabrageError) (m : Message)
        → Triple LogProper (die_with_cause x m) (λ _. LogProper) (λ _. ⊥)
    unfolding die_with_cause
    die_with_cause-Proper x m =
        Triple-bind (row-Proper (Event.output x) tt) (λ _. fatal-Proper m none)

    forward_error-Proper :
        (port : ℕ) (r : Result Bool)
        → Triple LogProper (forward_error serial port r) (λ _. LogProper) (λ _. ⊥)
    unfolding forward_error
    forward_error-Proper port (ok b) = fatal-Proper _ _
    forward_error-Proper port (err SabrageError.cancelled) = Triple-pure _ _ _ (λ w l. l)
    forward_error-Proper port (err (SabrageError.fatal _ _)) = die_with_cause-Proper _ _
    forward_error-Proper port (err (SabrageError.invalid_input _)) = die_with_cause-Proper _ _
    forward_error-Proper port (err (SabrageError.io _)) = die_with_cause-Proper _ _
    forward_error-Proper port (err (SabrageError.child_failed _ _)) = die_with_cause-Proper _ _
    forward_error-Proper port (err (SabrageError.download _)) = die_with_cause-Proper _ _
    forward_error-Proper port (err (SabrageError.hash_mismatch _ _)) = die_with_cause-Proper _ _
    forward_error-Proper port (err SabrageError.admin_declined) = die_with_cause-Proper _ _
    forward_error-Proper port (err (SabrageError.tcc_denied _)) = die_with_cause-Proper _ _

    -- The loop's turn, from a record that names the forwards made before it.
    abbrev Saved : SessionState → Result (Unit {0}) → World → Type 0
    Saved x r w =
        Post (λ _ v. LogProper v × (e.dry_run ≡ false → v.disk ≡ holds x)) (λ v. LogProper v × Unit)
          r w

    forward_refused-Proper :
        (port : ℕ) (x : SessionState) (r : Result Bool)
        → Triple LogProper
            (forward_refused e adb serial f.adb.ports port x r)
            (λ _. LogProper)
            (λ _. ⊥)
    unfolding forward_refused
    forward_refused-Proper port x r =
        Triple-bind (rollback_forwards-Proper x)
          (λ x'. Triple-bind (forward_error-Proper port r) (λ y. Triple-pure _ _ _ (λ w l. l)))

    forward_saved-Proper :
        (before after : List ℕ) (port : ℕ) (x : SessionState) (next : M Recorded)
        (r : Result (Unit {0}))
        → f.adb.ports ≡ before ++ port ∷ after
        → x ≡ recorded serial s (before ++ port ∷ [])
        → Triple LogProper next (λ _. LogProper) (λ _. ⊥)
        → Triple
            (Saved x r)
            (forward_saved e adb serial f.adb.ports port x next r)
            (λ _. LogProper)
            (λ _. ⊥)
    unfolding forward_saved forward_made
    forward_saved-Proper before after port x next (err y) all eq later =
        Triple-bind (Triple-conseq (λ w l. l.0) (rollback_forwards-Proper x) (λ a w l. l))
          (λ x'. Triple-pure _ _ _ (λ w l. l))
    forward_saved-Proper before after port x next (ok u) all eq later =
        Triple-bind
          (Triple-attempt (
            run_child-Logged (Proper e f s) e (Command.forward_add adb serial port) (λ w l. l.0)
              (λ w l real.
                (wired, before, after, all, w.tick, ap (e.others w.tick) (l.1 real ∙ ap holds eq)))
              tt))
          (λ r.
            Triple-if (confirmed r) _ _ (λ _. record { at = λ w l. later.at w (kept r w l) })
              (λ _. record { at = λ w l. (forward_refused-Proper port x r).at w (kept r w l) }))

    make_forwards-Proper :
        (before rest : List ℕ) (x : SessionState)
        → f.adb.ports ≡ before ++ rest
        → x ≡ recorded serial s before
        → Triple LogProper (make_forwards e adb serial f.adb.ports rest x) (λ _. LogProper) (λ _. ⊥)
    unfolding make_forwards
    make_forwards-Proper before [] x all eq =
        Triple-bind (row-Proper _ tt) (λ _. Triple-pure _ _ _ (λ w l. l))
    make_forwards-Proper before (port ∷ rest) x all eq =
        let next : with_forward serial port x ≡ recorded serial s (before ++ port ∷ []) =
          ap (with_forward serial port) eq ∙ sym (recorded-append serial s before port) in
        Triple-bind
          (Triple-attempt (
            Triple-both (save-Proper (with_forward serial port x))
              (Triple-conseq (λ w l. tt) (save-known e (with_forward serial port x)) (λ a w l. l))))
          (λ r. forward_saved-Proper before rest port (with_forward serial port x) _ r all next (
            make_forwards-Proper (before ++ port ∷ []) rest (with_forward serial port x)
              (all ∙ sym (append_assoc before (port ∷ []) rest)) next))

  none_recorded : (serial : String) → s ≡ recorded serial s []
  none_recorded serial =
      ap (λ (l : List WiredForward). record s { wired_forwards = l })
        (sym (append-nil s.wired_forwards))

  failed_with-Proper :
      (m : Message) → Triple LogProper (failed_with s (fatal m none)) (λ _. LogProper) (λ _. ⊥)
  failed_with-Proper m = Triple-bind (fatal-Proper m none) (λ x. Triple-pure _ _ _ (λ w l. l))

  wired_on-Proper :
      (adb : String) (o : Option String)
      → f.wired ≡ true
      → Triple LogProper (wired_on e f adb o s) (λ _. LogProper) (λ _. ⊥)
  unfolding wired_on
  wired_on-Proper adb (some serial) wired =
      make_forwards-Proper wired adb serial [] f.adb.ports s refl (none_recorded serial)
  wired_on-Proper adb none wired =
      Triple-if f.cancelled _ _ (λ _. Triple-pure _ _ _ (λ w l. l)) (λ _. failed_with-Proper _)

  wired_with-Proper :
      (o : Option String)
      → f.wired ≡ true
      → Triple LogProper (wired_with e f o s) (λ _. LogProper) (λ _. ⊥)
  unfolding wired_with
  wired_with-Proper (some adb) wired = wired_on-Proper adb (probe_device_serial f.stdout) wired
  wired_with-Proper none wired = failed_with-Proper _

  cleared_forwards-Proper :
      f.wired ≡ false → Triple LogProper (cleared_forwards e f.adb s) (λ _. LogProper) (λ _. ⊥)
  unfolding cleared_forwards
  cleared_forwards-Proper plain =
      Triple-bind
        (Triple-attempt (
          remove_adb_forwards_at-Logged (Proper e f s) e f.adb (λ v m. tt) (λ c. tt)
            (λ adb serial locl d stale. (plain, stale))))
        (λ r. Triple-pure _ _ _ (λ w l. kept r w l))

-- From an empty log, whatever other processes do to the file, also between a save and a child, and
-- whatever the machine answers: a forward is asked of adb only by a wired launch, for a port of the
-- contract, and with the launch's record as the last that it wrote to the file, which has after its
-- own forwards one for each of the contract's ports up to this one and is otherwise unchanged; the
-- file then is that record, or what other processes made of it since. And every removal that is asked, one by one and never
-- all at once, names a stream port of the contract.
pub adb_forward_hygiene-Proper :
    (e : Env) (f : WiredFacts) (s : SessionState) (w : World)
    → w.log ≡ []
    → All (Proper e f s) (adb_forward_hygiene e f s w).1.log
unfolding adb_forward_hygiene
adb_forward_hygiene-Proper e f s w empty =
    Keeps-after {E = Logged (Proper e f s)}
      (Triple-never_fails
        (Triple-if f.wired _ _ (wired_with-Proper e f s f.adb.adb) (cleared_forwards-Proper e f s)))
      w (subst (λ (l : List Event). All (Proper e f s) l) (sym empty) tt)
