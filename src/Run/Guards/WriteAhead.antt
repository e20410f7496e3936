-- ===== src/Run/Guards/WriteAhead.antt =====
-- The record is on disk before the output is switched.
use wine_vr.Prelude.{
  ◌≡◌, refl, sym, ap, ℕ, String, Bool, true, false, not, Option, none, some, List, [], is_some, All,
  Bool-cases, inl, inr, arith,
}
use mathlib.Core.Path.{subst}
use wine_vr.Host.Error.{Result, ok, err}
use wine_vr.Host.Record.{SessionState}
use wine_vr.Host.World.{Disk, holds, Action, Command, Event, Env, World, emit}
use wine_vr.Host.Effect.Rules.{
  Post, Triple, Keeps, Triple-pure, Triple-if, Triple-bind, Triple-attempt, Triple-any, Triple-both,
  Triple-conseq, Triple-never_fails, Keeps-after,
}
use wine_vr.Host.World.Logs.{Logged, load-Logged, file_op-Logged, run_child-Logged}
use wine_vr.Session.State.{save}
use wine_vr.Session.State.Frame.{save-Keeps}
use wine_vr.Session.Reconcile.Restore.{StageCtx, Captured, blackhole}
use wine_vr.Session.Reconcile.Ending.{save-written}
use wine_vr.Run.Guards.{
  LaunchFacts, AudioEligibility, disabled, skip, probe, audio_eligibility, blackhole_listed,
  AudioGuard, inert_audio, armed_record, armed_guard, armed_if, arm_reading, arm_current,
  arm_listed, arm_by, arm, forget_device, switched, apply_by, apply_switch, route_armed,
  route_audio,
}

pub save-known :
    (e : Env) (s : SessionState)
    → Triple (λ _. Unit) (save e s) (λ _ w. e.dry_run ≡ false → w.disk ≡ holds s) (λ _. Unit)
save-known e s = elim (Bool-cases e.dry_run) [
  | inl dry ↦ Triple-conseq (λ w h. h) (Triple-any (save e s)) (λ a w h real. absurd (cc))
  | inr real ↦ Triple-conseq (λ w h. h) (save-written e real s) (λ a w h real'. h)
]

-- The record of a launch with the device to put back: nothing else of it changed, and the device is
-- the one that an unfinished restore left in it, or else the one that is read.
pub record ToPutBack (s : SessionState) (reading : String) (r : SessionState) : Type 0 where
  pub own : r ≡ record s { prev_audio_output = r.prev_audio_output }
  pub unfinished :
      (p : String)
      → s.prev_audio_output ≡ some p
      → s.guards.audio_restored ≡ false
      → r.prev_audio_output ≡ some p
  pub nothing_left : s.prev_audio_output ≡ none → r.prev_audio_output ≡ some reading
  pub restored : s.guards.audio_restored ≡ true → r.prev_audio_output ≡ some reading

armed_record-ToPutBack :
    (reading : String) (s : SessionState) → ToPutBack s reading (armed_record reading s)
armed_record-ToPutBack reading s = record {
  own = refl;
  unfinished = λ p there left. ground arith;
  nothing_left = λ gone. ground arith;
  restored = λ put_back. ground arith;
}

-- The output is switched with the record of the launch, with the device to put back, as the last that
-- the launch wrote to the file: the file is what other processes made of it since.
abbrev pub Ahead : Env → Result Captured → SessionState → Event → Type 0
Ahead e current s (Event.did (Action.run (Command.switch_output bin device)) d) =
    (reading : Captured) × (current ≡ ok reading)
    × (r : SessionState) × ToPutBack s reading.untailed r
    × (n : ℕ) × (d ≡ e.others n (holds r))
Ahead e current s _ = Unit

module _ (c : StageCtx) (current : Result Captured) (s : SessionState) where
  abbrev pub LogAhead : World → Type 0
  LogAhead = Logged (Ahead c.env current s)

  save-Ahead : (x : SessionState) → Keeps LogAhead (save c.env x)
  save-Ahead x =
      save-Keeps c.env x (load-Logged (Ahead c.env current s) c.env)
        (file_op-Logged (Ahead c.env current s) c.env Action.make_dir (λ w p. p) (λ w p r. tt) tt)
        (file_op-Logged (Ahead c.env current s) c.env (Action.write_record x) (λ w p. p)
          (λ w p r. tt) tt)

  -- A guard that holds a device has its record on disk.
  abbrev pub Ready : Result AudioGuard → Disk → Type 0
  Ready (ok g) d =
      is_some g.previous_output ≡ true
      → c.env.dry_run ≡ false
      → (reading : Captured) × (current ≡ ok reading)
        × (d ≡ holds (armed_record reading.untailed s))
  Ready (err x) d = Unit

  abbrev pub ArmedAhead : Result AudioGuard × SessionState → World → Type 0
  ArmedAhead r w = LogAhead w × Ready r.0 w.disk

  abbrev Saved : SessionState → Result (Unit {0}) → World → Type 0
  Saved x r w =
      Post (λ _ v. LogAhead v × (c.env.dry_run ≡ false → v.disk ≡ holds x)) (λ v. LogAhead v × Unit)
        r w

  armed-Ahead :
      (bin : String) (reading : Captured) (r : Result (Unit {0})) (w : World)
      → current ≡ ok reading
      → Saved (armed_record reading.untailed s) r w
      → ArmedAhead
          (armed_if (armed_guard c bin reading.untailed s) r, armed_record reading.untailed s)
          w
  armed-Ahead bin reading (ok u) w e h = (h.0, λ armed real. (reading, e, h.1 real))
  armed-Ahead bin reading (err x) w e h = (h.0, tt)

  arm_reading-Ahead :
      (bin : String) (reading : Captured)
      → current ≡ ok reading
      → Triple LogAhead (arm_reading c bin reading.untailed s) ArmedAhead (λ _. ⊥)
  unfolding arm_reading
  arm_reading-Ahead bin reading e =
      Triple-bind
        (Triple-attempt (
          Triple-both (save-Ahead (armed_record reading.untailed s)) (
            Triple-conseq (λ w p. tt) (save-known c.env (armed_record reading.untailed s))
              (λ a w h. h))))
        (λ r. Triple-pure _ _ _ (λ w h. armed-Ahead bin reading r w e h))

  arm_current-Ahead :
      (bin : String) (answer : Result Captured)
      → current ≡ answer
      → Triple LogAhead (arm_current c bin answer s) ArmedAhead (λ _. ⊥)
  unfolding arm_current
  arm_current-Ahead bin (err x) e = Triple-pure _ _ _ (λ w h. (h, tt))
  arm_current-Ahead bin (ok reading) e = arm_reading-Ahead bin reading e

  row-Ahead :
      (ev : Event) → Ahead c.env current s ev → Triple LogAhead (emit ev) (λ _. LogAhead) (λ _. ⊥)
  unfolding emit
  row-Ahead ev h = record { at = λ w p. (h, p) }

  arm_listed-Ahead :
      (bin : String) (listing : Result Captured)
      → Triple LogAhead (arm_listed c bin listing current s) ArmedAhead (λ _. ⊥)
  unfolding arm_listed inert_audio
  arm_listed-Ahead bin (err x) = Triple-pure _ _ _ (λ w h. (h, tt))
  arm_listed-Ahead bin (ok listing) =
      Triple-if (not (blackhole_listed listing.lines)) _ _
        (λ _.
          Triple-bind (row-Ahead _ tt)
            (λ _. Triple-pure _ _ _ (λ w h. (h, λ armed. absurd (ground arith)))))
        (λ _. arm_current-Ahead bin current refl)

  arm_by-Ahead :
      (a : AudioEligibility) (listing : Result Captured)
      → Triple LogAhead (arm_by c a listing current s) ArmedAhead (λ _. ⊥)
  unfolding arm_by inert_audio
  arm_by-Ahead disabled listing =
      Triple-bind (row-Ahead _ tt)
        (λ _. Triple-pure _ _ _ (λ w h. (h, λ armed. absurd (ground arith))))
  arm_by-Ahead skip listing = Triple-pure _ _ _ (λ w h. (h, λ armed. absurd (ground arith)))
  arm_by-Ahead (probe bin) listing = arm_listed-Ahead bin listing

  -- What an attempt that keeps the log ends with.
  kept : {A : Type 0} (r : Result A) (w : World) → Post (λ _. LogAhead) LogAhead r w → LogAhead w
  kept (ok a) w h = h
  kept (err x) w h = h

  switched-Ahead :
      (previous : String) (g : AudioGuard) (x : SessionState) (r : Result Bool)
      → Triple LogAhead (switched c previous g x r) (λ _. LogAhead) (λ _. ⊥)
  unfolding switched forget_device
  switched-Ahead previous g x (err y) = Triple-pure _ _ _ (λ w h. h)
  switched-Ahead previous g x (ok true) = Triple-bind (row-Ahead _ tt) (λ _.
      Triple-bind
        (Triple-attempt (
          run_child-Logged (Ahead c.env current s) c.env Command.set_volume (λ w p. p) (λ w p r. tt)
            tt))
        (λ r. Triple-pure _ _ _ (λ w h. kept r w h)))
  switched-Ahead previous g x (ok false) = Triple-bind (row-Ahead _ tt) (λ _.
      Triple-if g.carried _ _ (λ _. Triple-pure _ _ _ (λ w h. h))
        (λ _.
          Triple-bind (Triple-attempt (save-Ahead (record x { prev_audio_output = none })))
            (λ r. Triple-pure _ _ _ (λ w h. kept r w h))))

  switch-Ahead :
      (bin device : String) (n : ℕ) (d : Disk)
      → (reading : Captured) × (current ≡ ok reading)
        × (d ≡ holds (armed_record reading.untailed s))
      → Ahead c.env current s
          (Event.did (Action.run (Command.switch_output bin device)) (c.env.others n d))
  switch-Ahead bin device n d h = (
    h.0,
    h.1,
    armed_record h.0.untailed s,
    armed_record-ToPutBack h.0.untailed s,
    n,
    ap (c.env.others n) h.2,
  )

  apply_by-Ahead :
      (g : AudioGuard) (x : SessionState) (o b : Option String)
      → g.previous_output ≡ o
      → Triple (λ w. LogAhead w × Ready (ok g) w.disk) (apply_by c o b g x) (λ _. LogAhead) (λ _. ⊥)
  unfolding apply_by
  apply_by-Ahead g x (some previous) (some bin) e =
      Triple-bind
        (Triple-attempt (
          run_child-Logged (Ahead c.env current s) c.env _ (λ w p. p.0)
            (λ w p real. switch-Ahead bin blackhole w.tick w.disk (p.1 (ground arith) real)) tt))
        (λ r. record { at = λ w h. (switched-Ahead previous g x r).at w (kept r w h) })
  apply_by-Ahead g x (some previous) none e = Triple-pure _ _ _ (λ w h. h.0)
  apply_by-Ahead g x none b e = Triple-pure _ _ _ (λ w h. h.0)

  route_armed-Ahead :
      (r : Result AudioGuard × SessionState)
      → Triple (ArmedAhead r) (route_armed c r) (λ _. LogAhead) (λ _. ⊥)
  unfolding route_armed apply_switch
  route_armed-Ahead (err x, y) = Triple-pure _ _ _ (λ w h. h.0)
  route_armed-Ahead (ok g, y) =
      Triple-bind (apply_by-Ahead g y g.previous_output g.switch_bin refl)
        (λ o. Triple-pure _ _ _ (λ w h. h))

  -- From an empty log, whatever other processes do to the file, also between a save and a child, and
  -- whatever the machine answers: when a launch asks for another output, the last that it wrote to
  -- the file is its own record, unchanged but for the device to put back, which is the one that an
  -- unfinished restore left in it, or else the current one; the file then is that record, or what
  -- other processes made of it since.
  pub route_audio-Ahead :
      (f : LaunchFacts) (listing : Result Captured) (w : World)
      → w.log ≡ []
      → All (Ahead c.env current s) (route_audio c f listing current s w).1.log
  unfolding route_audio arm
  route_audio-Ahead f listing w e =
      Keeps-after {E = LogAhead}
        (Triple-never_fails (
          Triple-bind (arm_by-Ahead (audio_eligibility f.no_audio f.protocol f.switch_bin) listing)
            route_armed-Ahead))
        w (subst (λ (l : List Event). All (Ahead c.env current s) l) (sym e) tt)
