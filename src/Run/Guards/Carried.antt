-- ===== src/Run/Guards/Carried.antt =====
-- A device that an earlier session did not put back, through a launch that takes it over.
use wine_vr.Prelude.{◌≡◌, refl, String, Bool, true, false, not, Option, none, some, is_some, arith}
use wine_vr.Host.Error.{Result, ok, err}
use wine_vr.Host.Record.{SessionState}
use wine_vr.Host.World.{Event, World, emit}
use wine_vr.Host.Effect.Rules.{
  Triple, Triple-pure, Triple-if, Triple-bind, Triple-attempt, Triple-any, Returns,
}
use wine_vr.Session.Reconcile.Restore.{StageCtx, Captured}
use wine_vr.Run.Guards.{
  LaunchFacts, AudioEligibility, disabled, skip, probe, audio_eligibility, blackhole_listed,
  AudioGuard, inert_audio, carries_device, armed_record, armed_guard, armed_if, arm_reading,
  arm_current, arm_listed, arm_by, arm, forget_device, switched, apply_by, apply_switch,
  route_armed, route_audio,
}

abbrev pub Always : World → Type 0
Always w = Unit

abbrev pub Never : World → Type 0
Never w = ⊥

-- A guard that holds a device holds the inherited one.
abbrev pub Inherits : Result AudioGuard → Type 0
Inherits (ok g) = is_some g.previous_output ≡ true → g.carried ≡ true
Inherits (err x) = Unit

emit-Always : (ev : Event) → Triple Always (emit ev) (λ _. Always) Never
unfolding emit
emit-Always ev = record { at = λ w h. tt }

module _ (c : StageCtx) (device : String) where
  abbrev pub Keeping : SessionState → Type 0
  Keeping s = s.prev_audio_output ≡ some device

  abbrev pub ArmedKeeping : Result AudioGuard × SessionState → World → Type 0
  ArmedKeeping r w = Inherits r.0 × Keeping r.1

  armed-Inherits :
      (bin reading : String) (s : SessionState) (r : Result (Unit {0}))
      → carries_device s ≡ true
      → Inherits (armed_if (armed_guard c bin reading s) r)
  armed-Inherits bin reading s (ok u) h = λ _. h
  armed-Inherits bin reading s (err x) h = tt

  armed-Keeping :
      (reading : String) (s : SessionState)
      → carries_device s ≡ true
      → Keeping s
      → Keeping (armed_record reading s)
  armed-Keeping reading s h k = ground arith

  module _ (s : SessionState) (carried : carries_device s ≡ true) (k : Keeping s) where
    arm_reading-Keeping :
        (bin reading : String) → Triple Always (arm_reading c bin reading s) ArmedKeeping Never
    unfolding arm_reading
    arm_reading-Keeping bin reading = Triple-bind (Triple-attempt (Triple-any _)) (λ r.
        Triple-pure _ _ _
          (λ w h. (armed-Inherits bin reading s r carried, armed-Keeping reading s carried k)))

    arm_current-Keeping :
        (bin : String) (current : Result Captured)
        → Triple Always (arm_current c bin current s) ArmedKeeping Never
    unfolding arm_current
    arm_current-Keeping bin (err x) = Triple-pure _ _ _ (λ w h. (tt, k))
    arm_current-Keeping bin (ok current) = arm_reading-Keeping bin current.untailed

    arm_listed-Keeping :
        (bin : String) (listing current : Result Captured)
        → Triple Always (arm_listed c bin listing current s) ArmedKeeping Never
    unfolding arm_listed inert_audio
    arm_listed-Keeping bin (err x) current = Triple-pure _ _ _ (λ w h. (tt, k))
    arm_listed-Keeping bin (ok listing) current =
        Triple-if (not (blackhole_listed listing.lines)) _ _
          (λ _.
            Triple-bind (emit-Always _) (λ _. Triple-pure _ _ _ (λ w h. ((λ e. ground arith), k))))
          (λ _. arm_current-Keeping bin current)

    arm_by-Keeping :
        (a : AudioEligibility) (listing current : Result Captured)
        → Triple Always (arm_by c a listing current s) ArmedKeeping Never
    unfolding arm_by inert_audio
    arm_by-Keeping disabled listing current =
        Triple-bind (emit-Always _) (λ _. Triple-pure _ _ _ (λ w h. ((λ e. ground arith), k)))
    arm_by-Keeping skip listing current = Triple-pure _ _ _ (λ w h. ((λ e. ground arith), k))
    arm_by-Keeping (probe bin) listing current = arm_listed-Keeping bin listing current

  abbrev pub SwitchedKeeping : Result (Unit {0}) × AudioGuard × SessionState → World → Type 0
  SwitchedKeeping r w = Keeping r.2

  module _ (s : SessionState) (k : Keeping s) where
    switched-Keeping :
        (previous : String) (g : AudioGuard) (r : Result Bool)
        → g.carried ≡ true
        → Triple Always (switched c previous g s r) SwitchedKeeping Never
    unfolding switched forget_device
    switched-Keeping previous g (err x) e = Triple-pure _ _ _ (λ w h. k)
    switched-Keeping previous g (ok true) e =
        Triple-bind (emit-Always _)
          (λ _. Triple-bind (Triple-attempt (Triple-any _)) (λ _. Triple-pure _ _ _ (λ w h. k)))
    switched-Keeping previous g (ok false) e = Triple-bind (emit-Always _) (λ _.
        Triple-if g.carried _ _ (λ _. Triple-pure _ _ _ (λ w h. k)) (λ n. absurd (ground arith)))

    apply_by-Keeping :
        (g : AudioGuard) (o b : Option String)
        → (is_some o ≡ true → g.carried ≡ true)
        → Triple Always (apply_by c o b g s) SwitchedKeeping Never
    unfolding apply_by
    apply_by-Keeping g (some previous) (some bin) e =
        Triple-bind (Triple-attempt (Triple-any _))
          (λ r. record { at = λ w h. (switched-Keeping previous g r (e refl)).at w tt })
    apply_by-Keeping g (some previous) none e = Triple-pure _ _ _ (λ w h. k)
    apply_by-Keeping g none b e = Triple-pure _ _ _ (λ w h. k)

  route_armed-Keeping :
      (r : Result AudioGuard × SessionState)
      → Triple (ArmedKeeping r) (route_armed c r) (λ o w. Keeping o.2) Never
  unfolding route_armed apply_switch
  route_armed-Keeping (err x, s) = Triple-pure _ _ _ (λ w h. h.1)
  route_armed-Keeping (ok g, s) = record {
    at = λ w h.
        (Triple-bind {R = λ o w. Keeping o.2}
            (apply_by-Keeping s h.1 g g.previous_output g.switch_bin h.0)
            (λ o. Triple-pure _ _ _ (λ w' k. k))).at
          w tt;
  }

  -- A launch that inherits the device of a restore that never finished keeps it in its record, however
  -- the probes, the saves and the switch come out: routing the audio returns, and the record names it.
  pub route_audio-keeps_device :
      (f : LaunchFacts) (listing current : Result Captured) (s : SessionState) (w : World)
      → s.prev_audio_output ≡ some device
      → s.guards.audio_restored ≡ false
      → (r : Result (Unit {0}) × Option AudioGuard × SessionState) × ((route_audio c f listing
            current s w).0
          ≡ ok r)
        × (r.2.prev_audio_output ≡ some device)
  unfolding route_audio arm
  route_audio-keeps_device f listing current s w k u =
      Returns (λ o w'. Keeping o.2) (route_audio c f listing current s w).0
        (route_audio c f listing current s w).1
        ((Triple-bind {R = λ o w'. Keeping o.2}
            (arm_by-Keeping s (ground arith) k
              (audio_eligibility f.no_audio f.protocol f.switch_bin) listing current)
            route_armed-Keeping).at
          w tt)
