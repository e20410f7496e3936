-- ===== src/Session/Reconcile/Safety.antt =====
-- What a recovery pass may ask of the machine, whatever other processes do to the record meanwhile.
use wine_vr.Prelude.{
  ◌≡◌, refl, String, Bool, true, false, ◌||◌, Option, none, some, List, [], ◌∷◌, ◌++◌, is_empty,
  if◌then◌else◌, All, retain, Bool-cases, inl, inr, All-append, arith,
}
use mathlib.Core.List.{Memᴰ}
use wine_vr.Host.Process.{ProcInfo}
use wine_vr.Host.Error.{Result}
use wine_vr.Host.Record.{WiredForward, SessionState}
use wine_vr.Host.World.{Command}
use wine_vr.Host.Effect.Rules.{Triple, Triple-pure, Triple-if, Triple-bind}
use wine_vr.Session.State.Safety.{run_child-Allowed, clear_run-Allowed}
use wine_vr.Session.Reconcile.Classify.{RestoreMode}
use wine_vr.Session.Reconcile.Restore.{StageCtx, AudioProbe, Progress}
use wine_vr.Session.Reconcile.Forwards.{
  without_forward, remove_forward, remove_forwards, forwards_left, restore_forwards_by,
  restore_forwards, restore_with, restore_complete, finish_record, restore_and_finish,
}
use wine_vr.Session.Reconcile.Guarded.{
  Continues, signal_scope, Safe, Passes, emit_line, save_safe, pure-Passes, then-Passes,
  save_progress-Passes, report-Passes, restore_audio-Passes, dashboard_step-Passes,
}

All-retain {ℓ κ} :
    {A : Type ℓ} (P : A → Type κ) (test : A → Bool) (xs : List A)
    → All P xs
    → All P (retain test xs)
All-retain P test [] h = h
All-retain P test (x ∷ xs) h = elim (Bool-cases (test x)) [
  | inl e ↦ rw e (h.0, All-retain P test xs h.1)
  | inr e ↦ rw e (All-retain P test xs h.1)
]

Continues-without :
    {s t : SessionState} (fwd : WiredForward) → Continues s t → Continues s (without_forward fwd t)
Continues-without fwd h = record {
  same_run = h.same_run;
  same_dashboard = h.same_dashboard;
  same_audio = h.same_audio;
  audio_stays = h.audio_stays;
  dashboard_stays = h.dashboard_stays;
  forwards_stay = h.forwards_stay;
  forwards_known = All-retain _ _ _ h.forwards_known;
}

All-Memᴰ {ℓ} : {A : Type ℓ} (xs : List A) → All (λ x. Memᴰ x xs) xs
All-Memᴰ [] = tt
All-Memᴰ {A} (x ∷ xs) = (Memᴰ.head refl, All-tail xs (All-Memᴰ xs))
  where
    All-tail : (ys : List A) → All (λ y. Memᴰ y xs) ys → All (λ y. Memᴰ y (x ∷ xs)) ys
    All-tail [] h = tt
    All-tail (y ∷ ys) h = (Memᴰ.tail h.0, All-tail ys h.1)

Continues-refl : (s : SessionState) → Continues s s
Continues-refl s = record {
  same_run = refl;
  same_dashboard = refl;
  same_audio = refl;
  audio_stays = λ e. e;
  dashboard_stays = λ e. e;
  forwards_stay = λ e. e;
  forwards_known = All-Memᴰ s.wired_forwards;
}

module _ (c : StageCtx) (s0 : SessionState) (dash : Option ProcInfo) where
  -- A forward that the record of `s0` named.
  abbrev Known : WiredForward → Type 0
  Known f = Memᴰ f s0.wired_forwards

  remove_forward-Passes :
      (adb : String) (fwd : WiredForward) (p : Progress)
      → Continues s0 p.state
      → Triple
          (Safe c s0 dash)
          (remove_forward c adb fwd p)
          (λ r w. Safe c s0 dash w × Continues s0 r.1.state)
          (Safe c s0 dash)
  unfolding remove_forward
  remove_forward-Passes adb fwd p t =
      Triple-bind
        (run_child-Allowed c.env s0.run_id dash (Continues s0)
          (Command.forward_remove adb fwd.serial fwd.port) (λ d. tt))
        (λ removed.
          Triple-if removed _ _
            (λ _.
              then-Passes c s0 dash
                (save_progress-Passes c s0 dash (without_forward fwd p.state) p
                  (Continues-without fwd t))
                (λ p1 t1.
                  then-Passes c s0 dash (report-Passes c s0 dash _ _ p1 t1)
                    (λ p2 t2. Triple-pure _ _ _ (λ w h. (h, t2)))))
            (λ _. Triple-pure _ _ _ (λ w h. (h, t))))

  still-Known :
      (removed : Bool) (fwd : WiredForward) (still : List WiredForward)
      → Known fwd
      → All Known still
      → All Known (if removed then still else still ++ fwd ∷ [])
  still-Known true fwd still k h = h
  still-Known false fwd still k h = All-append Known still (fwd ∷ []) h (k, tt)

  remove_forwards-Passes :
      (adb : String) (fwds still : List WiredForward) (p : Progress)
      → All Known fwds
      → All Known still
      → Continues s0 p.state
      → Triple
          (Safe c s0 dash)
          (remove_forwards c adb fwds still p)
          (λ r w. Safe c s0 dash w × Continues s0 r.1.state × All Known r.0)
          (Safe c s0 dash)
  unfolding remove_forwards
  remove_forwards-Passes adb [] still p k h t = Triple-pure _ _ _ (λ w s. (s, t, h))
  remove_forwards-Passes adb (fwd ∷ rest) still p k h t =
      Triple-bind (remove_forward-Passes adb fwd p t) (λ r. record {
        at = λ w s.
            (remove_forwards-Passes adb rest (if r.0 then still else still ++ fwd ∷ []) r.1 k.1
                (still-Known r.0 fwd still k.0 h) s.1).at
              w s.0;
      })

  Continues-left :
      (still : List WiredForward) (t : SessionState)
      → (s0.guards.forwards_cleared ≡ true → ⊥)
      → All Known still
      → Continues s0 t
      → Continues s0 (forwards_left still t)
  Continues-left still t n k h = record {
    same_run = h.same_run;
    same_dashboard = h.same_dashboard;
    same_audio = h.same_audio;
    audio_stays = h.audio_stays;
    dashboard_stays = h.dashboard_stays;
    forwards_stay = λ e. absurd (n e);
    forwards_known = k;
  }

  restore_forwards_by-Passes :
      (adb : Option String) (p : Progress)
      → (s0.guards.forwards_cleared ≡ true → ⊥)
      → Continues s0 p.state
      → Passes c s0 dash (restore_forwards_by c adb p)
  unfolding restore_forwards_by
  restore_forwards_by-Passes none p n t = pure-Passes c s0 dash p t
  restore_forwards_by-Passes (some adb) p n t =
      Triple-bind (remove_forwards-Passes adb p.state.wired_forwards [] p t.forwards_known tt t)
        (λ r. record {
          at = λ w h.
              (save_progress-Passes c s0 dash (forwards_left r.0 r.1.state) r.1
                  (Continues-left r.0 r.1.state n h.2 h.1)).at
                w h.0;
        })

  not_cleared :
      (p : Progress)
      → Continues s0 p.state
      → (is_empty p.state.wired_forwards || p.state.guards.forwards_cleared) ≡ false
      → s0.guards.forwards_cleared ≡ true
      → ⊥
  not_cleared p t e h = ground (arith, t.forwards_stay h)

  restore_forwards-Passes :
      (p : Progress) → Continues s0 p.state → Passes c s0 dash (restore_forwards c p)
  unfolding restore_forwards
  restore_forwards-Passes p t =
      Triple-if (is_empty p.state.wired_forwards || p.state.guards.forwards_cleared) _ _
        (λ _. pure-Passes c s0 dash p t)
        (λ e. restore_forwards_by-Passes c.adb p (not_cleared p t e) t)

  restore_with-Passes :
      (mode : RestoreMode) (probe : Result (Option AudioProbe))
      → signal_scope mode s0 ≡ dash
      → Passes c s0 dash (restore_with c s0 mode probe)
  unfolding restore_with
  restore_with-Passes mode probe e =
      then-Passes c s0 dash
        (restore_audio-Passes c s0 dash probe (record { state = s0; shown = false; restored = [] })
          (Continues-refl s0))
        (λ p1 t1.
          then-Passes c s0 dash (dashboard_step-Passes c s0 dash mode p1 e t1)
            restore_forwards-Passes)

  finish_record-Allowed :
      (s : SessionState) (mode : RestoreMode)
      → Continues s0 s
      → Triple (Safe c s0 dash) (finish_record c s mode) (λ _. Safe c s0 dash) (Safe c s0 dash)
  unfolding finish_record
  finish_record-Allowed s mode t =
      Triple-if (restore_complete s mode) _ _
        (λ _.
          Triple-bind (rw t.same_run (clear_run-Allowed c.env s0.run_id dash (Continues s0)))
            (λ _. Triple-pure _ _ _ (λ w h. h)))
        (λ _.
          Triple-bind (save_safe c s0 dash s t)
            (λ _. Triple-bind (emit_line c s0 dash _ _) (λ _. Triple-pure _ _ _ (λ w h. h))))

  pub restore_and_finish-Allowed :
      (mode : RestoreMode) (probe : Result (Option AudioProbe))
      → signal_scope mode s0 ≡ dash
      → Triple
          (Safe c s0 dash)
          (restore_and_finish c s0 mode probe)
          (λ r w. Safe c s0 dash w × Continues s0 r.1.state)
          (Safe c s0 dash)
  unfolding restore_and_finish
  restore_and_finish-Allowed mode probe e =
      then-Passes c s0 dash (restore_with-Passes mode probe e) (λ p t.
        Triple-bind (finish_record-Allowed p.state mode t)
          (λ kept. Triple-pure _ _ _ (λ w h. (h, t))))
