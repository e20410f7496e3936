-- ===== src/Session/Reconcile/Guarded.antt =====
-- The guards of a recovery pass: each keeps what the pass may do, and leaves the session as it was.
use wine_vr.Prelude.{
  ◌≡◌, refl, ◌∙◌, String, true, not, Option, none, some, [], ◌∷◌, ◌++◌, arith, All, str_eq,
}
use mathlib.Core.Path.{subst}
use mathlib.Core.List.{Memᴰ}
use wine_vr.Host.Process.{ProcInfo}
use wine_vr.Host.Error.{Message, Result, ok, err}
use wine_vr.Host.Record.{SessionState}
use wine_vr.Host.Effect.{pure, ◌>>=◌}
use wine_vr.Host.World.{Severity, Command, Event, World, M, emit, run_child}
use wine_vr.Host.Effect.Rules.{Triple, Keeps, Triple-pure, Triple-throw, Triple-if, Triple-bind}
use wine_vr.Session.State.{save}
use wine_vr.Session.State.Safety.{
  MaySignal, LogAllowed, emit-Allowed, run_child-Allowed, save-Allowed,
}
use wine_vr.Session.Reconcile.Classify.{RestoreMode, full, safe_only, signalable}
use wine_vr.Session.Reconcile.Restore.{
  StageCtx, AudioProbe, Progress, blackhole, show_banner, report, save_progress, finish_audio,
  give_up_audio, restore_fallback, switch_back, restore_probed, audio_flagged, dashboard_flagged,
  restore_recorded, restore_audio, flag_dashboard, close_dashboard, restore_recorded_dashboard,
  restore_dashboard,
}
use wine_vr.Session.Reconcile.Forwards.{dashboard_step}

-- `t` describes the session of `s` with no more left to undo: the same run, device and dashboard, no
-- guard back to unreleased, and no forward that `s` did not name.
pub record Continues (s t : SessionState) : Type 0 where
  pub same_run : t.run_id ≡ s.run_id
  pub same_dashboard : t.dashboard ≡ s.dashboard
  pub same_audio : t.prev_audio_output ≡ s.prev_audio_output
  pub audio_stays : s.guards.audio_restored ≡ true → t.guards.audio_restored ≡ true
  pub dashboard_stays : s.guards.dashboard_closed ≡ true → t.guards.dashboard_closed ≡ true
  pub forwards_stay : s.guards.forwards_cleared ≡ true → t.guards.forwards_cleared ≡ true
  pub forwards_known : All (λ f. Memᴰ f s.wired_forwards) t.wired_forwards

Continues-audio : {s t : SessionState} → Continues s t → Continues s (audio_flagged t)
Continues-audio h = record {
  same_run = h.same_run;
  same_dashboard = h.same_dashboard;
  same_audio = h.same_audio;
  audio_stays = λ _. refl;
  dashboard_stays = h.dashboard_stays;
  forwards_stay = h.forwards_stay;
  forwards_known = h.forwards_known;
}

Continues-dashboard : {s t : SessionState} → Continues s t → Continues s (dashboard_flagged t)
Continues-dashboard h = record {
  same_run = h.same_run;
  same_dashboard = h.same_dashboard;
  same_audio = h.same_audio;
  audio_stays = h.audio_stays;
  dashboard_stays = λ _. refl;
  forwards_stay = h.forwards_stay;
  forwards_known = h.forwards_known;
}

-- The process that a mode may signal: none, unless the recorded one was found dead.
abbrev pub signal_scope : RestoreMode → SessionState → Option ProcInfo
signal_scope full s = s.dashboard
signal_scope safe_only s = none

module _ (c : StageCtx) (s0 : SessionState) (dash : Option ProcInfo) where
  abbrev pub Safe : World → Type 0
  Safe = LogAllowed c.env s0.run_id dash (Continues s0)

  abbrev pub KeepsSafe : {A : Type 0} → M A → Type 0
  KeepsSafe m = Keeps Safe m

  -- The step keeps the log allowed and the record that of the same session.
  abbrev pub Passes : M Progress → Type 0
  Passes m = Triple Safe m (λ p w. Safe w × Continues s0 p.state) Safe

  pub emit_line : (sev : Severity) (t : Message) → KeepsSafe (emit (Event.line sev t))
  emit_line sev t = emit-Allowed c.env s0.run_id dash (Continues s0) (Event.line sev t) tt

  run_switch : (bin dev : String) → KeepsSafe (run_child c.env (Command.switch_output bin dev))
  run_switch bin dev =
      run_child-Allowed c.env s0.run_id dash (Continues s0) (Command.switch_output bin dev)
        (λ d. tt)

  pub save_safe : (s : SessionState) → Continues s0 s → KeepsSafe (save c.env s)
  save_safe s h = save-Allowed c.env s0.run_id dash (Continues s0) s h

  pub pure-Passes : (p : Progress) → Continues s0 p.state → Passes (pure p)
  pure-Passes p t = Triple-pure _ _ _ (λ w h. (h, t))

  pub then-Passes :
      {A : Type 0} {m : M Progress} {f : Progress → M A} {R : A → World → Type 0}
      → Passes m
      → ((p : Progress) → Continues s0 p.state → Triple Safe (f p) R Safe)
      → Triple Safe (m >>= f) R Safe
  then-Passes hm hf = Triple-bind hm (λ p. record { at = λ w h. (hf p h.1).at w h.0 })

  pub save_progress-Passes :
      (s : SessionState) (p : Progress) → Continues s0 s → Passes (save_progress c s p)
  unfolding save_progress
  save_progress-Passes s p t =
      Triple-bind (save_safe s t) (λ _. pure-Passes (record p { state = s }) t)

  show_banner-Passes : (p : Progress) → Continues s0 p.state → Passes (show_banner p)
  unfolding show_banner
  show_banner-Passes p t =
      Triple-if p.shown _ _ (λ _. pure-Passes p t)
        (λ _.
          Triple-bind (emit-Allowed c.env s0.run_id dash (Continues s0) Event.section tt)
            (λ _. pure-Passes (record p { shown = true }) t))

  pub report-Passes :
      (sev : Severity) (t : Message) (p : Progress) → Continues s0 p.state → Passes (report sev t p)
  unfolding report
  report-Passes sev t p h = then-Passes (show_banner-Passes p h) (λ p' h'.
      Triple-bind (emit_line sev t)
        (λ _. pure-Passes (record p' { restored = p'.restored ++ t ∷ [] }) h'))

  finish_audio-Passes : (p : Progress) → Continues s0 p.state → Passes (finish_audio c p)
  unfolding finish_audio
  finish_audio-Passes p t = save_progress-Passes _ p (Continues-audio t)

  give_up_audio-Passes :
      (prev : String) (p : Progress) → Continues s0 p.state → Passes (give_up_audio prev p)
  unfolding give_up_audio
  give_up_audio-Passes prev p t = Triple-bind (emit_line _ _) (λ _. pure-Passes p t)

  -- A row, then the guard's flag.
  reported-Passes :
      (sev : Severity) (t : Message) (p : Progress)
      → Continues s0 p.state
      → Passes (report sev t p >>= finish_audio c)
  reported-Passes sev t p h = then-Passes (report-Passes sev t p h) finish_audio-Passes

  restore_fallback-Passes :
      (bin prev : String) (alt : Option String) (p : Progress)
      → Continues s0 p.state
      → Passes (restore_fallback c bin prev alt p)
  unfolding restore_fallback
  restore_fallback-Passes bin prev none p t = give_up_audio-Passes prev p t
  restore_fallback-Passes bin prev (some alt) p t = Triple-bind (run_switch bin alt) (λ took.
      Triple-if took _ _ (λ _. reported-Passes _ _ p t) (λ _. give_up_audio-Passes prev p t))

  switch_back-Passes :
      (pr : AudioProbe) (prev : String) (p : Progress)
      → Continues s0 p.state
      → Passes (switch_back c pr prev p)
  unfolding switch_back
  switch_back-Passes pr prev p t = Triple-bind (run_switch pr.bin prev) (λ took.
      Triple-if took _ _ (λ _. reported-Passes _ _ p t)
        (λ _. restore_fallback-Passes pr.bin prev _ p t))

  restore_probed-Passes :
      (r : Result (Option AudioProbe)) (prev : String) (p : Progress)
      → Continues s0 p.state
      → Passes (restore_probed c r prev p)
  unfolding restore_probed
  restore_probed-Passes (err x) prev p t = Triple-throw x _ _ (λ w h. h)
  restore_probed-Passes (ok none) prev p t = pure-Passes p t
  restore_probed-Passes (ok (some pr)) prev p t =
      Triple-if (not (str_eq pr.current blackhole)) _ _ (λ _. finish_audio-Passes p t)
        (λ _. switch_back-Passes pr prev p t)

  restore_recorded-Passes :
      (r : Result (Option AudioProbe)) (prev : Option String) (p : Progress)
      → Continues s0 p.state
      → Passes (restore_recorded c r prev p)
  unfolding restore_recorded
  restore_recorded-Passes r none p t = pure-Passes p t
  restore_recorded-Passes r (some prev) p t =
      Triple-if p.state.guards.audio_restored _ _ (λ _. pure-Passes p t)
        (λ _. restore_probed-Passes r prev p t)

  pub restore_audio-Passes :
      (r : Result (Option AudioProbe)) (p : Progress)
      → Continues s0 p.state
      → Passes (restore_audio c r p)
  unfolding restore_audio
  restore_audio-Passes r p t = restore_recorded-Passes r p.state.prev_audio_output p t

  flag_dashboard-Passes : (p : Progress) → Continues s0 p.state → Passes (flag_dashboard c p)
  flag_dashboard-Passes p t = save_progress-Passes _ p (Continues-dashboard t)

  may_signal :
      (recorded : Option ProcInfo) (id : ProcInfo)
      → some id ≡ recorded
      → signalable c.env.os id ≡ true
      → MaySignal c.env.os recorded id.pid
  unfolding signalable
  may_signal none id e h = cc
  may_signal (some d) id e h =
      let same : id ≡ d = cc in
      subst (λ (x : ProcInfo). MaySignal c.env.os (some x) id.pid) same
        (refl, ground arith, ground arith)

  close_dashboard-Passes :
      (id : ProcInfo) (p : Progress)
      → some id ≡ dash
      → Continues s0 p.state
      → Passes (close_dashboard c id p)
  unfolding close_dashboard
  close_dashboard-Passes id p e t =
      Triple-if (signalable c.env.os id) _ _
        (λ h.
          Triple-bind
            (run_child-Allowed c.env s0.run_id dash (Continues s0) (Command.kill_term id.pid)
              (λ d. may_signal dash id e h))
            (λ closed.
              Triple-if closed _ _ (λ _. then-Passes (report-Passes _ _ p t) flag_dashboard-Passes)
                (λ _. flag_dashboard-Passes p t)))
        (λ _. flag_dashboard-Passes p t)

  restore_recorded_dashboard-Passes :
      (recorded : Option ProcInfo) (p : Progress)
      → recorded ≡ dash
      → Continues s0 p.state
      → Passes (restore_recorded_dashboard c recorded p)
  unfolding restore_recorded_dashboard
  restore_recorded_dashboard-Passes none p e t = pure-Passes p t
  restore_recorded_dashboard-Passes (some id) p e t =
      Triple-if p.state.guards.dashboard_closed _ _ (λ _. pure-Passes p t)
        (λ _. close_dashboard-Passes id p e t)

  pub dashboard_step-Passes :
      (mode : RestoreMode) (p : Progress)
      → signal_scope mode s0 ≡ dash
      → Continues s0 p.state
      → Passes (dashboard_step c mode p)
  unfolding restore_dashboard
  dashboard_step-Passes full p e t =
      restore_recorded_dashboard-Passes p.state.dashboard p (t.same_dashboard ∙ e) t
  dashboard_step-Passes safe_only p e t = pure-Passes p t
