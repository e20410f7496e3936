-- ===== src/Shell/Quit/Quittable.antt =====
-- A dialog that nobody answers does not keep the application from ending.
use wine_vr.Prelude.{
  ◌≡◌, refl, ℕ, ◌+◌, ◌≤◌, Bool, true, false, some, unwrap_or, ltb, ◌-◌, List, [], ◌∷◌,
  if◌then◌else◌, All, arith,
}
use wine_vr.Shell.Quit.{
  QuitIntercept, pass_through, ask, give_up, App, should_intercept_quit, quit_intercept_decision,
  quit_decision, ask_to_quit, on_exit, on_request, AppEvent, tick, began, ended, request, answer,
  settled, terminate, react, step, QuitChoice, settle_if, settle_quit, quit_dialog_timeout,
}
use wine_vr.Shell.Stop.{TeardownWait}
use wine_vr.Shell.Quit.Told.{steps}

-- No answer to the dialog.
abbrev pub Silent : AppEvent → Type 0
Silent (answer c) = ⊥
Silent _ = Unit

-- The process has ended, or a dialog has been open since `t` at the latest.
abbrev pub Waiting : ℕ → App → Type 0
Waiting t a = (a.exited ≡ false) → (s : ℕ) × (a.pending_quit ≡ some s) × (s ≤ t)

module _ (root : Bool) where
  on_request-Waiting : (t : ℕ) (a : App) → Waiting t a → Waiting t (on_request root a)
  unfolding on_request on_exit ask_to_quit
  on_request-Waiting t a h = go (quit_decision a)
    where
      go : (d : QuitIntercept) → Waiting t (elim d [ ask ↦ ask_to_quit a | _ ↦ on_exit root a ])
      go ask open_ = let w = h open_ in (w.0, ground (arith, w.1), w.2)
      go pass_through open_ = absurd (cc)
      go give_up open_ = absurd (cc)

  settle-Waiting :
      (t : ℕ) (b : Bool) (c : QuitChoice) (waited : TeardownWait) (a : App)
      → Waiting t a
      → Waiting t (settle_if root b c waited a)
  unfolding settle_quit
  settle-Waiting t false c waited a h = h
  settle-Waiting t true c waited a h =
      on_request-Waiting t (record a { waits = a.waits - 1; quit_approved = true }) h

  react-Waiting :
      (t : ℕ) (ev : AppEvent) (a : App) → Silent ev → Waiting t a → Waiting t (react root ev a)
  unfolding react on_exit
  react-Waiting t (tick n) a q h = h
  react-Waiting t (began s) a q h = h
  react-Waiting t ended a q h = h
  react-Waiting t request a q h = on_request-Waiting t a h
  react-Waiting t (answer c) a q h = absurd q
  react-Waiting t (settled c waited) a q h = settle-Waiting t (ltb 0 a.waits) c waited a h
  react-Waiting t terminate a q h = λ open_. absurd (cc)

  Waiting-if :
      (t : ℕ) (b : Bool) (x y : App)
      → (b ≡ true → Waiting t x)
      → Waiting t y
      → Waiting t (if b then x else y)
  Waiting-if t true x y h k = h refl
  Waiting-if t false x y h k = k

  steps-Waiting :
      (t : ℕ) (evs : List AppEvent) (a : App)
      → All Silent evs
      → Waiting t a
      → Waiting t (steps root evs a)
  unfolding step
  steps-Waiting t [] a q h = h
  steps-Waiting t (ev ∷ rest) a q h =
      steps-Waiting t rest (step root ev a) q.1
        (Waiting-if t a.exited a (react root ev a) (λ gone. h) (react-Waiting t ev a q.0 h))

  -- A request that is not intercepted, or that comes late, ends the process.
  late_request :
      (a : App) (s : ℕ)
      → a.pending_quit ≡ some s
      → s + quit_dialog_timeout ≤ a.now
      → (on_request root a).exited ≡ true
  unfolding on_request on_exit quit_decision quit_intercept_decision should_intercept_quit
  late_request a s p late = ground arith

  -- The first request opens the dialog or ends the process.
  opened : (a : App) → unwrap_or a.pending_quit a.now ≤ a.now → Waiting a.now (on_request root a)
  unfolding on_request on_exit ask_to_quit
  opened a past = go (quit_decision a)
    where
      go : (d : QuitIntercept) → Waiting a.now (elim d [ ask ↦ ask_to_quit a | _ ↦ on_exit root a ])
      go ask open_ = (unwrap_or a.pending_quit a.now, refl, past)
      go pass_through open_ = absurd (cc)
      go give_up open_ = absurd (cc)

exited-if :
    (b : Bool) (x y : App)
    → (b ≡ true → x.exited ≡ true)
    → (b ≡ false → y.exited ≡ true)
    → (if b then x else y).exited ≡ true
exited-if true x y h k = h refl
exited-if false x y h k = k refl

-- The user asks to quit, and the dialog stays unanswered: after any other events (more requests,
-- sessions that begin and end, earlier answers
-- whose wait is over) and at least 20 s after the first request, the next request ends the
-- process, whether or not the root resolves; no request in between starts the 20 s again. The
-- dialog's instant, where one is set at the start, is not in the future.
pub request-quits :
    (root : Bool) (a : App) (evs : List AppEvent)
    → unwrap_or a.pending_quit a.now ≤ a.now
    → All Silent evs
    → a.now + quit_dialog_timeout ≤ (steps root evs (step root request a)).now
    → (step root request (steps root evs (step root request a))).exited ≡ true
unfolding step react
request-quits root a evs past silent late =
    let b = steps root evs (step root request a) in
    exited-if b.exited b (on_request root b) (λ gone. gone)
      (λ open_.
        let w =
          steps-Waiting root a.now evs (step root request a) silent
            (Waiting-if root a.now a.exited a (on_request root a) (λ gone open'. absurd (cc))
              (opened root a past))
            open_ in
        late_request root b w.0 w.1 (omega (arith, w.2)))
