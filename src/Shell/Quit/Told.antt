-- ===== src/Shell/Quit/Told.antt =====
-- The application does not end over a session that nobody told.
use wine_vr.Prelude.{
  ◌≡◌, refl, sym, ℕ, Bool, true, false, ◌||◌, Option, none, some, List, [], ◌∷◌, if◌then◌else◌,
  Bool-cases, inl, inr, ap, ◌∙◌, ◌⊎◌, ltb, ◌-◌, arith,
}
use mathlib.Core.Path.{subst}
use wine_vr.Session.Status.{LiveSessionHandle}
use wine_vr.Shell.Stop.{TeardownWait}
use wine_vr.Shell.Quit.{
  QuitChoice, stop, keep, cancel, QuitIntercept, pass_through, ask, give_up, App, fresh_app,
  should_intercept_quit, quit_intercept_decision, quit_decision, ask_to_quit, detach_live_session,
  detached_handle, on_exit, on_request, resolve_quit, settle_quit, settle_if, AppEvent, tick, began,
  ended, request, answer, settled, terminate, react, step,
}

-- The session was told to stop or that it runs on.
abbrev pub told : Option LiveSessionHandle → Bool
told none = true
told (some h) = h.cancel || h.detach

abbrev pub steps : Bool → List AppEvent → App → App
steps root [] a = a
steps root (ev ∷ rest) a = steps root rest (step root ev a)

-- Whether the live session began while an answer of the user waited for another one.
abbrev pub newer_if : Bool → Bool → App → Bool
newer_if true newer a = newer
newer_if false newer a = ltb 0 a.waits

abbrev pub newer_after : AppEvent → App → Bool → Bool
newer_after (began h) a newer = newer_if a.exited newer a
newer_after _ a newer = newer

abbrev pub newers : Bool → List AppEvent → App → Bool → Bool
newers root [] a newer = newer
newers root (ev ∷ rest) a newer = newers root rest (step root ev a) (newer_after ev a newer)

-- The session was told, or it is one that began while an answer waited.
abbrev pub Parted : App → Bool → Type 0
Parted a newer = (told a.live ≡ true) ⊎ (newer ≡ true)

-- An exit is approved only at the moment of the exit; and where the process has ended, or an answer
-- waits, the session was told, or began while an answer waited.
pub record Orderly (a : App) (newer : Bool) : Type 0 where
  pub unapproved : a.exited ≡ false → a.quit_approved ≡ false
  pub parted : a.exited ≡ true → Parted a newer
  pub waiting : a.exited ≡ false → ltb 0 a.waits ≡ true → Parted a newer

told-detached :
    (o : Option LiveSessionHandle)
    → told (elim o [ none ↦ none | some h ↦ some (detached_handle true h) ]) ≡ true
told-detached none = refl
told-detached (some h) = elim (Bool-cases h.cancel) [ inl e ↦ rw e refl | inr e ↦ rw e refl ]

told-cancelled :
    (o : Option LiveSessionHandle)
    → told (elim o [ none ↦ none | some h ↦ some (record h { cancel = true }) ]) ≡ true
told-cancelled none = refl
told-cancelled (some h) = refl

module _ (newer : Bool) where
  Orderly-if :
      (b : Bool) (x y : App)
      → (b ≡ true → Orderly x newer)
      → (b ≡ false → Orderly y newer)
      → Orderly (if b then x else y) newer
  Orderly-if true x y h k = h refl
  Orderly-if false x y h k = k refl

  -- The end of the process, where a session that is still live was told or will be detached.
  on_exit-Orderly :
      (a : App) → (a.quit_approved ≡ true → Parted a newer) → Orderly (on_exit true a) newer
  unfolding on_exit detach_live_session
  on_exit-Orderly a h = elim (Bool-cases a.quit_approved) [
    | inl yes_said ↦ record {
      unapproved = λ e. absurd (cc);
      parted = λ e. rw yes_said (h yes_said);
      waiting = λ e. absurd (cc);
    }
    | inr not_said ↦ record {
      unapproved = λ e. absurd (cc);
      parted = λ e. rw not_said (inl (told-detached a.live));
      waiting = λ e. absurd (cc);
    }
  ]

  on_request-Orderly :
      (a : App)
      → a.exited ≡ false
      → (a.quit_approved ≡ true → Parted a newer)
      → (a.quit_approved ≡ true → quit_decision a ≡ pass_through)
      → (ltb 0 a.waits ≡ true → Parted a newer)
      → Orderly (on_request true a) newer
  unfolding on_request ask_to_quit
  on_request-Orderly a open_ h k waits = go (quit_decision a) refl
    where
      go :
          (d : QuitIntercept)
          → quit_decision a ≡ d
          → Orderly (elim d [ ask ↦ ask_to_quit a | _ ↦ on_exit true a ]) newer
      go ask e = record {
        unapproved = λ x. elim (Bool-cases a.quit_approved) [
          | inl said ↦ absurd (cc (k said, e))
          | inr not_said ↦ not_said
        ];
        parted = λ x. absurd (cc);
        waiting = λ x. waits;
      }
      go pass_through e = on_exit-Orderly a h
      go give_up e = on_exit-Orderly a h

-- A request that is approved passes.
approved-passes : (a : App) → a.quit_approved ≡ true → quit_decision a ≡ pass_through
unfolding quit_decision quit_intercept_decision should_intercept_quit
approved-passes a h = rw h refl

module _ (newer : Bool) where
  settle-Orderly :
      (b : Bool) (c : QuitChoice) (waited : TeardownWait) (a : App)
      → Orderly a newer
      → a.exited ≡ false
      → ltb 0 a.waits ≡ b
      → Orderly (settle_if true b c waited a) newer
  unfolding settle_quit
  settle-Orderly false c waited a h open_ e = h
  settle-Orderly true c waited a h open_ e =
      let done : App = record a { waits = a.waits - 1; quit_approved = true } in
      on_request-Orderly newer done open_ (λ x. h.waiting open_ e) (approved-passes done)
        (λ x. h.waiting open_ e)

  resolve_quit-Orderly :
      (c : QuitChoice) (a : App)
      → Orderly a newer
      → a.exited ≡ false
      → Orderly (resolve_quit true c a) newer
  unfolding resolve_quit detach_live_session
  resolve_quit-Orderly cancel a h open_ = record {
    unapproved = λ e. refl;
    parted = λ e. absurd (cc);
    waiting = h.waiting;
  }
  resolve_quit-Orderly stop a h open_ = record {
    unapproved = h.unapproved;
    parted = λ e. absurd (cc);
    waiting = λ e w. inl (told-cancelled a.live);
  }
  resolve_quit-Orderly keep a h open_ = record {
    unapproved = h.unapproved;
    parted = λ e. absurd (cc);
    waiting = λ e w. inl (told-detached a.live);
  }

react-Orderly :
    (ev : AppEvent) (a : App) (newer : Bool)
    → Orderly a newer
    → a.exited ≡ false
    → Orderly (react true ev a) (newer_after ev a newer)
unfolding react
react-Orderly (tick n) a newer h open_ = record {
  unapproved = h.unapproved;
  parted = λ e. absurd (cc);
  waiting = h.waiting;
}
react-Orderly (began s) a newer h open_ = record {
  unapproved = h.unapproved;
  parted = λ e. absurd (cc);
  waiting = λ e w. inr (ap (λ b. newer_if b newer a) open_ ∙ w);
}
react-Orderly ended a newer h open_ = record {
  unapproved = h.unapproved;
  parted = λ e. inl refl;
  waiting = λ e w. inl refl;
}
react-Orderly request a newer h open_ =
    on_request-Orderly newer a open_ (λ e. absurd (cc (h.unapproved open_))) (approved-passes a)
      (h.waiting open_)
react-Orderly (answer c) a newer h open_ = resolve_quit-Orderly newer c a h open_
react-Orderly (settled c waited) a newer h open_ =
    settle-Orderly newer (ltb 0 a.waits) c waited a h open_ refl
react-Orderly terminate a newer h open_ =
    on_exit-Orderly newer a (λ e. absurd (cc (h.unapproved open_)))

-- A process that has ended does nothing more.
ended-Orderly :
    (ev : AppEvent) (a : App) (newer : Bool)
    → a.exited ≡ true
    → Orderly a newer
    → Orderly a (newer_after ev a newer)
ended-Orderly (tick n) a newer gone h = h
ended-Orderly (began s) a newer gone h = subst (λ b. Orderly a (newer_if b newer a)) (sym gone) h
ended-Orderly ended a newer gone h = h
ended-Orderly request a newer gone h = h
ended-Orderly (answer c) a newer gone h = h
ended-Orderly (settled c waited) a newer gone h = h
ended-Orderly terminate a newer gone h = h

step-Orderly :
    (ev : AppEvent) (a : App) (newer : Bool)
    → Orderly a newer
    → Orderly (step true ev a) (newer_after ev a newer)
unfolding step
step-Orderly ev a newer h =
    Orderly-if (newer_after ev a newer) a.exited a (react true ev a)
      (λ gone. ended-Orderly ev a newer gone h) (react-Orderly ev a newer h)

-- Where the repository's root resolves, from an orderly application, as one that has just started
-- is (its exit is not approved, no answer waits, and it has not ended): after any events (sessions
-- that begin and end, requests to quit, answers in any order, each with its wait, during which
-- anything else may happen, and the end of the process without a question), no exit stays approved
-- while the process runs; and the process has ended only over no live session, over one whose stop
-- or detach token was fired, or over one that began while an answer waited for another one.
pub steps-Orderly :
    (evs : List AppEvent) (a : App) (newer : Bool)
    → Orderly a newer
    → Orderly (steps true evs a) (newers true evs a newer)
steps-Orderly [] a newer h = h
steps-Orderly (ev ∷ rest) a newer h =
    steps-Orderly rest (step true ev a) (newer_after ev a newer) (step-Orderly ev a newer h)

pub fresh_app-Orderly : (now : ℕ) → Orderly (fresh_app now) false
fresh_app-Orderly now = record {
  unapproved = λ e. refl;
  parted = λ e. absurd (cc);
  waiting = λ e w. absurd (ground arith);
}
