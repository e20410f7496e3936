-- ===== src/Shell/Quit.antt =====
-- src-tauri/src/commands.rs and lib.rs: how the application ends while a session is live.
pub mod Told
pub mod Quittable
use wine_vr.Prelude.{
  ℕ, ◌+◌, ◌-◌, String, Bool, true, false, not, ◌&&◌, Option, none, some, is_some, leb, ltb,
  unwrap_or, if◌then◌else◌,
}
use wine_vr.Session.Status.{LiveSessionHandle}
use wine_vr.Shell.Stop.{TeardownWait, nothing_live, cleared, detached, timed_out}

pub data QuitChoice : Type 0 where
  stop keep cancel : QuitChoice

pub data QuitIntercept : Type 0 where
  pass_through ask give_up : QuitIntercept

-- `QUIT_DIALOG_TIMEOUT`, in milliseconds.
abbrev pub quit_dialog_timeout : ℕ
quit_dialog_timeout = 20000

unfoldable pub should_intercept_quit : Bool → Bool → Bool
should_intercept_quit quit_approved session_is_live = not quit_approved && session_is_live

abbrev pub unanswered : Option ℕ → QuitIntercept
unanswered none = ask
unanswered (some d) = if leb quit_dialog_timeout d then give_up else ask

unfoldable pub quit_intercept_decision : Bool → Bool → Option ℕ → QuitIntercept
unfolding should_intercept_quit
quit_intercept_decision quit_approved session_is_live pending_for =
    if not (should_intercept_quit quit_approved session_is_live)
    then pass_through
    else unanswered pending_for

-- The managed state, the slot of the live session, the clock, and whether the process has ended.
-- `asked` counts the dialogs, and `waits` the answers whose wait for the session is not over.
pub record App : Type 0 where
  pub live : Option LiveSessionHandle
  pub quit_approved : Bool
  pub pending_quit : Option ℕ
  pub now : ℕ
  pub asked : ℕ
  pub waits : ℕ
  pub exited : Bool

abbrev pub fresh_app : ℕ → App
fresh_app now = record {
  live = none;
  quit_approved = false;
  pending_quit = none;
  now = now;
  asked = 0;
  waits = 0;
  exited = false;
}

-- `PendingQuit::pending_for`
abbrev pub pending_for : App → Option ℕ
pending_for a = elim a.pending_quit [ none ↦ none | some since ↦ some (a.now - since) ]

-- `PendingQuit::mark`: the first instant stays.
abbrev pub mark : App → App
mark a = record a { pending_quit = some (unwrap_or a.pending_quit a.now) }

unfoldable pub quit_decision : App → QuitIntercept
quit_decision a = quit_intercept_decision a.quit_approved (is_some a.live) (pending_for a)

unfoldable pub ask_to_quit : App → App
ask_to_quit a = record (mark a) { asked = a.asked + 1 }

-- The token of `detach_live_session`, which a stop that came before keeps from firing; `root` says
-- that the repository's root and the home directory resolve. The record is left to
-- `Session.Reconcile.Detach`.
abbrev pub detached_handle : Bool → LiveSessionHandle → LiveSessionHandle
detached_handle root h = if root && not h.cancel then record h { detach = true } else h

unfoldable pub detach_live_session : Bool → App → App
detach_live_session root a = record a {
  live = elim a.live [ none ↦ none | some h ↦ some (detached_handle root h) ];
}

-- `RunEvent::Exit`: what `detach_on_terminate` does, and the end of the process.
unfoldable pub on_exit : Bool → App → App
unfolding detach_live_session
on_exit root a =
    let kept = detach_live_session root a in
    record (if a.quit_approved then a else kept) { exited = true }

-- The arms of `ExitRequested` and of the main window's `CloseRequested`.
unfoldable pub on_request : Bool → App → App
unfolding on_exit ask_to_quit
on_request root a = elim (quit_decision a) [ ask ↦ ask_to_quit a | _ ↦ on_exit root a ]

-- The cancel token of the live session, if there is one.
abbrev pub cancelled_live : App → App
cancelled_live a = record a {
  live = elim a.live [ none ↦ none | some h ↦ some (record h { cancel = true }) ];
}

pub data QuitRefusal : Type 0 where
  detached_instead did_not_finish : QuitRefusal

unfoldable pub quit_stop_refusal : TeardownWait → Option QuitRefusal
quit_stop_refusal nothing_live = none
quit_stop_refusal cleared = none
quit_stop_refusal detached = some detached_instead
quit_stop_refusal timed_out = some did_not_finish

-- `app.exit(0)` comes back as an exit request.
abbrev pub approve : Bool → App → App
approve root a = on_request root (record a { quit_approved = true })

-- `resolve_quit` up to its wait: a cancel is done with it, and the others wait for the session.
unfoldable pub resolve_quit : Bool → QuitChoice → App → App
unfolding detach_live_session
resolve_quit root cancel a = record a { pending_quit = none; quit_approved = false }
resolve_quit root stop a = record (cancelled_live a) { pending_quit = none; waits = a.waits + 1 }
resolve_quit root keep a = record (detach_live_session root a) {
  pending_quit = none;
  waits = a.waits + 1;
}

abbrev pub refusal_of : QuitChoice → TeardownWait → Option QuitRefusal
refusal_of stop waited = quit_stop_refusal waited
refusal_of _ waited = none

-- The rest of `resolve_quit`, when the wait of an answer is over; `waited` is what it saw.
unfoldable pub settle_quit : Bool → QuitChoice → TeardownWait → App → App × Option QuitRefusal
settle_quit root c waited a = (approve root (record a { waits = a.waits - 1 }), refusal_of c waited)

abbrev pub settle_if : Bool → Bool → QuitChoice → TeardownWait → App → App
settle_if root true c waited a = (settle_quit root c waited a).0
settle_if root false c waited a = a

-- What happens to the application: time, a session of this process begins or its slot is freed,
-- the user asks to quit or answers, the wait of an answer is over, or the system ends the process
-- without asking.
pub data AppEvent : Type 0 where
  tick : ℕ → AppEvent
  began : LiveSessionHandle → AppEvent
  ended : AppEvent
  request : AppEvent
  answer : QuitChoice → AppEvent
  settled : QuitChoice → TeardownWait → AppEvent
  terminate : AppEvent

-- A wait is over only where an answer waits.
unfoldable pub react : Bool → AppEvent → App → App
react root (tick n) a = record a { now = a.now + n }
react root (began h) a = record a { live = some h }
react root ended a = record a { live = none }
react root request a = on_request root a
react root (answer c) a = resolve_quit root c a
react root (settled c waited) a = settle_if root (ltb 0 a.waits) c waited a
react root terminate a = on_exit root a

-- A process that has ended does nothing more.
unfoldable pub step : Bool → AppEvent → App → App
step root ev a = if a.exited then a else react root ev a
