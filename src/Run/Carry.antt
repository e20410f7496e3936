-- ===== src/Run/Carry.antt =====
-- stages/run/mod.rs: what a record that was kept hands to the launch that replaces it, and the phase
-- that a launch publishes.
pub mod Distinct
pub mod Inherited
use wine_vr.Prelude.{
  ℕ, String, Bool, true, false, not, Option, none, some, List, [], ◌∷◌, ◌++◌, any, if◌then◌else◌,
}
use wine_vr.Host.Phase.{SessionPhase, RunPhaseInfo}
use wine_vr.Host.Process.{Os}
use wine_vr.Host.Error.{Message, SabrageError, Result, ok, err}
use wine_vr.Host.Record.{WiredForward, forward_eq, SessionState, new_state}
use wine_vr.Session.Reconcile.Pass.{
  Reconciled, no_session, live, dead, identity_mismatch, busy, wine_pid,
}
use wine_vr.Session.Status.{Globals, publish_run_phase, clear_run_phase}

unfoldable pub unfinished_audio_restore : SessionState → Option String
unfinished_audio_restore state =
    if state.guards.audio_restored then none else state.prev_audio_output

pub record Carried : Type 0 where
  pub audio : Option String
  pub forwards : List WiredForward

unfoldable pub carry_forward : SessionState → Carried
carry_forward state = record {
  audio = unfinished_audio_restore state;
  forwards = if state.guards.forwards_cleared then [] else state.wired_forwards;
}

-- The turns of `retain`, with the keys seen so far.
abbrev pub dedup_from : List WiredForward → List WiredForward → List WiredForward
dedup_from seen [] = []
dedup_from seen (f ∷ fs) = elim (any (forward_eq f) seen) [
  | true ↦ dedup_from seen fs
  | false ↦ f ∷ dedup_from (f ∷ seen) fs
]

unfoldable pub dedup_forwards : List WiredForward → List WiredForward
dedup_forwards fs = dedup_from [] fs

abbrev pub nothing_carried : Carried
nothing_carried = record { audio = none; forwards = [] }

-- `die` with no remedy
abbrev pub die : Message → SabrageError
die m = SabrageError.fatal m none

-- The match on what reconcile found: a live session and a record that is not ours refuse the launch.
unfoldable pub admit : String → Reconciled → Result Carried
admit bottle (live state) =
    err (die (Message.already_running (wine_pid state) state.started_at_unix_ms bottle))
admit bottle (busy state reason false) =
    err (die (Message.refusing_over_record reason state.bottle))
admit bottle (busy state reason true) = ok nothing_carried
admit bottle (dead state rows pending) = ok (carry_forward state)
admit bottle (identity_mismatch state rows pending) = ok (carry_forward state)
admit bottle no_session = ok nothing_carried

-- The record of the launch, with what it inherits.
unfoldable pub inherit : Carried → SessionState → SessionState
inherit c sess = record sess { prev_audio_output = c.audio; wired_forwards = c.forwards }

-- The record once the forwards of this launch were added.
unfoldable pub with_forwards : List WiredForward → SessionState → SessionState
with_forwards made sess = record sess {
  wired_forwards = dedup_forwards (sess.wired_forwards ++ made);
}
