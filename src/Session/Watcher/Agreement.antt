-- ===== src/Session/Watcher/Agreement.antt =====
-- The doors and the status that a screen shows cannot disagree.
use wine_vr.Prelude.{
  ℕ, ◌≡◌, ◌↔◌, Bool, true, false, not, ◌&&◌, Option, none, List, arith, is_some_and,
}
use wine_vr.Host.Process.{Os}
use wine_vr.Host.Phase.{SessionPhase, RunPhaseInfo, is_idle_or_exited}
use wine_vr.Host.World.{Disk, absent, unreadable, holds}
use wine_vr.Host.Record.{has_live_foreign_owner}
use wine_vr.Session.Reconcile.Classify.{is_live, classify}
use wine_vr.Session.Doors.{
  RuntimeStatus, runtime_status_live, Sources, running_game_pid, is_busy_phase, session_block_at,
}
use wine_vr.Session.Watcher.{LogLine, SessionMonitor, derive_persisted, derive_live, Draft}
use wine_vr.Session.Watcher.Snapshot.{
  read_status_file, scan_for_game, stall, weigh_published, finish_encoder, derived, snapshot,
}

-- The phases that only the derivation produces, never the run stage.
abbrev pub is_published : SessionPhase → Bool
is_published SessionPhase.detached = false
is_published SessionPhase.external = false
is_published _ = true

-- What it is for every signal to be quiet.
pub record AllQuiet (src : Sources) : Type 0 where
  pub no_handle : src.globals.live_session ≡ none
  pub no_launch : is_some_and src.globals.run_phase (λ i. is_busy_phase i.phase) ≡ false
  pub no_record :
      elim src.disk [
        | absent ↦ true
        | unreadable ↦ false
        | holds s ↦ not (is_live (classify src.os s)) && not (has_live_foreign_owner src.os s)
      ]
      ≡ true
  pub no_runtime : is_some_and src.status_file (λ rs. runtime_status_live src.os rs src.now) ≡ false
  pub no_game : running_game_pid src.os ≡ none

-- An open door means that every signal is quiet.
AllQuiet-of_open : (src : Sources) → session_block_at src ≡ none → AllQuiet src
unfolding session_block_at
AllQuiet-of_open src h = record {
  no_handle = ground arith;
  no_launch = ground arith;
  no_record = ground arith;
  no_runtime = ground arith;
  no_game = ground arith;
}

abbrev IsQuiet : Draft → Type 0
IsQuiet d = is_idle_or_exited d.status.phase ≡ true

derive-IsQuiet :
    (os : Os) (d : Disk)
    → elim d [
      | absent ↦ true
      | unreadable ↦ false
      | holds s ↦ not (is_live (classify os s)) && not (has_live_foreign_owner os s)
    ]
      ≡ true
    → is_idle_or_exited (derive_live os d none).0.phase ≡ true
unfolding derive_live derive_persisted
derive-IsQuiet os d h = ground arith

read-IsQuiet :
    (os : Os) (now : ℕ) (o : Option RuntimeStatus) (d : Draft)
    → is_some_and o (λ rs. runtime_status_live os rs now) ≡ false
    → IsQuiet d
    → IsQuiet (read_status_file os now o d)
unfolding read_status_file
read-IsQuiet os now o d q h = ground arith

scan-IsQuiet :
    (os : Os) (d : Draft) → running_game_pid os ≡ none → IsQuiet d → IsQuiet (scan_for_game os d)
unfolding scan_for_game
scan-IsQuiet os d q h = ground arith

stall-IsQuiet : (now : ℕ) (d : Draft) → IsQuiet d → IsQuiet (stall now d)
unfolding stall
stall-IsQuiet now d h = ground arith

weigh-IsQuiet :
    (o : Option RunPhaseInfo) (d : Draft)
    → is_some_and o (λ i. is_busy_phase i.phase) ≡ false
    → is_some_and o (λ i. not (is_published i.phase)) ≡ false
    → IsQuiet d
    → IsQuiet (weigh_published o d)
unfolding weigh_published
weigh-IsQuiet o d q p h = ground arith

session_block_at-quiet : (src : Sources) → AllQuiet src → session_block_at src ≡ none
unfolding session_block_at
session_block_at-quiet src q = ground arith

-- The doors are open exactly when all seven signals are quiet: no supervised session, no published
-- launch or session, no record that is live, foreign-owned and live, or unreadable, no runtime that
-- reports, and no running game.
pub session_block_at-none_iff : (src : Sources) → (session_block_at src ≡ none) ↔ AllQuiet src
session_block_at-none_iff src = (AllQuiet-of_open src, session_block_at-quiet src)

derived-IsQuiet : (src : Sources) (m : SessionMonitor) → AllQuiet src → IsQuiet (derived src m)
unfolding derived
derived-IsQuiet src m q = rw q.no_handle (
    stall-IsQuiet src.now _ (
      scan-IsQuiet src.os _ q.no_game (
        read-IsQuiet src.os src.now src.status_file _ q.no_runtime
          (derive-IsQuiet src.os src.disk q.no_record))))

-- Where the doors are open, the status shows no session: a snapshot of the same instant is idle or
-- exited, whatever the monitor remembers and the log says. The run stage is assumed to publish only
-- phases of its own.
pub snapshot-idle_of_open :
    (src : Sources) (lines : List LogLine) (m : SessionMonitor)
    → is_some_and src.globals.run_phase (λ i. not (is_published i.phase)) ≡ false
    → session_block_at src ≡ none
    → is_idle_or_exited (snapshot src lines m).1.phase ≡ true
unfolding snapshot finish_encoder
snapshot-idle_of_open src lines m p h =
    let q = AllQuiet-of_open src h in
    weigh-IsQuiet src.globals.run_phase (derived src m) q.no_launch p (derived-IsQuiet src m q)
