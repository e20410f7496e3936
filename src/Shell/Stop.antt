-- ===== src/Shell/Stop.antt =====
-- src-tauri/src/commands.rs: the stop of the session that this process supervises, and its wait.
pub mod Honest
use wine_vr.Prelude.{
  ℕ, zero, suc, ◌+◌, String, Bool, true, false, not, ◌&&◌, Option, none, some, ◌==◌, leb, opt_eq,
  str_eq, if◌then◌else◌,
}
use wine_vr.Host.Record.{SessionState}
use wine_vr.Host.World.{Disk, absent, unreadable, holds}
use wine_vr.Session.Status.{LiveSessionHandle}

pub data TeardownWait : Type 0 where
  nothing_live cleared detached timed_out : TeardownWait

-- `LIVE_SESSION_STOP_TIMEOUT` and `LIVE_SESSION_STOP_POLL`, in milliseconds.
abbrev pub live_session_stop_timeout : ℕ
live_session_stop_timeout = 30000

abbrev pub live_session_stop_poll : ℕ
live_session_stop_poll = 100

-- What the wait sees: at its turn `i` the clock, and the run that holds the slot.
pub record Watch : Type 0 where
  pub clock : ℕ → ℕ
  pub slot : ℕ → Option ℕ

-- The loop from the turn `i`, with the turns that it may still take.
unfoldable pub wait_from : (ℕ → Bool) → (ℕ → ℕ) → ℕ → ℕ → ℕ → Option TeardownWait
wait_from is_clear clock deadline zero i = none
wait_from is_clear clock deadline (suc n) i =
    let rest = wait_from is_clear clock deadline n (suc i) in
    if is_clear i then some cleared else if leb deadline (clock i) then some timed_out else rest

-- The turns that a wait of the timeout takes at most, one poll apart.
abbrev pub wait_turns : ℕ
wait_turns = 301

unfoldable pub wait_for_slot_clear : (ℕ → Bool) → (ℕ → ℕ) → ℕ → Option TeardownWait
wait_for_slot_clear is_clear clock timeout =
    wait_from is_clear clock (clock 0 + timeout) wait_turns 0

-- `slot_was_released_by_a_detach`: whether the repository's root resolves, and the record.
unfoldable pub slot_was_released_by_a_detach : Bool → Disk → ℕ → Bool
slot_was_released_by_a_detach root (holds s) run_id = root && s.run_id == run_id && s.detached
slot_was_released_by_a_detach root _ run_id = false

-- The run's slot is free where no run, or another one, is in it.
abbrev pub freed : Option ℕ → ℕ → Bool
freed holder run_id = not (opt_eq holder (some run_id))

abbrev pub told_apart : Bool → Disk → ℕ → TeardownWait → TeardownWait
told_apart root d run_id cleared =
    if slot_was_released_by_a_detach root d run_id then detached else cleared
told_apart root d run_id waited = waited

-- A wait that nobody could make counts as one that timed out.
abbrev pub waited_or : Option TeardownWait → TeardownWait
waited_or none = timed_out
waited_or (some t) = t

-- The handle whose token was fired, if one was live, and what the wait saw.
unfoldable pub stop_live_session_and_wait :
    Option LiveSessionHandle → Watch → Bool → Disk → Option LiveSessionHandle × TeardownWait
stop_live_session_and_wait none w root d = (none, nothing_live)
stop_live_session_and_wait (some h) w root d = (
  some (record h { cancel = true }),
  told_apart root d h.run_id (
      waited_or
        (wait_for_slot_clear (λ i. freed (w.slot i) h.run_id) w.clock live_session_stop_timeout)),
)

unfoldable pub stop_targets_live_session : Option String → String → Bool
stop_targets_live_session none live_bottle = true
stop_targets_live_session (some b) live_bottle = str_eq b live_bottle

-- What `stop_session` answers: the outcome of a stopped run, one of its refusals, or what the Stop
-- stage, which runs in its place, answers.
pub data Stopped : Type 0 where
  ended_130 : Stopped
  still_detached not_finished : String → Stopped
  stop_stage : Option String → Stopped

abbrev pub answer : String → TeardownWait → Stopped
answer bottle nothing_live = ended_130
answer bottle cleared = ended_130
answer bottle detached = still_detached bottle
answer bottle timed_out = not_finished bottle

-- `live` is the slot when the command starts, and `again` when the stop itself reads it.
abbrev pub stop_targeted :
    Option String → Option LiveSessionHandle → Watch → Bool → Disk → String → Bool → Stopped
stop_targeted bottle again w root d live_bottle true =
    answer live_bottle (stop_live_session_and_wait again w root d).1
stop_targeted bottle again w root d live_bottle false = stop_stage bottle

unfoldable pub stop_session :
    Option String
    → Option LiveSessionHandle
    → Option LiveSessionHandle
    → Watch
    → Bool
    → Disk
    → Stopped
stop_session bottle none again w root d = stop_stage bottle
stop_session bottle (some h) again w root d =
    stop_targeted bottle again w root d h.bottle (stop_targets_live_session bottle h.bottle)
