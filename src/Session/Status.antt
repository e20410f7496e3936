-- ===== src/Session/Status.antt =====
-- session/mod.rs: the status that other screens read, the two process-wide slots, and what stopping
-- a session means.
use wine_vr.Prelude.{
  ℕ, String, Bool, false, not, ◌&&◌, Option, none, some, ◌==◌, is_some_and, opt_eq, if◌then◌else◌,
}
use wine_vr.Host.Process.{ProcInfo}
use wine_vr.Host.Phase.{SessionPhase, RunPhaseInfo}

pub record EncoderInfo : Type 0 where
  pub codec : String
  pub path : String
  pub width : ℕ
  pub height : ℕ
  pub refresh_hz : ℕ
  pub bitrate_mbps : ℕ

pub record SessionStatus : Type 0 where
  pub phase : SessionPhase
  pub run_id : Option ℕ
  pub bottle : Option String
  pub pid : Option ℕ
  pub started_at_unix_ms : Option ℕ
  pub exit_code : Option ℕ
  pub log_path : Option String
  pub encoder : Option EncoderInfo
  pub runtime_state : Option String
  pub runtime_fresh : Bool
  pub owned_by_this_process : Bool
  pub detached : Bool

-- `SessionStatus::default()`, the idle snapshot.
abbrev pub idle_status : SessionStatus
idle_status = record {
  phase = SessionPhase.idle;
  run_id = none;
  bottle = none;
  pid = none;
  started_at_unix_ms = none;
  exit_code = none;
  log_path = none;
  encoder = none;
  runtime_state = none;
  runtime_fresh = false;
  owned_by_this_process = false;
  detached = false;
}

-- A token is a flag that is only ever set.
pub record LiveSessionHandle : Type 0 where
  pub run_id : ℕ
  pub bottle : String
  pub identity : ProcInfo
  pub log_path : String
  pub started_at_unix_ms : ℕ
  pub cancel : Bool
  pub detach : Bool

-- `LIVE_SESSION` and `RUN_PHASE`.
pub record Globals : Type 0 where
  pub live_session : Option LiveSessionHandle
  pub run_phase : Option RunPhaseInfo

unfoldable pub set_live_session : LiveSessionHandle → Globals → Globals
set_live_session h g = record g { live_session = some h }

abbrev pub live_session_run_id : Globals → Option ℕ
live_session_run_id g = elim g.live_session [ none ↦ none | some h ↦ some h.run_id ]

unfoldable pub live_session_is : ℕ → Globals → Bool
live_session_is run_id g = opt_eq (live_session_run_id g) (some run_id)

unfoldable pub clear_live_session : ℕ → Globals → Globals
clear_live_session run_id g =
    if is_some_and g.live_session (λ h. h.run_id == run_id)
    then record g { live_session = none }
    else g

unfoldable pub publish_run_phase : Option RunPhaseInfo → Globals → Globals
publish_run_phase info g = record g { run_phase = info }

unfoldable pub clear_run_phase : ℕ → Globals → Globals
clear_run_phase run_id g =
    if is_some_and g.run_phase (λ i. i.run_id == run_id) then record g { run_phase = none } else g

pub data StopPlan : Type 0 where
  cancel_run : ℕ → StopPlan
  fire_live_token : StopPlan
  run_stop_stage : StopPlan

abbrev cancel_or_stage : Option ℕ → StopPlan
cancel_or_stage none = run_stop_stage
cancel_or_stage (some id) = cancel_run id

abbrev token_or_stage : SessionStatus → StopPlan
token_or_stage s =
    if s.owned_by_this_process && not s.detached then fire_live_token else run_stop_stage

stop_plan_in : SessionPhase → SessionStatus → StopPlan
stop_plan_in SessionPhase.preflight s = cancel_or_stage s.run_id
stop_plan_in SessionPhase.launching s = cancel_or_stage s.run_id
stop_plan_in SessionPhase.running s = token_or_stage s
stop_plan_in SessionPhase.stalled s = token_or_stage s
stop_plan_in SessionPhase.stopping s = token_or_stage s
stop_plan_in _ s = run_stop_stage

unfoldable pub stop_plan : SessionStatus → StopPlan
unfolding stop_plan_in
stop_plan s = stop_plan_in s.phase s
