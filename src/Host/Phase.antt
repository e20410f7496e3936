-- ===== src/Host/Phase.antt =====
-- session/mod.rs: where a session is in its life.
use wine_vr.Prelude.{ℕ, String, Bool, true, false, Option}

pub data SessionPhase : Type 0 where
  idle preflight launching running stalled stopping exited detached external : SessionPhase

pub SessionPhase-discrete : Discrete SessionPhase
SessionPhase-discrete = hlevel

-- `phase == Idle || phase == Exited`
abbrev pub is_idle_or_exited : SessionPhase → Bool
is_idle_or_exited SessionPhase.idle = true
is_idle_or_exited SessionPhase.exited = true
is_idle_or_exited _ = false

-- The phases in which a launch or its teardown is between two writes of its record.
abbrev pub is_in_flight : SessionPhase → Bool
is_in_flight SessionPhase.preflight = true
is_in_flight SessionPhase.launching = true
is_in_flight SessionPhase.stopping = true
is_in_flight _ = false

-- The run stage's own account of where a launch is, with the identity that goes with it.
pub record RunPhaseInfo : Type 0 where
  pub phase : SessionPhase
  pub run_id : ℕ
  pub bottle : String
  pub exit_code : Option ℕ
