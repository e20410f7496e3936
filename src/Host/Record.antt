-- ===== src/Host/Record.antt =====
-- session/state.rs: the crash-recovery record and what it says of itself.
use wine_vr.Prelude.{
  ℕ, String, Bool, true, false, Option, none, some, List, [], ◌==◌, leb, is_some, is_empty, not,
  is_some_and, if◌then◌else◌, ◌&&◌, ◌||◌, str_eq,
}
use wine_vr.Host.Process.{ProcInfo, Os, is_same_process, observed_start}

abbrev pub session_state_version : ℕ
session_state_version = 1

pub record WiredForward : Type 0 where
  pub serial : String
  pub port : ℕ

abbrev pub forward_eq : WiredForward → WiredForward → Bool
forward_eq a b = str_eq a.serial b.serial && a.port == b.port

pub record GuardFlags : Type 0 where
  pub audio_restored : Bool
  pub dashboard_closed : Bool
  pub forwards_cleared : Bool

pub record SessionState : Type 0 where
  pub version : ℕ
  pub run_id : ℕ
  pub bottle : String
  pub bs_dir : String
  pub started_at_unix_ms : ℕ
  pub log_path : String
  pub owner_pid : ℕ
  pub owner_started_at : Option ℕ
  pub wine : Option ProcInfo
  pub dashboard : Option ProcInfo
  pub prev_audio_output : Option String
  pub wired_forwards : List WiredForward
  pub guards : GuardFlags
  pub detached : Bool

abbrev pub no_flags : GuardFlags
no_flags = record { audio_restored = false; dashboard_closed = false; forwards_cleared = false }

-- `SessionState::set_owner`: the pid and its start time, written together.
unfoldable pub set_owner : Os → ℕ → SessionState → SessionState
set_owner os pid s = record s { owner_pid = pid; owner_started_at = observed_start os pid }

-- `SessionState::new`
unfoldable pub new_state : Os → ℕ → String → String → String → ℕ → SessionState
unfolding set_owner
new_state os run_id bottle bs_dir log_path started = set_owner os os.self_pid (record {
  version = session_state_version;
  run_id = run_id;
  bottle = bottle;
  bs_dir = bs_dir;
  started_at_unix_ms = started;
  log_path = log_path;
  owner_pid = 0;
  owner_started_at = none;
  wine = none;
  dashboard = none;
  prev_audio_output = none;
  wired_forwards = [];
  guards = no_flags;
  detached = false;
})

unfoldable pub is_supported_version : SessionState → Bool
is_supported_version s = leb s.version session_state_version

unfoldable pub has_pending_guards : SessionState → Bool
has_pending_guards s =
    (is_some s.prev_audio_output && not s.guards.audio_restored)
    || (is_some s.dashboard && not s.guards.dashboard_closed)
    || (not (is_empty s.wired_forwards) && not s.guards.forwards_cleared)

-- The identity half of `has_live_foreign_owner`: no recorded start time is trusted.
unfoldable pub owner_identity_holds : Os → SessionState → Bool
owner_identity_holds os s = elim s.owner_started_at [
  | none ↦ true
  | some started_at ↦ is_some_and (os.observe s.owner_pid) (λ now. now.start_time == started_at)
]

unfoldable pub has_live_foreign_owner : Os → SessionState → Bool
unfolding owner_identity_holds
has_live_foreign_owner os s =
    if s.owner_pid == 0 || s.owner_pid == os.self_pid
    then false
    else if not (os.is_alive s.owner_pid)
    then false
    else if not (owner_identity_holds os s)
    then false
    else elim s.wine [ none ↦ true | some w ↦ is_same_process os w ]
