-- ===== src/Session/Doors.antt =====
-- session/mod.rs: the seven signals by which a mutating operation finds that a session may be live.
use wine_vr.Prelude.{
  ℕ, ◌-◌, String, Bool, true, false, ◌&&◌, Option, none, some, [], ◌∷◌, leb, is_some_and,
  if◌then◌else◌,
}
use wine_vr.Host.Process.{Os}
use wine_vr.Host.Phase.{SessionPhase, RunPhaseInfo}
use wine_vr.Host.Error.{Message, SabrageError, Result, ok, err}
use wine_vr.Host.Record.{has_live_foreign_owner}
use wine_vr.Host.World.{Disk, absent, unreadable, holds}
use wine_vr.Session.State.{stop_remedy}
use wine_vr.Session.Status.{LiveSessionHandle, Globals}
use wine_vr.Session.Reconcile.Classify.{is_live, classify}
use wine_vr.Session.Reconcile.Pass.{wine_pid}

-- `runtime_status.json`, parsed.
pub record RuntimeStatus : Type 0 where
  pub state : String
  pub process_id : Option ℕ
  pub updated_at_unix_ms : ℕ
  pub application_name : Option String

abbrev pub runtime_status_max_age_ms : ℕ
runtime_status_max_age_ms = 3000

abbrev pub max_future_skew_ms : ℕ
max_future_skew_ms = 2000

-- `saturating_sub` on u64 is `-` on ℕ.
unfoldable pub is_fresh : ℕ → ℕ → Bool
is_fresh updated now =
    leb (updated - now) max_future_skew_ms && leb (now - updated) runtime_status_max_age_ms

unfoldable pub runtime_status_live : Os → RuntimeStatus → ℕ → Bool
unfolding is_fresh
runtime_status_live os rs now =
    is_fresh rs.updated_at_unix_ms now && is_some_and rs.process_id (λ pid. os.is_alive pid)

-- What the session layer reads of the machine at one instant: `status_file` is none where the file
-- cannot be read or parsed.
pub record Sources : Type 0 where
  pub os : Os
  pub globals : Globals
  pub disk : Disk
  pub status_file : Option RuntimeStatus
  pub now : ℕ

abbrev pub running_game_pid : Os → Option ℕ
running_game_pid os = elim os.game_pids [ [] ↦ none | p ∷ _ ↦ some p ]

pub record SessionBlock : Type 0 where
  pub reason : Message
  pub bottle : Option String

abbrev pub block : Message → Option String → Option SessionBlock
block reason bottle = some (record { reason = reason; bottle = bottle })

-- The published phases that mean a launch or a session is under way.
abbrev pub is_busy_phase : SessionPhase → Bool
is_busy_phase SessionPhase.preflight = true
is_busy_phase SessionPhase.launching = true
is_busy_phase SessionPhase.running = true
is_busy_phase SessionPhase.stalled = true
is_busy_phase SessionPhase.stopping = true
is_busy_phase _ = false

abbrev game_block : Option ℕ → Option SessionBlock
game_block none = none
game_block (some pid) = block (Message.game_is_running pid) none

abbrev status_block : Os → Option RuntimeStatus → ℕ → Option SessionBlock → Option SessionBlock
status_block os none now next = next
status_block os (some rs) now next =
    if runtime_status_live os rs now then block (Message.runtime_reporting rs.state) none else next

abbrev record_block : Os → Disk → Option SessionBlock → Option SessionBlock
record_block os absent next = next
record_block os unreadable next = block Message.record_cannot_be_read none
record_block os (holds s) next =
    if is_live (classify os s)
    then block (Message.still_running s.bottle (wine_pid s)) (some s.bottle)
    else if has_live_foreign_owner os s
    then block (Message.owner_running s.owner_pid s.bottle) (some s.bottle)
    else next

abbrev phase_block : Option RunPhaseInfo → Option SessionBlock → Option SessionBlock
phase_block none next = next
phase_block (some i) next =
    if is_busy_phase i.phase
    then block (Message.launch_in_progress i.bottle i.phase) (some i.bottle)
    else next

abbrev live_block : Option LiveSessionHandle → Option SessionBlock → Option SessionBlock
live_block none next = next
live_block (some h) next = block (Message.supervising h.bottle h.identity.pid) (some h.bottle)

-- Each signal is asked only where those before it say nothing.
unfoldable pub session_block_at : Sources → Option SessionBlock
session_block_at src = live_block src.globals.live_session (
    phase_block src.globals.run_phase (
      record_block src.os src.disk
        (status_block src.os src.status_file src.now (game_block (running_game_pid src.os)))))

unfoldable pub ensure_idle_at : Sources → String → Result (Unit {0})
ensure_idle_at src action = elim (session_block_at src) [
  | none ↦ ok tt
  | some b ↦ err (SabrageError.fatal (Message.refusing_while_live action b.reason) stop_remedy)
]
