-- ===== src/Session/Watcher/Snapshot.antt =====
-- session/watcher.rs: the rest of `SessionMonitor::snapshot`, step by step in the source's order.
use wine_vr.Prelude.{
  ℕ, ◌-◌, Bool, true, false, not, ◌&&◌, Option, none, some, List, [], ◌∷◌, leb, ltb, is_some_and,
  unwrap_or, opt_eq, str_eq, if◌then◌else◌,
}
use wine_vr.Host.Process.{Os}
use wine_vr.Host.Phase.{SessionPhase, RunPhaseInfo, is_idle_or_exited}
use wine_vr.Session.Status.{EncoderInfo, SessionStatus}
use wine_vr.Session.Doors.{RuntimeStatus, Sources, running_game_pid}
use wine_vr.Session.Watcher.{
  session_startup_grace_ms, stall_grace_after_fresh_ms, LogLine, SessionMonitor, Base, is_no_base,
  derive_live, reset_history, Draft, status_is_fresh, note_fresh,
}

-- The status file: its state is always shown, and believed only while fresh.
unfoldable pub read_status_file : Os → ℕ → Option RuntimeStatus → Draft → Draft
read_status_file os now none d = d
read_status_file os now (some rs) d =
    let fresh = status_is_fresh rs now d.status in
    let shown = record d {
      status = record d.status { runtime_state = some rs.state; runtime_fresh = fresh };
    } in
    let noted = if fresh then note_fresh os rs now shown else shown in
    record noted { monitor = record noted.monitor { runtime_status = some rs } }

abbrev found_game : Option ℕ → Draft → Draft
found_game none d = d
found_game (some pid) d = record d {
  base = Base.external;
  status = record d.status { phase = SessionPhase.external; pid = some pid };
}

-- A running game, asked for only where nothing else is known.
unfoldable pub scan_for_game : Os → Draft → Draft
scan_for_game os d = if is_no_base d.base then found_game (running_game_pid os) d else d

-- The last `encoder ready` line of the batch, with its own time.
unfoldable pub last_parsed : List LogLine → Option (EncoderInfo × Option ℕ)
last_parsed [] = none
last_parsed (l ∷ ls) = elim (last_parsed ls) [
  | some p ↦ some p
  | none ↦ elim l.encoder [ none ↦ none | some i ↦ some (i, l.stamp) ]
]

-- oxrsys's last state is `streaming`, the only one with a heartbeat.
abbrev pub is_streaming : SessionMonitor → Bool
is_streaming m = is_some_and m.runtime_status (λ rs. str_eq rs.state "streaming")

abbrev pub is_running : SessionPhase → Bool
is_running SessionPhase.running = true
is_running _ = false

-- `unwrap_or(u64::MAX)`: with no fresh observation the wait is past every grace.
abbrev pub stale_too_long : Option ℕ → ℕ → Bool
stale_too_long none now = true
stale_too_long (some t) now = ltb stall_grace_after_fresh_ms (now - t)

abbrev pub stall_due : ℕ → Draft → Bool
stall_due now d =
    is_running d.status.phase
    && is_streaming d.monitor
    && ltb session_startup_grace_ms (now - unwrap_or d.status.started_at_unix_ms now)
    && d.monitor.ever_fresh
    && not d.status.runtime_fresh
    && stale_too_long d.monitor.last_fresh_unix_ms now

unfoldable pub stall : ℕ → Draft → Draft
stall now d =
    if stall_due now d
    then record d { status = record d.status { phase = SessionPhase.stalled } }
    else d

abbrev is_live_base : Base → Bool
is_live_base Base.live = true
is_live_base _ = false

abbrev is_persisted_base : Base → Bool
is_persisted_base Base.persisted = true
is_persisted_base _ = false

-- Does a published phase outrank what was derived?
abbrev pub outranks_derived : SessionPhase → Base → Bool
outranks_derived SessionPhase.stopping b = true
outranks_derived SessionPhase.preflight b = not (is_live_base b)
outranks_derived SessionPhase.launching b = not (is_live_base b)
outranks_derived _ b = is_no_base b

-- The publication's identity, taken wholesale over a record of another run.
abbrev pub take_identity : RunPhaseInfo → SessionStatus → SessionStatus
take_identity i st = record st {
  run_id = some i.run_id;
  bottle = some i.bottle;
  pid = none;
  log_path = none;
  started_at_unix_ms = none;
  detached = false;
}

abbrev fill_run : RunPhaseInfo → SessionStatus → SessionStatus
fill_run i st = record st {
  run_id = some (unwrap_or st.run_id i.run_id);
  bottle = some (unwrap_or st.bottle i.bottle);
}

unfoldable pub publish : RunPhaseInfo → Base → SessionStatus → SessionStatus
publish i b st =
    let owned = record st { phase = i.phase; owned_by_this_process = true } in
    let named =
      if is_persisted_base b && not (opt_eq owned.run_id (some i.run_id))
      then take_identity i owned
      else owned in
    fill_run i named

abbrev pub is_exited : SessionPhase → Bool
is_exited SessionPhase.exited = true
is_exited _ = false

unfoldable pub weigh_published : Option RunPhaseInfo → Draft → Draft
unfolding publish
weigh_published none d = d
weigh_published (some i) d =
    let st = if outranks_derived i.phase d.base then publish i d.base d.status else d.status in
    record d {
      status =
          if is_exited i.phase && is_exited st.phase
          then record st { exit_code = i.exit_code }
          else st;
    }

abbrev pub drop_encoder : SessionMonitor → SessionMonitor
drop_encoder m = record m { encoder = none; encoder_run_id = none }

-- A session that has just settled has no encoder to report, and none crosses to another run.
unfoldable pub forget_encoder : SessionStatus → SessionMonitor → SessionMonitor
forget_encoder st m =
    let settled =
      if is_idle_or_exited st.phase && not (is_idle_or_exited m.last_phase)
      then drop_encoder m
      else m in
    if opt_eq settled.encoder_run_id st.run_id then settled else drop_encoder settled

-- A line of the preloaded history belongs to the session only if both times say so.
abbrev pub history_believable : ℕ → Option ℕ → Option ℕ → Bool
history_believable created (some started) (some written) =
    leb started created && leb started written
history_believable created _ _ = false

unfoldable pub attribute_encoder :
    Bool → Option (EncoderInfo × Option ℕ) → SessionStatus → SessionMonitor → SessionMonitor
attribute_encoder history none st m = m
attribute_encoder history (some (i, written)) st m =
    if (if history
      then history_believable m.created_at_unix_ms st.started_at_unix_ms written
      else true)
    then record m { encoder = some i; encoder_run_id = st.run_id }
    else m

unfoldable pub finish_encoder : List LogLine → Bool → Draft → SessionMonitor × SessionStatus
finish_encoder lines history d =
    let m =
      attribute_encoder history (last_parsed lines) d.status (forget_encoder d.status d.monitor) in
    (record m { last_phase = d.status.phase }, record d.status { encoder = m.encoder })

-- Everything before the published phase is weighed.
unfoldable pub derived : Sources → SessionMonitor → Draft
derived src m =
    let (st, b) = derive_live src.os src.disk src.globals.live_session in
    let d0 : Draft = record { monitor = reset_history st.run_id m; status = st; base = b } in
    let d1 = scan_for_game src.os (read_status_file src.os src.now src.status_file d0) in
    stall src.now (record d1 { monitor = record d1.monitor { preload_pending = false } })

unfoldable pub snapshot : Sources → List LogLine → SessionMonitor → SessionMonitor × SessionStatus
snapshot src lines m =
    finish_encoder lines m.preload_pending (weigh_published src.globals.run_phase (derived src m))
