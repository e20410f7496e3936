-- ===== src/Session/Watcher/Stopping.antt =====
-- What a stop does to the session that a snapshot shows.
use wine_vr.Prelude.{
  ℕ, ◌≡◌, refl, Bool, true, false, ◌||◌, Option, none, some, List, is_some, arith,
}
use wine_vr.Host.Process.{Os}
use wine_vr.Host.Phase.{SessionPhase, RunPhaseInfo}
use wine_vr.Host.World.{Disk}
use wine_vr.Session.Status.{
  SessionStatus, LiveSessionHandle, cancel_run, fire_live_token, stop_plan,
}
use wine_vr.Session.Doors.{RuntimeStatus, Sources}
use wine_vr.Session.Watcher.{LogLine, SessionMonitor, Base, Draft, derive_live, derive_persisted}
use wine_vr.Session.Watcher.Snapshot.{
  read_status_file, scan_for_game, stall, weigh_published, finish_encoder, derived, snapshot,
}

abbrev is_launching : SessionPhase → Bool
is_launching SessionPhase.preflight = true
is_launching SessionPhase.launching = true
is_launching _ = false

-- Only a record or a handle gives a run id.
abbrev has_identity : Base → Bool
has_identity Base.live = true
has_identity Base.persisted = true
has_identity _ = false

-- What is derived without the published phase: never a launch, owned only with a handle.
abbrev IsDerived : Bool → SessionStatus → Base → Type 0
IsDerived handle st b =
    (is_launching st.phase ≡ false)
    × (has_identity b ≡ false → st.run_id ≡ none)
    × (handle ≡ false → st.owned_by_this_process ≡ false)

derive-IsDerived :
    (os : Os) (d : Disk) (h : Option LiveSessionHandle)
    → IsDerived (is_some h) (derive_live os d h).0 (derive_live os d h).1
unfolding derive_live derive_persisted
derive-IsDerived os d h = ground arith

module _ (b : Bool) where
  read-IsDerived :
      (os : Os) (now : ℕ) (o : Option RuntimeStatus) (d : Draft)
      → IsDerived b d.status d.base
      → IsDerived b (read_status_file os now o d).status (read_status_file os now o d).base
  unfolding read_status_file
  read-IsDerived os now o d h = ground arith

  scan-IsDerived :
      (os : Os) (d : Draft)
      → IsDerived b d.status d.base
      → IsDerived b (scan_for_game os d).status (scan_for_game os d).base
  unfolding scan_for_game
  scan-IsDerived os d h = ground arith

  stall-IsDerived :
      (now : ℕ) (d : Draft)
      → IsDerived b d.status d.base
      → IsDerived b (stall now d).status (stall now d).base
  unfolding stall
  stall-IsDerived now d h = ground arith

derived-IsDerived :
    (src : Sources) (m : SessionMonitor)
    → IsDerived (is_some src.globals.live_session) (derived src m).status (derived src m).base
unfolding derived
derived-IsDerived src m =
    let b = is_some src.globals.live_session in
    stall-IsDerived b src.now _ (
      scan-IsDerived b src.os _ (
        read-IsDerived b src.os src.now src.status_file _
          (derive-IsDerived src.os src.disk src.globals.live_session)))

plan-launching :
    (s : SessionStatus) {id : ℕ}
    → stop_plan s ≡ cancel_run id
    → (is_launching s.phase ≡ true) × (s.run_id ≡ some id)
unfolding stop_plan
plan-launching s h = ground arith

plan-owned : (s : SessionStatus) → stop_plan s ≡ fire_live_token → s.owned_by_this_process ≡ true
unfolding stop_plan
plan-owned s h = ground arith

weigh-launching :
    (o : Option RunPhaseInfo) (d : Draft) (b : Bool) {id : ℕ}
    → IsDerived b d.status d.base
    → is_launching (weigh_published o d).status.phase ≡ true
    → (weigh_published o d).status.run_id ≡ some id
    → (i : RunPhaseInfo) × (o ≡ some i) × (i.run_id ≡ id)
unfolding weigh_published
weigh-launching none d b h p r = absurd (ground arith)
weigh-launching (some i) d b h p r = (i, refl, ground arith)

weigh-owned :
    (o : Option RunPhaseInfo) (d : Draft) (b : Bool)
    → IsDerived b d.status d.base
    → (weigh_published o d).status.owned_by_this_process ≡ true
    → (b || is_some o) ≡ true
unfolding weigh_published
weigh-owned o d b h p = ground arith

module _ (src : Sources) (lines : List LogLine) (m : SessionMonitor) where
  -- Where a stop of the session that a snapshot shows cancels a launch, it is the launch that the run
  -- stage publishes at that moment, never a run that an old record names.
  pub stop_plan-cancels :
      {id : ℕ}
      → stop_plan (snapshot src lines m).1 ≡ cancel_run id
      → (i : RunPhaseInfo) × (src.globals.run_phase ≡ some i) × (i.run_id ≡ id)
  unfolding snapshot finish_encoder
  stop_plan-cancels h =
      let (p, r) = plan-launching (snapshot src lines m).1 h in
      weigh-launching src.globals.run_phase (derived src m) (is_some src.globals.live_session)
        (derived-IsDerived src m) p r

  -- Where a stop fires the token of a supervised session, this process has a live handle or its run
  -- stage publishes a phase.
  pub stop_plan-fires :
      stop_plan (snapshot src lines m).1 ≡ fire_live_token
      → (is_some src.globals.live_session || is_some src.globals.run_phase) ≡ true
  unfolding snapshot finish_encoder
  stop_plan-fires h =
      weigh-owned src.globals.run_phase (derived src m) (is_some src.globals.live_session)
        (derived-IsDerived src m) (plan-owned (snapshot src lines m).1 h)
