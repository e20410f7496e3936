-- ===== src/Session/Watcher/Memory.antt =====
-- What the monitor may remember from one poll to the next.
use wine_vr.Prelude.{
  ℕ, ◌≡◌, refl, ap, ◌∙◌, Bool, true, false, not, ◌&&◌, Option, none, some, List, arith, leb, ◌⊎◌,
  inl, inr, Bool-cases, is_some_and, opt_eq, if◌then◌else◌,
}
use wine_vr.Host.Process.{Os}
use wine_vr.Host.Phase.{RunPhaseInfo, is_idle_or_exited}
use wine_vr.Session.Status.{EncoderInfo, SessionStatus}
use wine_vr.Session.Doors.{RuntimeStatus, Sources}
use wine_vr.Session.Watcher.{LogLine, SessionMonitor, Base, derive_live, Draft, reset_history}
use wine_vr.Session.Watcher.Snapshot.{
  read_status_file, scan_for_game, last_parsed, stall, weigh_published, forget_encoder,
  history_believable, attribute_encoder, finish_encoder, derived,
}

opt_eq_eq : (a b : Option ℕ) → opt_eq a b ≡ true → a ≡ b
opt_eq_eq a b h = ground arith

forget_encoder-run :
    (st : SessionStatus) (m : SessionMonitor) {i : EncoderInfo}
    → (forget_encoder st m).encoder ≡ some i
    → (forget_encoder st m).encoder_run_id ≡ st.run_id
unfolding forget_encoder
forget_encoder-run st m h = ground (arith, opt_eq_eq m.encoder_run_id st.run_id)

attribute_encoder-run :
    (history : Bool) (o : Option (EncoderInfo × Option ℕ)) (st : SessionStatus) (m : SessionMonitor)
    {i : EncoderInfo}
    → ((j : EncoderInfo) → m.encoder ≡ some j → m.encoder_run_id ≡ st.run_id)
    → (attribute_encoder history o st m).encoder ≡ some i
    → (attribute_encoder history o st m).encoder_run_id ≡ st.run_id
unfolding attribute_encoder
attribute_encoder-run history o st m {i} k h = ground (arith, k i)

-- Where a reported encoder line comes from: the last one of this poll's batch, which in the preloaded
-- history must be no older than the session, itself older than the monitor; or the one remembered for
-- the run being reported, which has not just settled.
abbrev pub Attributed : List LogLine → Bool → SessionMonitor → SessionStatus → EncoderInfo → Type 0
Attributed lines history m st i =
    ((written : Option ℕ) × (last_parsed lines ≡ some (i, written))
      × (history ≡ true
          → is_some_and st.started_at_unix_ms (λ started.
            is_some_and written (λ t. leb started m.created_at_unix_ms && leb started t))
            ≡ true))
    ⊎ ((m.encoder ≡ some i)
        × (m.encoder_run_id ≡ st.run_id)
        × ((is_idle_or_exited st.phase && not (is_idle_or_exited m.last_phase)) ≡ false))

module _ (lines : List LogLine) (d : Draft) where
  pub finish_encoder-run :
      (history : Bool) {i : EncoderInfo}
      → (finish_encoder lines history d).1.encoder ≡ some i
      → ((finish_encoder lines history d).0.encoder ≡ some i)
        × ((finish_encoder lines history d).0.encoder_run_id ≡ d.status.run_id)
  unfolding finish_encoder
  finish_encoder-run history h = (
    h,
    attribute_encoder-run history (last_parsed lines) d.status (forget_encoder d.status d.monitor)
        (λ j e. forget_encoder-run d.status d.monitor e) h,
  )

forget_encoder-kept :
    (st : SessionStatus) (m : SessionMonitor) {i : EncoderInfo}
    → (forget_encoder st m).encoder ≡ some i
    → (m.encoder ≡ some i)
      × (m.encoder_run_id ≡ st.run_id)
      × ((is_idle_or_exited st.phase && not (is_idle_or_exited m.last_phase)) ≡ false)
unfolding forget_encoder
forget_encoder-kept st m h = ground (arith, opt_eq_eq m.encoder_run_id st.run_id)

forget_encoder-created :
    (st : SessionStatus) (m : SessionMonitor)
    → (forget_encoder st m).created_at_unix_ms ≡ m.created_at_unix_ms
unfolding forget_encoder
forget_encoder-created st m = ground arith

believed :
    (history : Bool) (created : ℕ) (started written : Option ℕ)
    → (if history then history_believable created started written else true) ≡ true
    → history ≡ true
    → is_some_and started (λ s. is_some_and written (λ t. leb s created && leb s t)) ≡ true
believed history created started written h p = ground arith

pub attribute-Attributed :
    (history : Bool) (st : SessionStatus) (m : SessionMonitor) (lines : List LogLine)
    (o : Option (EncoderInfo × Option ℕ)) {i : EncoderInfo}
    → last_parsed lines ≡ o
    → (attribute_encoder history o st (forget_encoder st m)).encoder ≡ some i
    → Attributed lines history m st i
unfolding attribute_encoder
attribute-Attributed history st m lines none p h = inr (forget_encoder-kept st m h)
attribute-Attributed history st m lines (some (j, written)) {i} p h =
    let test =
      if history
      then history_believable m.created_at_unix_ms st.started_at_unix_ms written
      else true in
    let h' = rw (forget_encoder-created st m) at h in
    elim (Bool-cases test) [
      | inl fits ↦
          (let same : some j ≡ some i = rw fits at h' in
            inl (
              written,
              cc,
              believed history m.created_at_unix_ms st.started_at_unix_ms written fits,
            ))
      | inr misfits ↦ inr (forget_encoder-kept st m (rw misfits at h'))
    ]

-- The monitor's memory through the steps before the encoder line.
pub read-memory :
    (os : Os) (now : ℕ) (o : Option RuntimeStatus) (d : Draft)
    → (read_status_file os now o d).status.runtime_fresh ≡ false
    → ((read_status_file os now o d).monitor.ever_fresh ≡ d.monitor.ever_fresh)
      × ((read_status_file os now o d).monitor.last_fresh_unix_ms ≡ d.monitor.last_fresh_unix_ms)
unfolding read_status_file
read-memory os now o d h = ground arith

pub scan-memory :
    (os : Os) (d : Draft)
    → ((scan_for_game os d).monitor ≡ d.monitor)
      × ((scan_for_game os d).status.runtime_fresh ≡ d.status.runtime_fresh)
unfolding scan_for_game
scan-memory os d = ground arith

pub reset-memory :
    (run_id : Option ℕ) (m : SessionMonitor)
    → (reset_history run_id m).ever_fresh ≡ true
    → ((reset_history run_id m).last_fresh_unix_ms ≡ m.last_fresh_unix_ms)
      × (m.ever_fresh ≡ true)
      × (m.fresh_run_id ≡ run_id)
unfolding reset_history
reset-memory run_id m h = ground (arith, opt_eq_eq m.fresh_run_id run_id)

-- The part of the monitor that only the encoder line and the phase change.
abbrev pub SameChip : SessionMonitor → SessionMonitor → Type 0
SameChip m n =
    (n.encoder ≡ m.encoder)
    × (n.encoder_run_id ≡ m.encoder_run_id)
    × (n.created_at_unix_ms ≡ m.created_at_unix_ms)
    × (n.last_phase ≡ m.last_phase)

read-SameChip :
    (os : Os) (now : ℕ) (o : Option RuntimeStatus) (d : Draft)
    → SameChip d.monitor (read_status_file os now o d).monitor
unfolding read_status_file
read-SameChip os now o d = ground arith

reset-SameChip : (run_id : Option ℕ) (m : SessionMonitor) → SameChip m (reset_history run_id m)
unfolding reset_history
reset-SameChip run_id m = ground arith

stall-monitor : (now : ℕ) (d : Draft) → (stall now d).monitor ≡ d.monitor
unfolding stall
stall-monitor now d = ground arith

pub weigh-monitor :
    (o : Option RunPhaseInfo) (d : Draft) → (weigh_published o d).monitor ≡ d.monitor
unfolding weigh_published
weigh-monitor none d = refl
weigh-monitor (some i) d = refl

-- The draft before the game scan, the scan's, and the monitor that `derived` ends with.
module _ (src : Sources) (m : SessionMonitor) where
  abbrev pub first : SessionStatus × Base
  first = derive_live src.os src.disk src.globals.live_session

  abbrev pub opened : Draft
  opened = record { monitor = reset_history first.0.run_id m; status = first.0; base = first.1 }

  abbrev pub read : Draft
  read = read_status_file src.os src.now src.status_file opened

  abbrev pub scanned : Draft
  scanned = scan_for_game src.os read

  pub derived-monitor : (derived src m).monitor ≡ record read.monitor { preload_pending = false }
  unfolding derived
  derived-monitor =
      stall-monitor src.now
        (record scanned { monitor = record scanned.monitor { preload_pending = false } })
      ∙ ap {A = SessionMonitor} (λ n. record n { preload_pending = false })
          (scan-memory src.os read).0

  pub derived-SameChip : SameChip m (derived src m).monitor
  derived-SameChip = ground (
    arith,
    derived-monitor,
    read-SameChip src.os src.now src.status_file opened,
    reset-SameChip first.0.run_id m,
  )
