-- ===== src/Session/Watcher/Encoder.antt =====
-- The encoder line that a snapshot reports.
use wine_vr.Prelude.{◌≡◌, refl, sym, Bool, some, List, arith}
use mathlib.Core.Path.{subst}
use wine_vr.Session.Status.{EncoderInfo, SessionStatus}
use wine_vr.Session.Doors.{Sources}
use wine_vr.Session.Watcher.{LogLine, SessionMonitor}
use wine_vr.Session.Watcher.Snapshot.{
  last_parsed, weigh_published, finish_encoder, derived, snapshot,
}
use wine_vr.Session.Watcher.Memory.{
  Attributed, SameChip, attribute-Attributed, finish_encoder-run, weigh-monitor, derived-SameChip,
}

same-Attributed :
    (lines : List LogLine) (history : Bool) (m n : SessionMonitor) (st : SessionStatus)
    (i : EncoderInfo)
    → SameChip m n
    → Attributed lines history n st i
    → Attributed lines history m st i
same-Attributed lines history m n st i e h = ground arith

module _ (src : Sources) (lines : List LogLine) (m : SessionMonitor) {i : EncoderInfo} where
  -- A reported encoder line is the one that the monitor now remembers, under the reported run: what is
  -- remembered for one run is never published for another.
  pub snapshot-encoder_run :
      (snapshot src lines m).1.encoder ≡ some i
      → ((snapshot src lines m).0.encoder ≡ some i)
        × ((snapshot src lines m).0.encoder_run_id ≡ (snapshot src lines m).1.run_id)
  unfolding snapshot finish_encoder
  snapshot-encoder_run h =
      finish_encoder-run lines (weigh_published src.globals.run_phase (derived src m))
        m.preload_pending h

  -- A reported encoder line is the last one of this poll's batch, which in the first poll, of preloaded
  -- history, must carry a time no earlier than the start of a session older than the monitor; or it is
  -- the one remembered for the reported run, and the session has not settled in this poll.
  pub snapshot-Attributed :
      (snapshot src lines m).1.encoder ≡ some i
      → Attributed lines m.preload_pending m (snapshot src lines m).1 i
  unfolding snapshot finish_encoder
  snapshot-Attributed h =
      let d = weigh_published src.globals.run_phase (derived src m) in
      same-Attributed lines m.preload_pending m d.monitor d.status i
        (subst (SameChip m) (sym (weigh-monitor src.globals.run_phase (derived src m)))
          (derived-SameChip src m))
        (attribute-Attributed m.preload_pending d.status d.monitor lines (last_parsed lines) refl h)
