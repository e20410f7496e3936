-- ===== src/Session/Reconcile/Entry.antt =====
-- The two entry points of the recovery, over a record that was read from the file.
use wine_vr.Prelude.{
  ℕ, ◌≡◌, refl, sym, Bool, not, Option, none, some, List, [], ◌==◌, is_some_and, All,
}
use mathlib.Core.Path.{subst}
use wine_vr.Host.Process.{ProcInfo}
use wine_vr.Host.Phase.{RunPhaseInfo}
use wine_vr.Host.Error.{SabrageError, Message, Result, ok, err}
use wine_vr.Host.Record.{SessionState}
use wine_vr.Host.Effect.{◌>>=◌}
use wine_vr.Host.World.{warn, info, Event, Disk, absent, unreadable, holds, World, M, load}
use wine_vr.Host.Effect.Rules.{
  Post, Triple, Keeps, Triple-pure, Triple-if, Triple-bind, Keeps-after,
}
use wine_vr.Session.State.Safety.{Allowed, LogAllowed}
use wine_vr.Session.Reconcile.Classify.{
  Classification, classify, restore_mode, RestoreMode, Untouchable, untouchable,
}
use wine_vr.Session.Reconcile.Restore.{StageCtx, AudioProbe}
use wine_vr.Session.Reconcile.Pass.{
  load_record, warn_unless, reconcile_by, reconcile_ours, reconcile_loaded, reconcile_with,
  same_bottle, finish_by, finish_ours, finish_loaded, finish_stopped_session_inner,
  tolerate_reconcile_failure, finish_stopped_session_with,
}
use wine_vr.Session.Reconcile.Guarded.{Continues, signal_scope, Safe, emit_line}
use wine_vr.Session.Reconcile.Safety.{restore_and_finish-Allowed}

-- The process that a pass over `s` may signal: the recorded dashboard of a session found dead.
abbrev pub scope_of : Option RestoreMode → SessionState → Option ProcInfo
scope_of none s = none
scope_of (some mode) s = signal_scope mode s

-- What the file holds when the operation reads it.
abbrev pub Reads : StageCtx → SessionState → World → Type 0
Reads c s w = c.env.others w.tick w.disk ≡ holds s

module _ (c : StageCtx) (probe : Result (Option AudioProbe)) (s : SessionState) where
  abbrev dash : Option ProcInfo
  dash = scope_of (restore_mode (classify c.env.os s)) s

  abbrev Ok : World → Type 0
  Ok = Safe c s dash

  warn_unless-Ok : (silent : Bool) (t : Message) → Keeps Ok (warn_unless silent t)
  warn_unless-Ok silent t =
      Triple-if silent _ _ (λ _. Triple-pure _ _ _ (λ w h. h)) (λ _. emit_line c s dash warn t)

  reconcile_by-Ok :
      (class : Classification) (mode : Option RestoreMode)
      → scope_of mode s ≡ dash
      → Keeps Ok (reconcile_by c probe s class mode)
  unfolding reconcile_by
  reconcile_by-Ok class none e = Triple-pure _ _ _ (λ w h. h)
  reconcile_by-Ok class (some mode) e =
      Triple-bind (restore_and_finish-Allowed c s dash mode probe e)
        (λ r. Triple-pure _ _ _ (λ w h. h.0))

  reconcile_ours-Ok :
      (live : Option ℕ) (u : Option Untouchable) → Keeps Ok (reconcile_ours c live probe s u)
  unfolding reconcile_ours
  reconcile_ours-Ok live (some u) =
      Triple-bind (warn_unless-Ok u.silent u.reason) (λ _. Triple-pure _ _ _ (λ w h. h))
  reconcile_ours-Ok live none =
      Triple-if (is_some_and live (λ id. id == s.run_id)) _ _ (λ _. Triple-pure _ _ _ (λ w h. h))
        (λ _. reconcile_by-Ok (classify c.env.os s) (restore_mode (classify c.env.os s)) refl)

  finish_by-Ok :
      (class : Classification) (mode : Option RestoreMode)
      → scope_of mode s ≡ dash
      → Keeps Ok (finish_by c probe s class mode)
  unfolding finish_by
  finish_by-Ok class none e = emit_line c s dash warn _
  finish_by-Ok class (some mode) e =
      Triple-bind (restore_and_finish-Allowed c s dash mode probe e)
        (λ r. Triple-pure _ _ _ (λ w h. h.0))

  finish_ours-Ok : (u : Option Untouchable) → Keeps Ok (finish_ours c probe s u)
  unfolding finish_ours
  finish_ours-Ok (some u) = warn_unless-Ok u.silent u.reason
  finish_ours-Ok none = finish_by-Ok (classify c.env.os s) (restore_mode (classify c.env.os s)) refl

  finish_loaded-Ok :
      (live : Option ℕ) (phase : Option RunPhaseInfo)
      → Keeps Ok (finish_loaded c live phase probe (some s))
  unfolding finish_loaded
  finish_loaded-Ok live phase =
      Triple-if (not (same_bottle c s)) _ _ (λ _. Triple-pure _ _ _ (λ w h. h))
        (λ _.
          Triple-if (is_some_and live (λ id. id == s.run_id)) _ _
            (λ _. Triple-pure _ _ _ (λ w h. h))
            (λ _. finish_ours-Ok (untouchable c.env.os s phase)))

  load-Reads : Triple (λ w. Ok w × Reads c s w) (load c.env) (λ d w. Ok w × (d ≡ holds s)) Ok
  unfolding load
  load-Reads = record { at = λ w h. h }

  load_record-Ok :
      (d : Disk)
      → Triple (λ w. Ok w × (d ≡ holds s)) (load_record d) (λ o w. Ok w × (o ≡ some s)) Ok
  unfolding load_record
  load_record-Ok absent = Triple-pure _ _ _ (λ w h. absurd (cc (h.1)))
  load_record-Ok (holds t) = Triple-pure _ _ _ (λ w h. (h.0, cc (h.1)))
  load_record-Ok unreadable = record { at = λ w h. absurd (cc (h.1)) }

  -- From the read record on, both entry points are `k`.
  entry-Ok :
      {A : Type 0} (k : Option SessionState → M A)
      → Keeps Ok (k (some s))
      → Triple (λ w. Ok w × Reads c s w) (load c.env >>= λ d. load_record d >>= k) (λ _. Ok) Ok
  entry-Ok k hk = Triple-bind load-Reads (λ d. Triple-bind (load_record-Ok d) (λ o. record {
    at = λ w h. subst (λ x. Post (λ _. Ok) Ok (k x w).0 (k x w).1) (sym h.1) (hk.at w h.0);
  }))

  tolerate-Ok : (r : Result (Unit {0})) (w : World) → Ok w → Ok (tolerate_reconcile_failure r w).1
  unfolding tolerate_reconcile_failure
  tolerate-Ok (ok _) w h = h
  tolerate-Ok (err SabrageError.cancelled) w h = h
  tolerate-Ok (err x) w h =
      Keeps-after
        (Triple-bind (emit_line c s dash warn (Message.reconcile_failed x))
          (λ _. emit_line c s dash info Message.reconcile_retry_hint))
        w h

  nothing_yet : (w : World) → w.log ≡ [] → Ok w
  nothing_yet w e =
      subst (λ (l : List Event). All (Allowed c.env.os s.run_id dash (Continues s)) l) (sym e) tt

  -- From an empty log, whatever other processes do to the record and whatever the machine answers,
  -- `reconcile` over the record `s` overwrites no newer record and none of another run with a live
  -- foreign owner, removes only a record of the run of `s` that is neither, writes only records
  -- that continue `s` (same run, dashboard and device, no guard back to unreleased, no forward that
  -- `s` did not name), and signals no process but the recorded dashboard of a session found dead,
  -- running under its identity.
  pub reconcile_with-LogAllowed :
      (live : Option ℕ) (phase : Option RunPhaseInfo) (w : World)
      → w.log ≡ []
      → Reads c s w
      → LogAllowed c.env s.run_id
          (scope_of (restore_mode (classify c.env.os s)) s)
          (Continues s)
          (reconcile_with c live phase probe w).1
  unfolding reconcile_with reconcile_loaded
  reconcile_with-LogAllowed live phase w e r =
      Keeps-after
        (entry-Ok (reconcile_loaded c live phase probe)
          (reconcile_ours-Ok live (untouchable c.env.os s phase)))
        w (nothing_yet w e, r)

  -- From an empty log, whatever other processes do to the record and whatever the machine answers,
  -- the tail of `stop` over the record `s` overwrites no newer record and none of another run with
  -- a live foreign owner, removes only a record of the run of `s` that is neither, writes only
  -- records that continue `s`, and signals no process but the recorded dashboard of a session found
  -- dead, running under its identity; also where a failure of its own was tolerated.
  pub finish_stopped-LogAllowed :
      (live : Option ℕ) (phase : Option RunPhaseInfo) (w : World)
      → w.log ≡ []
      → Reads c s w
      → LogAllowed c.env s.run_id
          (scope_of (restore_mode (classify c.env.os s)) s)
          (Continues s)
          (finish_stopped_session_with c live phase probe w).1
  unfolding finish_stopped_session_with finish_stopped_session_inner
  finish_stopped-LogAllowed live phase w e r =
      tolerate-Ok (finish_stopped_session_inner c live phase probe w).0
        (finish_stopped_session_inner c live phase probe w).1
        (Keeps-after (entry-Ok (finish_loaded c live phase probe) (finish_loaded-Ok live phase)) w
          (nothing_yet w e, r))
