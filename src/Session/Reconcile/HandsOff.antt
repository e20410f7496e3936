-- ===== src/Session/Reconcile/HandsOff.antt =====
-- The records that the recovery leaves alone.
use wine_vr.Prelude.{
  ℕ, ◌≡◌, refl, sym, ap, ◌∙◌, ◌<◌, ◌&&◌, ◌⊎◌, inl, inr, Bool, true, false, not, Option, none, some,
  List, [], ◌∷◌, ◌==◌, is_some_and, ==_refl, ==_iff, All, if◌then◌else◌, arith,
}
use mathlib.Core.Path.{subst}
use wine_vr.Host.Phase.{RunPhaseInfo, is_in_flight}
use wine_vr.Host.Error.{Message, Result}
use wine_vr.Host.Process.{ProcInfo, Os, is_same_process}
use wine_vr.Host.Record.{
  SessionState, owner_identity_holds, has_live_foreign_owner, is_supported_version,
}
use wine_vr.Host.Effect.{◌>>=◌}
use wine_vr.Host.World.{warn, Event, Disk, absent, unreadable, holds, World, M, emit, load}
use wine_vr.Host.Effect.Rules.{
  Post, Triple, Keeps, Keeps-pure, Triple-pure, Triple-if, Triple-bind, Keeps-after,
}
use wine_vr.Session.Reconcile.Classify.{
  Classification, is_live, classify, classify_identity, restore_mode, Untouchable, untouchable,
  launch_in_flight,
}
use wine_vr.Session.Reconcile.Restore.{StageCtx, AudioProbe}
use wine_vr.Session.Reconcile.Pass.{
  load_record, reconcile_by, reconcile_ours, reconcile_loaded, reconcile_with,
}
use wine_vr.Session.Reconcile.Entry.{Reads}

abbrev pub IsRow : Event → Type 0
IsRow (Event.line _ _) = Unit
IsRow _ = ⊥

-- Nothing was done to the machine: the file still holds `s`, and the log has rows at most.
abbrev pub Untouched : SessionState → World → Type 0
Untouched s w = (w.disk ≡ holds s) × All IsRow w.log

-- The process that is recorded as `p` is there, under its start time.
abbrev pub IsThere : Os → ProcInfo → Type 0
IsThere os p =
    (os.is_alive p.pid ≡ true)
    × (q : ProcInfo) × (os.observe p.pid ≡ some q)
    × (q.start_time ≡ p.start_time)

-- The owner is another process that lives, under its start time where one is recorded, and so is the
-- game where one is recorded.
pub record OwnedElsewhere (os : Os) (s : SessionState) : Type 0 where
  pub has_owner : (s.owner_pid == 0) ≡ false
  pub not_self : (s.owner_pid == os.self_pid) ≡ false
  pub lives : os.is_alive s.owner_pid ≡ true
  pub same_owner :
      (t : ℕ)
      → s.owner_started_at ≡ some t
      → (q : ProcInfo) × (os.observe s.owner_pid ≡ some q) × (q.start_time ≡ t)
  pub same_game : (p : ProcInfo) → s.wine ≡ some p → IsThere os p

-- The record is not this pass's to act on: a launch of its run is in flight here, another living
-- process owns it, its version is newer than 1, this process supervises its run, or its game lives,
-- under its start time or with none recorded.
pub data NotOurs (os : Os) (live : Option ℕ) (phase : Option RunPhaseInfo) (s : SessionState)
    : Type 0 where
  in_flight :
      (i : RunPhaseInfo)
      → phase ≡ some i
      → is_in_flight i.phase ≡ true
      → i.run_id ≡ s.run_id
      → NotOurs os live phase s
  owned_elsewhere : OwnedElsewhere os s → NotOurs os live phase s
  newer : 1 < s.version → NotOurs os live phase s
  supervised : live ≡ some s.run_id → NotOurs os live phase s
  game_there :
      (p : ProcInfo)
      → s.wine ≡ some p
      → (p.pid == 0) ≡ false
      → IsThere os p
      → NotOurs os live phase s
  game_unverified :
      (p : ProcInfo)
      → s.wine ≡ some p
      → (p.pid == 0) ≡ false
      → os.is_alive p.pid ≡ true
      → p.start_time ≡ 0
      → NotOurs os live phase s

-- What the pass makes of such a record.
abbrev Left : Os → Option ℕ → Option RunPhaseInfo → SessionState → Type 0
Left os live phase s =
    ((u : Untouchable) × (untouchable os s phase ≡ some u))
    ⊎ (live ≡ some s.run_id)
    ⊎ (is_live (classify os s) ≡ true)

some-if :
    {A : Type 0} (b : Bool) (x : A) (o : Option A)
    → (b ≡ true) ⊎ ((y : A) × (o ≡ some y))
    → (y : A) × ((if b then some x else o) ≡ some y)
some-if true x o h = (x, refl)
some-if false x o (inl e) = absurd (cc)
some-if false x o (inr h) = h

IsThere-is_same_process : (os : Os) (p : ProcInfo) → IsThere os p → is_same_process os p ≡ true
unfolding is_same_process
IsThere-is_same_process os p h = ground (arith, h.0, h.2, h.3, ==_iff h.1.start_time p.start_time)

identity-of :
    (os : Os) (s : SessionState) (o : Option ℕ)
    → s.owner_started_at ≡ o
    → ((t : ℕ)
        → s.owner_started_at ≡ some t
        → (q : ProcInfo) × (os.observe s.owner_pid ≡ some q) × (q.start_time ≡ t))
    → elim o [
      | none ↦ true
      | some started_at ↦ is_some_and (os.observe s.owner_pid) (λ now. now.start_time == started_at)
    ]
      ≡ true
identity-of os s none e h = refl
identity-of os s (some t) e h = let q = h t e in ground (arith, q.1, q.2, ==_iff q.0.start_time t)

game-of :
    (os : Os) (s : SessionState) (o : Option ProcInfo)
    → s.wine ≡ o
    → ((p : ProcInfo) → s.wine ≡ some p → IsThere os p)
    → elim o [ none ↦ true | some w ↦ is_same_process os w ] ≡ true
game-of os s none e h = refl
game-of os s (some p) e h = IsThere-is_same_process os p (h p e)

OwnedElsewhere-foreign :
    (os : Os) (s : SessionState) → OwnedElsewhere os s → has_live_foreign_owner os s ≡ true
unfolding has_live_foreign_owner owner_identity_holds
OwnedElsewhere-foreign os s h =
    let owner = identity-of os s s.owner_started_at refl h.same_owner in
    let game = game-of os s s.wine refl h.same_game in
    rw (h.has_owner, h.not_self, h.lives, owner, game) refl

launch-of :
    (i : RunPhaseInfo) (phase : Option RunPhaseInfo) (s : SessionState)
    → phase ≡ some i
    → is_in_flight i.phase ≡ true
    → i.run_id ≡ s.run_id
    → launch_in_flight phase s ≡ true
launch-of i none s e h k = absurd (cc)
launch-of i (some j) s e h k =
    let same : i ≡ j = cc (e) in
    subst (λ (x : RunPhaseInfo). (is_in_flight x.phase && x.run_id == s.run_id) ≡ true) same
      (ground (arith, ==_iff i.run_id s.run_id))

untouchable-first :
    (os : Os) (s : SessionState) (phase : Option RunPhaseInfo)
    → (launch_in_flight phase s ≡ true)
      ⊎ ((has_live_foreign_owner os s ≡ true) ⊎ (not (is_supported_version s) ≡ true))
    → (u : Untouchable) × (untouchable os s phase ≡ some u)
unfolding untouchable
untouchable-first os s phase (inl h) = some-if _ _ _ (inl h)
untouchable-first os s phase (inr (inl h)) =
    some-if (launch_in_flight phase s) _ _ (inr (some-if _ _ _ (inl h)))
untouchable-first os s phase (inr (inr h)) =
    some-if (launch_in_flight phase s) _ _
      (inr (some-if (has_live_foreign_owner os s) _ _ (inr (some-if _ _ _ (inl h)))))

live-of :
    (os : Os) (s : SessionState) (p : ProcInfo) (c : Classification)
    → s.wine ≡ some p
    → is_live c ≡ true
    → classify_identity os (some p) ≡ c
    → is_live (classify os s) ≡ true
unfolding classify
live-of os s p c e l k = ap (λ o. is_live (classify_identity os o)) e ∙ ap is_live k ∙ l

classify-there :
    (os : Os) (p : ProcInfo)
    → (p.pid == 0) ≡ false
    → IsThere os p
    → classify_identity os (some p) ≡ Classification.live
unfolding classify_identity
classify-there os p n h = ground (arith, n, IsThere-is_same_process os p h)

classify-unverified :
    (os : Os) (p : ProcInfo)
    → (p.pid == 0) ≡ false
    → os.is_alive p.pid ≡ true
    → p.start_time ≡ 0
    → is_live (classify_identity os (some p)) ≡ true
unfolding classify_identity
classify-unverified os p n a z = ground arith

newer_unsupported : (s : SessionState) → 1 < s.version → not (is_supported_version s) ≡ true
unfolding is_supported_version
newer_unsupported s h = ground arith

NotOurs-Left :
    (os : Os) (live : Option ℕ) (phase : Option RunPhaseInfo) (s : SessionState)
    → NotOurs os live phase s
    → Left os live phase s
NotOurs-Left os live phase s (in_flight i e h k) =
    inl (untouchable-first os s phase (inl (launch-of i phase s e h k)))
NotOurs-Left os live phase s (owned_elsewhere h) =
    inl (untouchable-first os s phase (inr (inl (OwnedElsewhere-foreign os s h))))
NotOurs-Left os live phase s (newer h) =
    inl (untouchable-first os s phase (inr (inr (newer_unsupported s h))))
NotOurs-Left os live phase s (supervised e) = inr (inl e)
NotOurs-Left os live phase s (game_there p e n h) =
    inr (inr (live-of os s p Classification.live e refl (classify-there os p n h)))
NotOurs-Left os live phase s (game_unverified p e n a z) =
    inr (inr (live-of os s p _ e (classify-unverified os p n a z) refl))

nothing-rows : (l : List Event) → l ≡ [] → All IsRow l
nothing-rows [] e = tt
nothing-rows (x ∷ l) e = cc

load_record-Untouched :
    (s : SessionState) (d : Disk)
    → Triple
        (λ w. Untouched s w × (d ≡ holds s))
        (load_record d)
        (λ o w. Untouched s w × (o ≡ some s))
        (Untouched s)
unfolding load_record
load_record-Untouched s absent = Triple-pure _ _ _ (λ w h. absurd (cc (h.1)))
load_record-Untouched s (holds t) = Triple-pure _ _ _ (λ w h. (h.0, cc (h.1)))
load_record-Untouched s unreadable = record { at = λ w h. absurd (cc (h.1)) }

-- From the read record on, the entry point is `k`.
entry-Untouched :
    (c : StageCtx) (probe : Result (Option AudioProbe)) (s : SessionState) {A : Type 0}
    (k : Option SessionState → M A)
    → Keeps (Untouched s) (k (some s))
    → Triple
        (λ w. (w.log ≡ []) × Reads c s w)
        (load c.env >>= λ d. load_record d >>= k)
        (λ _. Untouched s)
        (Untouched s)
unfolding load
entry-Untouched c probe s k hk =
    Triple-bind {Q = λ d w. Untouched s w × (d ≡ holds s)}
      (record { at = λ w h. ((h.1, nothing-rows w.log h.0), h.1) })
      (λ d. Triple-bind (load_record-Untouched s d) (λ o. record {
        at = λ w h.
            subst (λ x. Post (λ _. Untouched s) (Untouched s) (k x w).0 (k x w).1) (sym h.1)
              (hk.at w h.0);
      }))

module _ (c : StageCtx) (probe : Result (Option AudioProbe)) (s : SessionState) where
  row-Untouched : (t : Message) → Keeps (Untouched s) (emit (Event.line warn t))
  unfolding emit
  row-Untouched t = record { at = λ w h. (h.0, (tt, h.1)) }

  reconcile_by-Untouched :
      (class : Classification)
      → is_live class ≡ true
      → Keeps (Untouched s) (reconcile_by c probe s class (restore_mode class))
  unfolding reconcile_by
  reconcile_by-Untouched Classification.live e = Keeps-pure _
  reconcile_by-Untouched Classification.unverifiable e = Keeps-pure _
  reconcile_by-Untouched _ e = cc

  ours-Untouched :
      (live : Option ℕ)
      → (live ≡ some s.run_id) ⊎ (is_live (classify c.env.os s) ≡ true)
      → Keeps (Untouched s) (reconcile_ours c live probe s none)
  unfolding reconcile_ours
  ours-Untouched live (inl e) =
      Triple-if (is_some_and live (λ id. id == s.run_id)) _ _ (λ _. Keeps-pure _)
        (λ n. absurd (ground (arith, ==_refl s.run_id)))
  ours-Untouched live (inr e) =
      Triple-if (is_some_and live (λ id. id == s.run_id)) _ _ (λ _. Keeps-pure _)
        (λ _. reconcile_by-Untouched (classify c.env.os s) e)

  decided-Untouched :
      (live : Option ℕ) (o : Option Untouchable)
      → ((u : Untouchable) × (o ≡ some u))
        ⊎ (live ≡ some s.run_id)
        ⊎ (is_live (classify c.env.os s) ≡ true)
      → Keeps (Untouched s) (reconcile_ours c live probe s o)
  unfolding reconcile_ours
  decided-Untouched live (some u) k =
      Triple-bind (Triple-if u.silent _ _ (λ _. Keeps-pure tt) (λ _. row-Untouched u.reason))
        (λ _. Keeps-pure _)
  decided-Untouched live none (inl (u, e)) = cc
  decided-Untouched live none (inr k) = ours-Untouched live k

  -- A record whose launch is in flight here, whose owner is another living process (with its game, if
  -- one is recorded), whose version is newer than 1, whose run this process still supervises, or
  -- whose game lives, under its start time or with none recorded, where a pid of 0 stands for no
  -- process: from an empty log, `reconcile` does nothing to the machine but read, leaves the file as
  -- it was, and emits rows only.
  pub reconcile_with-Untouched :
      (live : Option ℕ) (phase : Option RunPhaseInfo) (w : World)
      → w.log ≡ []
      → Reads c s w
      → NotOurs c.env.os live phase s
      → Untouched s (reconcile_with c live phase probe w).1
  unfolding reconcile_with reconcile_loaded load_record load
  reconcile_with-Untouched live phase w e r k =
      Keeps-after
        (entry-Untouched c probe s (reconcile_loaded c live phase probe) (
          decided-Untouched live (untouchable c.env.os s phase)
            (NotOurs-Left c.env.os live phase s k)))
        w (e, r)
