-- ===== src/Logs/Poll/Fifo.antt =====
-- logs.rs: the lines that wait go out in order, and never under the marker of a later rotation.
use mathlib.Core.List.{append-nil}
use wine_vr.Prelude.{
  ◌≡◌, refl, sym, ap, ◌∙◌, ℕ, suc, ◌≤◌, Bool, true, false, not, ◌||◌, Option, none, some, List, [],
  ◌++◌, ltb, length, is_empty, Text, arith,
}
use wine_vr.Host.Error.{Result, ok, err}
use wine_vr.Host.Effect.{◌>>◌}
use wine_vr.Host.Effect.Rules.{
  Post, Triple, Triple-pure, Triple-if, Triple-bind, Triple-conseq, Triple-weaken, Triple-given,
}
use wine_vr.Logs.Tailer.{Tailer, LogBatch}
use wine_vr.Logs.Tailer.Queue.{drain_capped-Drained}
use wine_vr.Logs.Poll.{
  Meta, Answers, modify, drain, unopened, is_other, rewritten, is_rotated, restarted, carried,
  poll_byte_budget, undone, marker_due, marked, announce, end_read, read_batch, reopen, poll_file,
  poll,
}
use wine_vr.Logs.Poll.Grown.{
  On-current, On-modify, On-answer, length-append, Grown, Same, Same-Grown, read_on-Grown,
  straddles-Grown, undone-Grown, marked-Grown,
}

module _ (t0 : Tailer) (bound : t0.carry ≤ length t0.pending) where
  -- What went out and what waits is what waited and what is new.
  abbrev pub Fifo : LogBatch → Tailer → Type 0
  Fifo batch t =
      ((new : List Text) × (batch.lines ++ t.pending ≡ t0.pending ++ new))
      × (batch.rotated ≡ true → t0.carry ≡ 0)
      × (t.carry ≤ length t.pending)

  Grown-bound : (t : Tailer) → (Grown t0) t → t.carry ≤ length t.pending
  Grown-bound t h = ground (arith, h.0.1, h.1, length-append t0.pending h.0.0, bound)

  drain-Fifo :
      (rotated more : Bool)
      → (rotated ≡ true → t0.carry ≡ 0)
      → (E : Tailer → Type 0) → Triple (Grown t0) (drain rotated more) Fifo E
  unfolding drain
  drain-Fifo rotated more k E = record {
    at = λ t h. (
      (h.0.0, (drain_capped-Drained t).0 ∙ h.0.1),
      k,
      (drain_capped-Drained t).5 (Grown-bound t h),
    );
  }

  plain_drain-Fifo : (E : Tailer → Type 0) → Triple (Grown t0) (drain false false) Fifo E
  plain_drain-Fifo E = drain-Fifo false false (λ e. absurd (cc)) E

  announce-Fifo :
      (rotated : Bool) (consumed : ℕ)
      → (rotated ≡ true → t0.carry ≡ 0)
      → Triple (Grown t0) (announce rotated consumed) Fifo (Grown t0)
  unfolding announce
  announce-Fifo rotated consumed k =
      Triple-bind (On-modify (Grown t0) _ (Grown t0) (Grown t0) (λ t h. h)) (λ u.
        Triple-bind (On-current (Grown t0) (Grown t0)) (λ t.
          Triple-bind
            (On-modify (λ v. (Grown t0) t × (Grown t0) v) (marked rotated)
              (λ v. (Grown t0) v × (Grown t0) t) (Grown t0)
              (λ v h. (marked-Grown t0 rotated v h.1, h.0)))
            (λ v. Triple-given (λ g.
              drain-Fifo (rotated || marker_due rotated t) (not (ltb consumed poll_byte_budget))
                (due t g) (Grown t0)))))
    where
      due : (t : Tailer) → (Grown t0) t → (rotated || marker_due rotated t) ≡ true → t0.carry ≡ 0
      due t g e = ground (arith, k, g.1)

  end_read-Fifo :
      (rotated : Bool) (n consumed : ℕ) (straddled : Bool)
      → n ≡ length t0.pending
      → (rotated ≡ true → t0.carry ≡ 0)
      → Triple (Grown t0) (end_read rotated n consumed straddled) Fifo (Grown t0)
  end_read-Fifo rotated n consumed true e k =
      Triple-bind
        (On-modify (Grown t0) (undone n) (Grown t0) (Grown t0) (λ t h. undone-Grown t0 n t e h))
        (λ u. plain_drain-Fifo (Grown t0))
  end_read-Fifo rotated n consumed false e k = announce-Fifo rotated consumed k

  read_batch-Fifo :
      (a : Answers) (m : Meta) (rotated : Bool)
      → (rotated ≡ true → t0.carry ≡ 0)
      → Triple (Same t0) (read_batch a m rotated) Fifo (Grown t0)
  unfolding read_batch
  read_batch-Fifo a m rotated k = Triple-bind (On-current (Same t0) (Grown t0)) (λ before.
      Triple-conseq (λ t h. (Same-Grown t0 t h.1, h.0))
        (Triple-given (λ s. Triple-bind (read_on-Grown t0 a (suc poll_byte_budget) 0) (λ consumed.
          Triple-bind (straddles-Grown t0 a m before consumed) (λ straddled.
            end_read-Fifo rotated (length before.pending) consumed straddled (ap length s.0) k))))
        (λ b t h. h))

  -- The look at the bytes before the cursor changes nothing.
  is_rotated-Same :
      (a : Answers) (m : Meta) → Triple (Same t0) (is_rotated a m) (λ b. (Same t0)) (Same t0)
  unfolding is_rotated rewritten
  is_rotated-Same a m = Triple-bind (On-current (Same t0) (Same t0)) (λ t.
      Triple-conseq (λ v h. h.1)
        (Triple-if (is_other t m) _ _ (λ other. Triple-pure _ _ _ (λ v h. h))
          (λ same. Triple-bind (On-answer (Same t0) a.seen) (λ s. Triple-pure _ _ _ (λ v h. h))))
        (λ b v h. h))

  none_waits : is_empty t0.pending ≡ true → t0.carry ≡ 0
  none_waits e = ground arith

  -- All that waits is carried.
  abbrev Carried : Tailer → Type 0
  Carried t = (t.pending ≡ t0.pending) × (t.carry ≤ length t.pending)

  drain-Carried-Fifo : Triple Carried (drain false false) Fifo (Grown t0)
  unfolding drain
  drain-Carried-Fifo = record {
    at = λ t h. (
      ([], (drain_capped-Drained t).0 ∙ h.0 ∙ sym (append-nil t0.pending)),
      (λ e. absurd (cc)),
      (drain_capped-Drained t).5 h.1,
    );
  }

  carried-Fifo : Triple (Same t0) (modify carried >> drain false false) Fifo (Grown t0)
  carried-Fifo =
      Triple-bind (On-modify (Same t0) carried Carried (Grown t0) (λ t h. (h.0, omega arith)))
        (λ u. drain-Carried-Fifo)

  reopen-Fifo : (a : Answers) (m : Meta) → Triple (Same t0) (reopen a m) Fifo (Grown t0)
  unfolding reopen
  reopen-Fifo a m =
      Triple-bind
        (Triple-weaken (On-answer (Same t0) a.reopened) (λ u t h. h) (λ t h. Same-Grown t0 t h))
        (λ u. Triple-bind (On-current (Same t0) (Grown t0)) (λ t.
          Triple-bind
            (On-modify (λ v. (Same t0) t × (Same t0) v) (restarted m.id)
              (λ v. (Same t0) v × (Same t0) t) (Grown t0) (λ v h. (h.1, h.0)))
            (λ v. Triple-given (λ s.
              Triple-if (is_empty t.pending) _ _
                (λ e. read_batch-Fifo a m true (λ r. none_waits (ap is_empty (sym s.0) ∙ e)))
                (λ e. carried-Fifo)))))

  poll_file-Fifo :
      (a : Answers) (o : Option Meta) → Triple (Same t0) (poll_file a o) Fifo (Grown t0)
  unfolding poll_file
  poll_file-Fifo a none =
      Triple-bind (On-modify (Same t0) unopened (Grown t0) (Grown t0) (λ t h. Same-Grown t0 t h))
        (λ u. plain_drain-Fifo (Grown t0))
  poll_file-Fifo a (some m) =
      Triple-bind (Triple-weaken (is_rotated-Same a m) (λ b t h. h) (λ t h. Same-Grown t0 t h))
        (λ rotated.
          Triple-if rotated _ _ (λ yes. reopen-Fifo a m)
            (λ no. read_batch-Fifo a m false (λ e. absurd (cc))))

  poll-Same : (a : Answers) → Triple (Same t0) (poll a) Fifo (Grown t0)
  unfolding poll
  poll-Same a =
      Triple-bind
        (Triple-weaken (On-answer (Same t0) a.meta) (λ o t h. h) (λ t h. Same-Grown t0 t h))
        (λ o. poll_file-Fifo a o)

  -- Whatever the file system answers, a batch that a poll returns and the lines that wait behind it
  -- are the lines that waited and then new ones, and a batch that is announced as another file's
  -- comes from a tailer that carried no lines over a rotation; a poll that fails loses no line.
  pub poll-Fifo : (a : Answers) → Post Fifo (Grown t0) (poll a t0).0 (poll a t0).1
  poll-Fifo a = (poll-Same a).at t0 (refl, refl)

  bounded :
      (r : Result LogBatch) (t : Tailer) → Post Fifo (Grown t0) r t → t.carry ≤ length t.pending
  bounded (ok b) t h = h.2
  bounded (err x) t h = Grown-bound t h

  -- A poll keeps what is carried within what waits.
  pub poll-carry : (a : Answers) → (poll a t0).1.carry ≤ length (poll a t0).1.pending
  poll-carry a = bounded (poll a t0).0 (poll a t0).1 (poll-Fifo a)
