-- ===== src/Shell/Tails/Tracked.antt =====
-- The registry tracks exactly the tails that run and were not stopped.
use wine_vr.Prelude.{
  ◌≡◌, refl, sym, ◌∙◌, ℕ, ◌+◌, ◌<◌, Bool, true, false, not, ◌&&◌, ◌||◌, ◌==◌, List, [], ◌∷◌, ◌++◌,
  arith,
}
use wine_vr.Shell.Tails.{
  Tails, no_tails, has, without, register, stop_tracked, stop, stop_all, drop_guard, TailEvent,
  start, asked_to_stop, page_loads, task_ends, tail_step,
}

pub has-without : (i id : ℕ) (l : List ℕ) → has i (without id l) ≡ has i l && not (i == id)
has-without i id [] = refl
has-without i id (x ∷ l) = ground (arith, has-without i id l)

has-append : (i : ℕ) (l r : List ℕ) → has i (l ++ r) ≡ has i l || has i r
has-append i [] r = refl
has-append i (x ∷ l) r = ground (arith, has-append i l r)

-- A tail is tracked where its task runs and was not told to stop, and no id is above the counter.
pub record Tracked (r : Tails) : Type 0 where
  pub exact : (i : ℕ) → has i r.tails ≡ has i r.running && not (has i r.stopped)
  pub unused_running : (i : ℕ) → r.next_id < i → has i r.running ≡ false
  pub unused_stopped : (i : ℕ) → r.next_id < i → has i r.stopped ≡ false

register-Tracked : (r : Tails) → Tracked r → Tracked (register r).0
unfolding register
register-Tracked r h = record {
  exact = λ i.
      ground (arith, h.exact i, h.unused_running (r.next_id + 1), h.unused_stopped (r.next_id + 1));
  unused_running = λ i lt. ground (arith, h.unused_running i);
  unused_stopped = λ i lt. h.unused_stopped i (omega arith);
}

stop-Tracked : (id : ℕ) (r : Tails) → Tracked r → Tracked (stop id r).0
unfolding stop
stop-Tracked id r h = go (has id r.tails) refl
  where
    go : (b : Bool) → has id r.tails ≡ b → Tracked (stop_tracked id b r).0
    go false e = h
    go true e = record {
      exact = λ i. ground (arith, h.exact i, has-without i id r.tails);
      unused_running = h.unused_running;
      unused_stopped = λ i lt. ground (arith, e, h.exact i, h.unused_running i, h.unused_stopped i);
    }

stop_all-Tracked : (r : Tails) → Tracked r → Tracked (stop_all r)
unfolding stop_all
stop_all-Tracked r h = record {
  exact = λ i. ground (arith, h.exact i, has-append i r.tails r.stopped);
  unused_running = h.unused_running;
  unused_stopped = λ i lt.
      ground
        (arith, h.exact i, has-append i r.tails r.stopped, h.unused_running i, h.unused_stopped i);
}

drop_guard-Tracked : (id : ℕ) (r : Tails) → Tracked r → Tracked (drop_guard id r)
unfolding drop_guard
drop_guard-Tracked id r h = record {
  exact = λ i. ground (arith, h.exact i, has-without i id r.tails, has-without i id r.running);
  unused_running = λ i lt. ground (arith, h.unused_running i, has-without i id r.running);
  unused_stopped = h.unused_stopped;
}

tail_step-Tracked : (ev : TailEvent) (r : Tails) → Tracked r → Tracked (tail_step ev r)
unfolding tail_step
tail_step-Tracked start r h = register-Tracked r h
tail_step-Tracked (asked_to_stop id) r h = stop-Tracked id r h
tail_step-Tracked page_loads r h = stop_all-Tracked r h
tail_step-Tracked (task_ends id) r h = drop_guard-Tracked id r h

abbrev pub after : List TailEvent → Tails → Tails
after [] r = r
after (ev ∷ rest) r = after rest (tail_step ev r)

after-Tracked : (evs : List TailEvent) (r : Tails) → Tracked r → Tracked (after evs r)
after-Tracked [] r h = h
after-Tracked (ev ∷ rest) r h = after-Tracked rest (tail_step ev r) (tail_step-Tracked ev r h)

no_tails-Tracked : Tracked no_tails
no_tails-Tracked = record {
  exact = λ i. refl;
  unused_running = λ i lt. refl;
  unused_stopped = λ i lt. refl;
}

emptied : (r : Tails) (id : ℕ) → has id (stop_all r).tails ≡ false
unfolding stop_all
emptied r id = refl

-- After any tails that start, are told to stop, end by themselves or are all stopped by a page load:
-- a stop of a tail answers true exactly when its task still runs and was not told to stop before; a
-- new tail gets an id that no running or stopped tail has; and a page load leaves no task running
-- that was not told to stop.
pub after-answers :
    (evs : List TailEvent) (id : ℕ)
    → ((stop id (after evs no_tails)).1
        ≡ has id (after evs no_tails).running && not (has id (after evs no_tails).stopped))
      × (has (register (after evs no_tails)).1 (after evs no_tails).running ≡ false)
      × (has (register (after evs no_tails)).1 (after evs no_tails).stopped ≡ false)
      × (has id (stop_all (after evs no_tails)).running
            && not (has id (stop_all (after evs no_tails)).stopped)
          ≡ false)
unfolding stop register
after-answers evs id =
    let r = after evs no_tails in
    let h = after-Tracked evs no_tails no_tails-Tracked in
    (
      ground (arith, h.exact id),
      h.unused_running (r.next_id + 1) (omega arith),
      h.unused_stopped (r.next_id + 1) (omega arith),
      stopped_all r h id,
    )
  where
    stopped_all :
        (r : Tails)
        → Tracked r
        → (id : ℕ) → (has id (stop_all r).running && not (has id (stop_all r).stopped)) ≡ false
    stopped_all r h id = sym ((stop_all-Tracked r h).exact id) ∙ emptied r id
