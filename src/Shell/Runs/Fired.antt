-- ===== src/Shell/Runs/Fired.antt =====
-- A run's token is fired at most once, and only while the run is in flight.
use wine_vr.Prelude.{
  ◌≡◌, refl, sym, ◌∙◌, ℕ, suc, ◌≤◌, Bool, true, false, not, ◌&&◌, ◌==◌, List, [], ◌∷◌,
  if◌then◌else◌, arith,
}
use wine_vr.Shell.Tails.{has}
use wine_vr.Shell.Tails.Tracked.{has-without}
use wine_vr.Shell.Runs.{
  Runs, no_runs, register, forget, cancel_registered, cancel, RunEvent, starts, returns, clicked,
  starts_if, run_step, uses,
}

-- How often an id stands in a list.
abbrev pub count : ℕ → List ℕ → ℕ
count i [] = 0
count i (x ∷ l) = if x == i then suc (count i l) else count i l

count-none : (i : ℕ) (l : List ℕ) → has i l ≡ false → count i l ≡ 0
count-none i [] h = refl
count-none i (x ∷ l) h = ground (arith, count-none i l)

-- A run is registered exactly while it is in flight and was not cancelled, and what is known of a run
-- is known only of an id that was used.
pub record Known (used : List ℕ) (r : Runs) : Type 0 where
  pub exact : (i : ℕ) → has i r.registered ≡ has i r.in_flight && not (has i r.fired)
  pub once : (i : ℕ) → count i r.fired ≤ 1
  pub fired_used : (i : ℕ) → has i r.fired ≡ true → has i used ≡ true
  pub flight_used : (i : ℕ) → has i r.in_flight ≡ true → has i used ≡ true

register-Known :
    (id : ℕ) (used : List ℕ) (r : Runs)
    → has id used ≡ false
    → Known used r
    → Known (id ∷ used) (register id r)
unfolding register
register-Known id used r fresh h = record {
  exact = λ i. ground (arith, h.exact i, h.fired_used i, has-without i id r.registered, fresh);
  once = h.once;
  fired_used = λ i k. ground (arith, h.fired_used i k);
  flight_used = λ i k. ground (arith, h.flight_used i);
}

forget-Known : (id : ℕ) (used : List ℕ) (r : Runs) → Known used r → Known used (forget id r)
unfolding forget
forget-Known id used r h = record {
  exact =
      λ i. ground (arith, h.exact i, has-without i id r.registered, has-without i id r.in_flight);
  once = h.once;
  fired_used = h.fired_used;
  flight_used = λ i k. ground (arith, h.flight_used i, has-without i id r.in_flight);
}

cancel-Known :
    (id : ℕ) (used : List ℕ) (r : Runs) (b : Bool)
    → has id r.registered ≡ b
    → Known used r
    → Known used (cancel_registered id b r).0
cancel-Known id used r false e h = h
cancel-Known id used r true e h = record {
  exact = λ i. ground (arith, h.exact i, has-without i id r.registered);
  once = λ i. ground (arith, h.once i, h.exact i, count-none i r.fired, e);
  fired_used = λ i k. ground (arith, h.fired_used i, h.exact i, h.flight_used i, e);
  flight_used = h.flight_used;
}

starts-Known :
    (id : ℕ) (used : List ℕ) (r : Runs) (b : Bool)
    → has id used ≡ b
    → Known used r
    → Known (id ∷ used) (starts_if id b r)
starts-Known id used r false e h = register-Known id used r e h
starts-Known id used r true e h = record {
  exact = h.exact;
  once = h.once;
  fired_used = λ i k. ground (arith, h.fired_used i k);
  flight_used = λ i k. ground (arith, h.flight_used i k);
}

step-Known :
    (used : List ℕ) (ev : RunEvent) (r : Runs)
    → Known used r
    → Known (uses ev used) (run_step used ev r)
unfolding run_step cancel
step-Known used (starts id) r h = starts-Known id used r (has id used) refl h
step-Known used (returns id) r h = forget-Known id used r h
step-Known used (clicked id) r h = cancel-Known id used r (has id r.registered) refl h

abbrev pub after : List ℕ → List RunEvent → Runs → Runs
after used [] r = r
after used (ev ∷ rest) r = after (uses ev used) rest (run_step used ev r)

abbrev pub used_after : List ℕ → List RunEvent → List ℕ
used_after used [] = used
used_after used (ev ∷ rest) = used_after (uses ev used) rest

after-Known :
    (used : List ℕ) (evs : List RunEvent) (r : Runs)
    → Known used r
    → Known (used_after used evs) (after used evs r)
after-Known used [] r h = h
after-Known used (ev ∷ rest) r h =
    after-Known (uses ev used) rest (run_step used ev r) (step-Known used ev r h)

no_runs-Known : Known [] no_runs
no_runs-Known = record {
  exact = λ i. refl;
  once = λ i. omega arith;
  fired_used = λ i k. absurd (cc);
  flight_used = λ i k. absurd (cc);
}

-- After any runs that start under ids of their own, return, or are cancelled by any number of
-- clicks: no run's token was fired twice; a further cancel of a run answers true exactly when the
-- run is in flight and its token was not fired; and one after that answers false.
pub cancel-once :
    (evs : List RunEvent) (id : ℕ)
    → (count id (after [] evs no_runs).fired ≤ 1)
      × ((cancel id (after [] evs no_runs)).1
          ≡ has id (after [] evs no_runs).in_flight && not (has id (after [] evs no_runs).fired))
      × ((cancel id (cancel id (after [] evs no_runs)).0).1 ≡ false)
unfolding cancel
cancel-once evs id =
    let r = after [] evs no_runs in
    let h = after-Known [] evs no_runs no_runs-Known in
    (
      h.once id,
      answers r (has id r.registered) refl (h.exact id),
      again r (has id r.registered) refl,
    )
  where
    answers :
        (r : Runs) (b : Bool)
        → has id r.registered ≡ b
        → has id r.registered ≡ has id r.in_flight && not (has id r.fired)
        → (cancel_registered id b r).1 ≡ has id r.in_flight && not (has id r.fired)
    answers r true e x = sym e ∙ x
    answers r false e x = sym e ∙ x

    again :
        (r : Runs) (b : Bool)
        → has id r.registered ≡ b
        → (cancel_registered id
            (has id (cancel_registered id b r).0.registered)
            (cancel_registered id b r).0).1
          ≡ false
    again r true e = rw (has-without id id r.registered) (ground arith)
    again r false e = rw e refl
