-- ===== src/Shell/Runs.antt =====
-- src-tauri/src/commands.rs: `RunRegistry`, with the runs that it can cancel.
pub mod Fired
use wine_vr.Prelude.{ℕ, Bool, true, false, not, ◌==◌, List, [], ◌∷◌, any, retain}
use wine_vr.Shell.Tails.{has, without}

-- The registered runs, those in flight, and those whose token was fired by a cancel, newest first.
pub record Runs : Type 0 where
  pub registered : List ℕ
  pub in_flight : List ℕ
  pub fired : List ℕ

abbrev pub no_runs : Runs
no_runs = record { registered = []; in_flight = []; fired = [] }

-- `register`: a run id has one entry.
unfoldable pub register : ℕ → Runs → Runs
register id r = record r { registered = id ∷ without id r.registered; in_flight = id ∷ r.in_flight }

-- `forget`, when the stage has returned.
unfoldable pub forget : ℕ → Runs → Runs
forget id r = record r { registered = without id r.registered; in_flight = without id r.in_flight }

abbrev pub cancel_registered : ℕ → Bool → Runs → Runs × Bool
cancel_registered id true r =
    (record r { registered = without id r.registered; fired = id ∷ r.fired }, true)
cancel_registered id false r = (r, false)

-- `cancel`: the entry is taken out, and its token is fired.
unfoldable pub cancel : ℕ → Runs → Runs × Bool
cancel id r = cancel_registered id (has id r.registered) r

-- A run starts with an id that none had, returns, or is cancelled by a click.
pub data RunEvent : Type 0 where
  starts returns clicked : ℕ → RunEvent

abbrev pub starts_if : ℕ → Bool → Runs → Runs
starts_if id true r = r
starts_if id false r = register id r

-- Run ids are never used again.
unfoldable pub run_step : List ℕ → RunEvent → Runs → Runs
run_step used (starts id) r = starts_if id (has id used) r
run_step used (returns id) r = forget id r
run_step used (clicked id) r = (cancel id r).0

abbrev pub uses : RunEvent → List ℕ → List ℕ
uses (starts id) used = id ∷ used
uses _ used = used
