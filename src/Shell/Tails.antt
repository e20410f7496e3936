-- ===== src/Shell/Tails.antt =====
-- src-tauri/src/commands.rs: `TailRegistry`, with the tasks whose stop flags it holds.
pub mod Tracked
use wine_vr.Prelude.{ℕ, suc, ◌+◌, Bool, true, false, not, ◌==◌, List, [], ◌∷◌, ◌++◌, any, retain}

-- `next_id` and the map's keys; the tasks that run, and those whose flag was set.
pub record Tails : Type 0 where
  pub next_id : ℕ
  pub tails : List ℕ
  pub running : List ℕ
  pub stopped : List ℕ

abbrev pub no_tails : Tails
no_tails = record { next_id = 0; tails = []; running = []; stopped = [] }

abbrev pub has : ℕ → List ℕ → Bool
has id l = any (λ x. x == id) l

abbrev pub without : ℕ → List ℕ → List ℕ
without id l = retain (λ x. not (x == id)) l

-- `register`, and the task that is started with the guard: the id is one that no other tail had.
unfoldable pub register : Tails → Tails × ℕ
register r = (
  record r {
    next_id = r.next_id + 1;
    tails = (r.next_id + 1) ∷ r.tails;
    running = (r.next_id + 1) ∷ r.running;
  },
  r.next_id + 1,
)

-- The entry goes, and its flag is set.
abbrev pub stop_tracked : ℕ → Bool → Tails → Tails × Bool
stop_tracked id true r = (record r { tails = without id r.tails; stopped = id ∷ r.stopped }, true)
stop_tracked id false r = (r, false)

unfoldable pub stop : ℕ → Tails → Tails × Bool
stop id r = stop_tracked id (has id r.tails) r

-- `stop_all`
unfoldable pub stop_all : Tails → Tails
stop_all r = record r { tails = []; stopped = r.tails ++ r.stopped }

-- The task ends, however it does, and drops its guard.
unfoldable pub drop_guard : ℕ → Tails → Tails
drop_guard id r = record r { tails = without id r.tails; running = without id r.running }

pub data TailEvent : Type 0 where
  start : TailEvent
  asked_to_stop : ℕ → TailEvent
  page_loads : TailEvent
  task_ends : ℕ → TailEvent

unfoldable pub tail_step : TailEvent → Tails → Tails
tail_step start r = (register r).0
tail_step (asked_to_stop id) r = (stop id r).0
tail_step page_loads r = stop_all r
tail_step (task_ends id) r = drop_guard id r
