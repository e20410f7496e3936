-- ===== src/Tests/Clicks.antt =====
-- Two runs, of which one is cancelled by two clicks.
use wine_vr.Prelude.{◌≡◌, false, not, ◌&&◌, ◌≤◌, List, [], ◌∷◌}
use wine_vr.Shell.Tails.{has}
use wine_vr.Shell.Runs.{no_runs, RunEvent, starts, returns, clicked, cancel}
use wine_vr.Shell.Runs.Fired.{after, count, cancel-once}

abbrev clicking : List RunEvent
clicking = starts 4 ∷ starts 5 ∷ clicked 4 ∷ clicked 4 ∷ returns 4 ∷ []

cancel-once_example :
    (count 5 (after [] clicking no_runs).fired ≤ 1)
    × ((cancel 5 (after [] clicking no_runs)).1
        ≡ has 5 (after [] clicking no_runs).in_flight
          && not (has 5 (after [] clicking no_runs).fired))
    × ((cancel 5 (cancel 5 (after [] clicking no_runs)).0).1 ≡ false)
cancel-once_example = cancel-once clicking 5
