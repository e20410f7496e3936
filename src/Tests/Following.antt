-- ===== src/Tests/Following.antt =====
-- Two tails, of which one is stopped and ends, a reload of the page, and a third.
use wine_vr.Prelude.{◌≡◌, false, not, ◌&&◌, List, [], ◌∷◌}
use wine_vr.Shell.Tails.{
  no_tails, TailEvent, start, asked_to_stop, page_loads, task_ends, has, register, stop, stop_all,
}
use wine_vr.Shell.Tails.Tracked.{after, after-answers}

abbrev tailing : List TailEvent
tailing = start ∷ start ∷ asked_to_stop 1 ∷ task_ends 1 ∷ page_loads ∷ start ∷ []

after-answers_example :
    ((stop 3 (after tailing no_tails)).1
      ≡ has 3 (after tailing no_tails).running && not (has 3 (after tailing no_tails).stopped))
    × (has (register (after tailing no_tails)).1 (after tailing no_tails).running ≡ false)
    × (has (register (after tailing no_tails)).1 (after tailing no_tails).stopped ≡ false)
    × (has 3 (stop_all (after tailing no_tails)).running
          && not (has 3 (stop_all (after tailing no_tails)).stopped)
        ≡ false)
after-answers_example = after-answers tailing 3
