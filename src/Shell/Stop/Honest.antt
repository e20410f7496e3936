-- ===== src/Shell/Stop/Honest.antt =====
-- What the wait for a stopped session ends with, and what the stop claims.
use wine_vr.Prelude.{
  ◌≡◌, refl, ℕ, zero, suc, ◌+◌, ◌≤◌, String, Bool, true, false, Option, none, some, leb, inl, inr,
  Bool-cases, arith,
}
use Prim.Native.Nat.{◌*◌}
use wine_vr.Host.Record.{SessionState}
use wine_vr.Host.World.{Disk, holds}
use wine_vr.Session.Status.{LiveSessionHandle}
use wine_vr.Shell.Stop.{
  TeardownWait, cleared, detached, timed_out, Watch, wait_from, wait_for_slot_clear, freed, Stopped,
  ended_130, still_detached, not_finished, stop_stage, live_session_stop_timeout,
}

-- What a wait from the turn `i` on saw.
abbrev pub Seen : (ℕ → Bool) → (ℕ → ℕ) → ℕ → TeardownWait → Type 0
Seen is_clear clock deadline cleared = (j : ℕ) × (is_clear j ≡ true)
Seen is_clear clock deadline timed_out = (j : ℕ) × (is_clear j ≡ false) × (deadline ≤ clock j)
Seen is_clear clock deadline _ = ⊥

module _ (is_clear : ℕ → Bool) (clock : ℕ → ℕ) (deadline : ℕ)
    (sleeps : (i : ℕ) → clock i + 100 ≤ clock (suc i)) where
  -- Each further turn that is left is worth one sleep.
  wait_from-Seen :
      (n i : ℕ)
      → deadline ≤ clock i + 100 * n
      → (t : TeardownWait) × (wait_from is_clear clock deadline (suc n) i ≡ some t)
        × Seen is_clear clock deadline t
  unfolding wait_from
  wait_from-Seen zero i h = elim (Bool-cases (is_clear i)) [
    | inl free ↦ (cleared, rw free refl, (i, free))
    | inr held ↦ (timed_out, rw held (ground arith), (i, held, omega arith))
  ]
  wait_from-Seen (suc n) i h = elim (Bool-cases (is_clear i)) [
    | inl free ↦ (cleared, rw free refl, (i, free))
    | inr held ↦ elim (Bool-cases (leb deadline (clock i))) [
      | inl late ↦ (timed_out, rw (held, late) refl, (i, held, ground arith))
      | inr early ↦
          let rest = wait_from-Seen n (suc i) (omega (arith, sleeps i)) in
          (rest.0, rw (held, early) rest.1, rest.2)
    ]
  ]

pub wait_for_slot_clear-Seen :
    (is_clear : ℕ → Bool) (clock : ℕ → ℕ)
    → ((i : ℕ) → clock i + 100 ≤ clock (suc i))
    → (t : TeardownWait) × (wait_for_slot_clear is_clear clock live_session_stop_timeout ≡ some t)
      × Seen is_clear clock (clock 0 + live_session_stop_timeout) t
unfolding wait_for_slot_clear
wait_for_slot_clear-Seen is_clear clock sleeps =
    wait_from-Seen is_clear clock (clock 0 + live_session_stop_timeout) sleeps 300 0 (omega arith)

-- What each answer to a stop says of the session that is named by `h` when it is stopped.
abbrev pub Meant : Option String → Option LiveSessionHandle → Watch → Bool → Disk → Stopped → Type 0
Meant bottle none w root d ended_130 = Unit
Meant bottle (some h) w root d ended_130 =
    (j : ℕ) × (freed (w.slot j) h.run_id ≡ true)
    × ((s : SessionState) → root ≡ true → d ≡ holds s → s.run_id ≡ h.run_id → s.detached ≡ false)
Meant bottle (some h) w root d (still_detached b) =
    (j : ℕ) × (freed (w.slot j) h.run_id ≡ true)
    × ((s : SessionState) × (d ≡ holds s) × (s.run_id ≡ h.run_id) × (s.detached ≡ true))
Meant bottle (some h) w root d (not_finished b) =
    (j : ℕ) × (freed (w.slot j) h.run_id ≡ false)
    × (w.clock 0 + live_session_stop_timeout ≤ w.clock j)
Meant bottle none w root d (still_detached b) = ⊥
Meant bottle none w root d (not_finished b) = ⊥
Meant bottle live w root d (stop_stage b) = b ≡ bottle
