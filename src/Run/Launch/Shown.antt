-- ===== src/Run/Launch/Shown.antt =====
-- The log that a launch writes is a new one, and the one that it shows.
use wine_vr.Prelude.{◌≡◌, ℕ, zero, suc, ◌+◌, ◌≤◌, ◌<◌, false, some, List, ◌∷◌, Text, ◌⊎◌}
use wine_vr.Run.Launch.{
  LogWorld, LogEnv, log_name_attempts, holds_name, Launched, running, planned, unfinished, failed,
}

-- The names that there are after `n` looks from the look `t` on, where only other processes act.
abbrev pub drift : LogEnv → ℕ → ℕ → List Text → List Text
drift e t zero names = names
drift e t (suc n) names = e.others (t + n) (drift e t n names)

-- The launch made no name between two worlds.
pub record Along (e : LogEnv) (w v : LogWorld) : Type 0 where
  pub looks : ℕ
  pub at_look : v.tick ≡ w.tick + looks
  pub drifted : v.names ≡ drift e w.tick looks w.names

-- What a pick leaves as it was, and the attempt that it ends at.
pub record Picked (start : ℕ) (w : LogWorld) (p : (Text × ℕ) × LogWorld) : Type 0 where
  pub from_start : start ≤ p.0.1
  pub in_range : p.0.1 < log_name_attempts
  pub same_spawns : p.1.spawns ≡ w.spawns

-- The names are those of the other processes and the log, which was not among them.
abbrev pub Added : LogEnv → LogWorld → Text → LogWorld → Type 0
Added e w log v =
    (n : ℕ) × (v.tick ≡ w.tick + n)
    × (v.names ≡ log ∷ drift e w.tick n w.names)
    × (holds_name log (drift e w.tick n w.names) ≡ false)

-- The names are those of the other processes.
abbrev pub Unadded : LogEnv → LogWorld → LogWorld → Type 0
Unadded e w v = (n : ℕ) × (v.tick ≡ w.tick + n) × (v.names ≡ drift e w.tick n w.names)

-- What a launch from `w` ends with.
abbrev pub Ends : LogEnv → LogWorld → Launched × LogWorld → Type 0
Ends e w (running p log, v) =
    (v.shown ≡ some log) × Added e w log v × (v.spawns ≤ w.spawns + log_name_attempts)
Ends e w (planned, v) = Unadded e w v × (v.spawns ≡ w.spawns)
Ends e w (failed x, v) =
    (Unadded e w v
      ⊎ ((log : Text) × (v.shown ≡ some log)
          × Added e w log v
          × ((m : ℕ) × (e.uncloned m ≡ some x))))
    × (v.spawns ≤ w.spawns + log_name_attempts)
Ends e w (unfinished, v) = ⊥
