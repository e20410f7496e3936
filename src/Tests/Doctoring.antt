-- ===== src/Tests/Doctoring.antt =====
-- A contract of three checks, one of them run-only, with an evaluator for each.
use wine_vr.Prelude.{◌≡◌, refl, ◌↔◌, ◌≤◌, Bool, true, false, none, some, codes, List, [], ◌∷◌, Text}
use wine_vr.Doctor.Registry.{
  pass, warn, fail, counts_as_fail, outcome, CheckSpec, BoundCheck, Defs, built, build_registry,
  register_defs,
}
use wine_vr.Doctor.Registry.Bound.{Joined, build_registry-Joined}
use wine_vr.Doctor.Report.{run_doctor, exit_code}
use wine_vr.Doctor.Report.Counts.{Rows, Agree, rows_with, run_doctor-Agree}

abbrev spec_of : Text → Text → CheckSpec
spec_of slug group = record { slug = slug; group = group; gating = true; fix = none }

abbrev specs : List CheckSpec
specs =
    spec_of (codes "a") (codes "meta")
    ∷ spec_of (codes "b") (codes "run-only")
    ∷ spec_of (codes "c") (codes "game")
    ∷ []

-- What a check is about: whether the headset is there.
abbrev defs : Defs Bool
defs =
    (codes "c", λ there. outcome (codes "c") (elim there [ true ↦ pass | false ↦ fail ]) [])
    ∷ (codes "a", λ there. outcome (codes "a") warn [])
    ∷ (codes "b", λ there. outcome (codes "b") fail [])
    ∷ []

abbrev bound : List (BoundCheck Bool)
bound =
    record {
      spec = spec_of (codes "a") (codes "meta");
      eval = some (λ there. outcome (codes "a") warn []);
    }
    ∷ record {
      spec = spec_of (codes "b") (codes "run-only");
      eval = some (λ there. outcome (codes "b") fail []);
    }
    ∷ record {
      spec = spec_of (codes "c") (codes "game");
      eval = some (λ there. outcome (codes "c") (elim there [ true ↦ pass | false ↦ fail ]) []);
    }
    ∷ []

three_built : build_registry true specs defs ≡ built bound
unfolding build_registry register_defs
three_built = refl

build_registry-Joined_example : Joined specs defs true bound
build_registry-Joined_example = build_registry-Joined true specs defs bound three_built

run_doctor-Agree_example :
    Rows false bound (run_doctor bound false).0.outcomes
    × Agree (run_doctor bound false).0 (run_doctor bound false).1
    × ((exit_code (run_doctor bound false).0 ≡ 0)
        ↔ (rows_with counts_as_fail (run_doctor bound false).0.outcomes ≡ 0))
    × (exit_code (run_doctor bound false).0 ≤ 255)
run_doctor-Agree_example = run_doctor-Agree bound false
