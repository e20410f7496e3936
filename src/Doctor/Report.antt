-- ===== src/Doctor/Report.antt =====
-- checks/mod.rs: doctor's walk and its report, and the tally that the desktop keeps of the same walk.
pub mod Counts
use wine_vr.Prelude.{
  ℕ, zero, suc, ◌+◌, leb, Bool, true, false, List, [], ◌∷◌, ◌++◌, map, if◌then◌else◌,
}
use wine_vr.Doctor.Registry.{
  CheckStatus, CheckOutcome, BoundCheck, counts_as_fail, counts_as_warn, evaluate, doctor_checks,
}

pub record DoctorReport : Type 0 where
  pub outcomes : List CheckOutcome
  pub fail_count : ℕ
  pub warn_count : ℕ

-- `DoctorReport::exit_code`
unfoldable pub exit_code : DoctorReport → ℕ
exit_code r = if leb r.fail_count 255 then r.fail_count else 255

-- What the desktop shows of a pass: the same counts, and the rows.
pub record DoctorSummary : Type 0 where
  pub fail_count : ℕ
  pub warn_count : ℕ
  pub total : ℕ

abbrev pub add_if : Bool → ℕ → ℕ
add_if true n = n + 1
add_if false n = n

-- The desktop's sink.
unfoldable pub tally : CheckOutcome → DoctorSummary → DoctorSummary
tally o s = record {
  fail_count = add_if (counts_as_fail o.status) s.fail_count;
  warn_count = add_if (counts_as_warn o.status) s.warn_count;
  total = s.total + 1;
}

module _ {Ctx S : Type 0} where
  -- The loop, with the report so far and the state of the sink.
  unfoldable pub walk :
      (CheckOutcome → S → S) → Ctx → List (BoundCheck Ctx) → DoctorReport → S → DoctorReport × S
  walk sink ctx [] r s = (r, s)
  walk sink ctx (c ∷ rest) r s =
      let o = evaluate c ctx in
      walk sink ctx rest
        (record {
          outcomes = r.outcomes ++ o ∷ [];
          fail_count = add_if (counts_as_fail o.status) r.fail_count;
          warn_count = add_if (counts_as_warn o.status) r.warn_count;
        })
        (sink o s)

  unfoldable pub run_doctor_with :
      List (BoundCheck Ctx) → Ctx → (CheckOutcome → S → S) → S → DoctorReport × S
  run_doctor_with registry ctx sink s =
      walk sink ctx (doctor_checks registry)
        (record { outcomes = []; fail_count = 0; warn_count = 0 }) s

-- The desktop's pass: the walk with its tally.
unfoldable pub run_doctor :
    {Ctx : Type 0} → List (BoundCheck Ctx) → Ctx → DoctorReport × DoctorSummary
unfolding run_doctor_with
run_doctor registry ctx =
    run_doctor_with registry ctx tally (record { fail_count = 0; warn_count = 0; total = 0 })
