-- ===== src/Doctor/Report/Counts.antt =====
-- What the counts of a doctor pass count.
use mathlib.Core.List.{append_assoc, append-nil}
use mathlib.Core.Path.{subst}
use wine_vr.Prelude.{
  ◌≡◌, refl, sym, ap, ◌∙◌, ◌↔◌, ℕ, ◌+◌, ◌≤◌, Bool, List, [], ◌∷◌, ◌++◌, map, length, retain, arith,
  codes, text_eq, text_eq_iff, Bool-cases, inl, inr,
}
use wine_vr.Doctor.Registry.{
  CheckStatus, CheckOutcome, BoundCheck, counts_as_fail, counts_as_warn, evaluate, doctor_checks,
}
use wine_vr.Doctor.Report.{
  DoctorReport, exit_code, DoctorSummary, add_if, tally, walk, run_doctor_with, run_doctor,
}

-- How many rows have a status that `p` counts.
abbrev pub rows_with : (CheckStatus → Bool) → List CheckOutcome → ℕ
rows_with p os = length (retain (λ o. p o.status) os)

rows_with-last :
    (p : CheckStatus → Bool) (os : List CheckOutcome) (o : CheckOutcome)
    → rows_with p (os ++ o ∷ []) ≡ add_if (p o.status) (rows_with p os)
rows_with-last p [] o = ground arith
rows_with-last p (x ∷ os) o = ground (arith, rows_with-last p os o)

-- The report counts its rows, and the summary says the same.
pub record Agree (r : DoctorReport) (s : DoctorSummary) : Type 0 where
  pub fails : r.fail_count ≡ rows_with counts_as_fail r.outcomes
  pub warns : r.warn_count ≡ rows_with counts_as_warn r.outcomes
  pub same_fails : s.fail_count ≡ r.fail_count
  pub same_warns : s.warn_count ≡ r.warn_count
  pub all_rows : s.total ≡ length r.outcomes

length-last : (os : List CheckOutcome) (o : CheckOutcome) → length (os ++ o ∷ []) ≡ length os + 1
length-last [] o = refl
length-last (x ∷ os) o = omega (arith, length-last os o)

abbrev with_row : CheckOutcome → DoctorReport → DoctorReport
with_row o r = record {
  outcomes = r.outcomes ++ o ∷ [];
  fail_count = add_if (counts_as_fail o.status) r.fail_count;
  warn_count = add_if (counts_as_warn o.status) r.warn_count;
}

row-Agree :
    (o : CheckOutcome) (r : DoctorReport) (s : DoctorSummary)
    → Agree r s
    → Agree (with_row o r) (tally o s)
unfolding tally
row-Agree o r s h = record {
  fails =
      ap (add_if (counts_as_fail o.status)) h.fails
      ∙ sym (rows_with-last counts_as_fail r.outcomes o);
  warns =
      ap (add_if (counts_as_warn o.status)) h.warns
      ∙ sym (rows_with-last counts_as_warn r.outcomes o);
  same_fails = ap (add_if (counts_as_fail o.status)) h.same_fails;
  same_warns = ap (add_if (counts_as_warn o.status)) h.same_warns;
  all_rows = omega (arith, h.all_rows, length-last r.outcomes o);
}

module _ {Ctx : Type 0} (ctx : Ctx) where
  walk-Agree :
      (cs : List (BoundCheck Ctx)) (r : DoctorReport) (s : DoctorSummary)
      → Agree r s
      → Agree (walk tally ctx cs r s).0 (walk tally ctx cs r s).1
  unfolding walk
  walk-Agree [] r s h = h
  walk-Agree (c ∷ rest) r s h =
      walk-Agree rest (with_row (evaluate c ctx) r) (tally (evaluate c ctx) s)
        (row-Agree (evaluate c ctx) r s h)

  -- The outcomes of the checks in their order, without those of the run-only group.
  pub data Rows : List (BoundCheck Ctx) → List CheckOutcome → Type 0 where
    no_more : Rows [] []
    run_only :
        {c : BoundCheck Ctx} {cs : List (BoundCheck Ctx)} {os : List CheckOutcome}
        → c.spec.group ≡ codes "run-only"
        → Rows cs os
        → Rows (c ∷ cs) os
    shown :
        {c : BoundCheck Ctx} {cs : List (BoundCheck Ctx)} {os : List CheckOutcome}
        → ¬ (c.spec.group ≡ codes "run-only")
        → Rows cs os
        → Rows (c ∷ cs) (evaluate c ctx ∷ os)

  doctor_checks-Rows :
      (cs : List (BoundCheck Ctx)) → Rows cs (map (λ c. evaluate c ctx) (doctor_checks cs))
  unfolding doctor_checks
  doctor_checks-Rows [] = no_more
  doctor_checks-Rows (c ∷ cs) = elim (Bool-cases (text_eq c.spec.group (codes "run-only"))) [
    | inl same ↦
        rw same
          (run_only ((text_eq_iff c.spec.group (codes "run-only")).0 same) (doctor_checks-Rows cs))
    | inr differs ↦ rw differs (
        shown (λ e. cc (differs, (text_eq_iff c.spec.group (codes "run-only")).1 e))
          (doctor_checks-Rows cs))
  ]

  walk-outcomes :
      {S : Type 0} (sink : CheckOutcome → S → S) (cs : List (BoundCheck Ctx)) (r : DoctorReport)
      (s : S)
      → (walk sink ctx cs r s).0.outcomes ≡ r.outcomes ++ map (λ c. evaluate c ctx) cs
  unfolding walk
  walk-outcomes sink [] r s = sym (append-nil r.outcomes)
  walk-outcomes sink (c ∷ rest) r s =
      walk-outcomes sink rest (with_row (evaluate c ctx) r) (sink (evaluate c ctx) s)
      ∙ append_assoc r.outcomes (evaluate c ctx ∷ []) (map (λ x. evaluate x ctx) rest)

exit_code-zero : (r : DoctorReport) → (exit_code r ≡ 0) ↔ (r.fail_count ≡ 0)
unfolding exit_code
exit_code-zero r = (λ h. ground arith, λ h. ground arith)

exit_code-le : (r : DoctorReport) → exit_code r ≤ 255
unfolding exit_code
exit_code-le r = ground arith

-- A pass of doctor shows, in the registry's order, the outcome of each check that is not a run-only
-- one and no other; its two counts are the numbers of the failed and the warning rows; its exit code
-- is 0 exactly where no row failed, and at most 255; and the desktop's summary of the same pass has
-- the same counts and the number of the rows.
pub run_doctor-Agree :
    {Ctx : Type 0} (registry : List (BoundCheck Ctx)) (ctx : Ctx)
    → Rows ctx registry (run_doctor registry ctx).0.outcomes
      × Agree (run_doctor registry ctx).0 (run_doctor registry ctx).1
      × ((exit_code (run_doctor registry ctx).0 ≡ 0)
          ↔ (rows_with counts_as_fail (run_doctor registry ctx).0.outcomes ≡ 0))
      × (exit_code (run_doctor registry ctx).0 ≤ 255)
unfolding run_doctor run_doctor_with
run_doctor-Agree registry ctx =
    let rep : DoctorReport = record { outcomes = []; fail_count = 0; warn_count = 0 } in
    let sum : DoctorSummary = record { fail_count = 0; warn_count = 0; total = 0 } in
    let checks = doctor_checks registry in
    let none_yet : Agree rep sum = record {
      fails = refl;
      warns = refl;
      same_fails = refl;
      same_warns = refl;
      all_rows = refl;
    } in
    let h = walk-Agree ctx checks rep sum none_yet in
    let zero_code = exit_code-zero (walk tally ctx checks rep sum).0 in
    (
      subst (λ (os : List CheckOutcome). Rows ctx registry os)
          (sym (walk-outcomes ctx tally checks rep sum)) (doctor_checks-Rows ctx registry),
      h,
      (λ e. sym h.fails ∙ zero_code.0 e, λ e. zero_code.1 (h.fails ∙ e)),
      exit_code-le (walk tally ctx checks rep sum).0,
    )
