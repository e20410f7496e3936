-- ===== src/Doctor/Registry.antt =====
-- checks/mod.rs: one check's verdict, and the contract's list of checks joined to the evaluators.
pub mod Bound
use wine_vr.Prelude.{
  ℕ, ltb, Bool, true, false, not, ◌&&◌, ◌||◌, ◌==◌, Option, none, some, is_some, List, [], ◌∷◌, map,
  find, any, retain, is_empty, codes, Text, text_eq, if◌then◌else◌,
}

pub data CheckStatus : Type 0 where
  pass warn fail info skipped not_implemented : CheckStatus

unfoldable pub counts_as_fail : CheckStatus → Bool
counts_as_fail fail = true
counts_as_fail _ = false

unfoldable pub counts_as_warn : CheckStatus → Bool
counts_as_warn warn = true
counts_as_warn _ = false

pub record CheckOutcome : Type 0 where
  pub slug : Text
  pub status : CheckStatus
  pub message : Text
  pub remedy : Option Text
  pub detail : Option Text
  pub quiet : Bool

abbrev pub outcome : Text → CheckStatus → Text → CheckOutcome
outcome slug status message = record {
  slug = slug;
  status = status;
  message = message;
  remedy = none;
  detail = none;
  quiet = false;
}

-- `CheckOutcome::not_implemented`
abbrev pub unbound : Text → CheckOutcome
unbound slug = outcome slug not_implemented (codes "no evaluator bound yet (Phase 1)")

-- The contract's entry of a check; `gating` is `native_gate.is_gating()`.
pub record CheckSpec : Type 0 where
  pub slug : Text
  pub group : Text
  pub gating : Bool
  pub fix : Option Text

-- The order of texts, by which the sets and maps are kept.
abbrev pub text_lt : Text → Text → Bool
text_lt [] [] = false
text_lt [] (b ∷ t) = true
text_lt (a ∷ s) [] = false
text_lt (a ∷ s) (b ∷ t) = if a == b then text_lt s t else ltb a b

-- `BTreeMap`
module _ {V : Type 0} where
  abbrev pub lookup : Text → List (Text × V) → Option V
  lookup k [] = none
  lookup k ((j, v) ∷ m) = let rest = lookup k m in if text_eq j k then some v else rest

  abbrev pub insert : Text → V → List (Text × V) → List (Text × V)
  insert k v [] = (k, v) ∷ []
  insert k v ((j, w) ∷ m) =
      let rest = insert k v m in
      if text_eq j k then (k, v) ∷ m else if text_lt k j then (k, v) ∷ (j, w) ∷ m else (j, w) ∷ rest

abbrev pub keys : {V : Type 0} → List (Text × V) → List Text
keys m = map (λ e. e.0) m

pub data RegistryError : Type 0 where
  missing_evaluators unknown_slugs duplicate_evaluators : List Text → RegistryError

abbrev pub no_doctor_row_group : Text
no_doctor_row_group = codes "run-only"

abbrev pub declared : List CheckSpec → Text → Bool
declared specs slug = any (λ s. text_eq s.slug slug) specs

-- `Ctx` is what an evaluator may look at.
pub record BoundCheck (Ctx : Type 0) : Type 0 where
  pub spec : CheckSpec
  pub eval : Option (Ctx → CheckOutcome)

pub data Built (Ctx : Type 0) : Type 0 where
  built : List (BoundCheck Ctx) → Built Ctx
  failed : RegistryError → Built Ctx

abbrev pub Defs : Type 0 → Type 0
Defs Ctx = List (Text × (Ctx → CheckOutcome))

module _ {Ctx : Type 0} where
  abbrev pub evaluate_by : Text → Option (Ctx → CheckOutcome) → Ctx → CheckOutcome
  evaluate_by slug none ctx = unbound slug
  evaluate_by slug (some f) ctx = f ctx

  -- `BoundCheck::evaluate`
  unfoldable pub evaluate : BoundCheck Ctx → Ctx → CheckOutcome
  evaluate b ctx = evaluate_by b.spec.slug b.eval ctx

  -- The map of the evaluators, and the set of the slugs that were registered more than once.
  unfoldable pub register_defs :
      Defs Ctx → Defs Ctx → List (Text × Unit {0}) → Defs Ctx × List (Text × Unit {0})
  register_defs [] m dupes = (m, dupes)
  register_defs ((slug, eval) ∷ rest) m dupes =
      register_defs rest (insert slug eval m)
        (if is_some (lookup slug m) then insert slug tt dupes else dupes)

  abbrev pub unknown : List CheckSpec → Defs Ctx → List Text
  unknown specs m = retain (λ s. not (declared specs s)) (keys m)

  abbrev pub bind : Defs Ctx → CheckSpec → BoundCheck Ctx
  bind m spec = record { spec = spec; eval = lookup spec.slug m }

  abbrev pub missing : List (BoundCheck Ctx) → List Text
  missing checks = map (λ c. c.spec.slug) (retain (λ c. not (is_some c.eval)) checks)

  abbrev pub strictly : Bool → List (BoundCheck Ctx) → Built Ctx
  strictly strict checks =
      if strict && not (is_empty (missing checks))
      then failed (missing_evaluators (missing checks))
      else built checks

  abbrev pub built_from : Bool → List CheckSpec → Defs Ctx → Built Ctx
  built_from strict specs m =
      if not (is_empty (unknown specs m))
      then failed (unknown_slugs (unknown specs m))
      else strictly strict (map (bind m) specs)

  abbrev pub built_over : Bool → List CheckSpec → Defs Ctx × List (Text × Unit {0}) → Built Ctx
  built_over strict specs (m, dupes) =
      if not (is_empty dupes)
      then failed (duplicate_evaluators (keys dupes))
      else built_from strict specs m

  -- `specs` are the contract's checks, and `defs` what the group modules expose.
  unfoldable pub build_registry : Bool → List CheckSpec → Defs Ctx → Built Ctx
  build_registry strict specs defs = built_over strict specs (register_defs defs [] [])

  unfoldable pub doctor_checks : List (BoundCheck Ctx) → List (BoundCheck Ctx)
  doctor_checks checks = retain (λ c. not (text_eq c.spec.group no_doctor_row_group)) checks

  unfoldable pub native_preflight : List (BoundCheck Ctx) → List (BoundCheck Ctx)
  native_preflight checks = retain (λ c. c.spec.gating) checks

  -- `Registry::get`
  unfoldable pub get : Text → List (BoundCheck Ctx) → Option (BoundCheck Ctx)
  get slug checks = find (λ c. text_eq c.spec.slug slug) checks
