-- ===== src/Doctor/Registry/Bound.antt =====
-- A registry that is built holds the contract's checks in order, each with its evaluator.
use mathlib.Core.Path.{subst}
use wine_vr.Prelude.{
  ◌≡◌, refl, ap, ◌∙◌, Bool, true, false, not, ◌&&◌, some, is_some, List, [], ◌∷◌, map, is_empty,
  Text, text_eq, text_eq_iff, if◌then◌else◌, All, Bool-cases, inl, inr, arith,
}
use wine_vr.Doctor.Registry.{
  CheckOutcome, CheckSpec, lookup, insert, BoundCheck, built, failed, missing_evaluators, Defs,
  register_defs, declared, unknown, bind, missing, strictly, built_from, build_registry, get,
}

module _ {V : Type 0} where
  lookup-insert :
      (k j : Text) (v : V) (m : List (Text × V))
      → lookup j (insert k v m) ≡ (if text_eq k j then some v else lookup j m)
  lookup-insert k j v [] = refl
  lookup-insert k j v ((i, w) ∷ m) =
      ground (arith, lookup-insert k j v m, text_eq_iff i k, text_eq_iff i j, text_eq_iff k j)

  insert-full : (k : Text) (v : V) (m : List (Text × V)) → is_empty (insert k v m) ≡ false
  insert-full k v [] = refl
  insert-full k v ((i, w) ∷ m) = ground arith

module _ {Ctx : Type 0} where
  -- A slug that was registered twice is never forgotten.
  dupes-stay :
      (defs m : Defs Ctx) (dupes : List (Text × Unit {0}))
      → is_empty dupes ≡ false
      → is_empty (register_defs defs m dupes).1 ≡ false
  unfolding register_defs
  dupes-stay [] m dupes h = h
  dupes-stay ((slug, eval) ∷ rest) m dupes h =
      dupes-stay rest (insert slug eval m)
        (if is_some (lookup slug m) then insert slug tt dupes else dupes)
        (ground (arith, insert-full slug tt dupes))

  -- Without duplicates, an evaluator stays where it was put.
  first-new :
      (slug : Text) (eval : Ctx → CheckOutcome) (rest m : Defs Ctx) (dupes : List (Text × Unit {0}))
      → is_empty (register_defs ((slug, eval) ∷ rest) m dupes).1 ≡ true
      → is_some (lookup slug m) ≡ false
  unfolding register_defs
  first-new slug eval rest m dupes h = elim (Bool-cases (is_some (lookup slug m))) [
    | inl twice ↦ absurd (
        cc (
          h,
          dupes-stay rest (insert slug eval m)
              (if is_some (lookup slug m) then insert slug tt dupes else dupes)
              (ground (arith, insert-full slug tt dupes)),
        ))
    | inr new ↦ new
  ]

  lookup-stays :
      (defs m : Defs Ctx) (dupes : List (Text × Unit {0})) (k : Text) (f : Ctx → CheckOutcome)
      → is_empty (register_defs defs m dupes).1 ≡ true
      → lookup k m ≡ some f
      → lookup k (register_defs defs m dupes).0 ≡ some f
  unfolding register_defs
  lookup-stays [] m dupes k f h e = e
  lookup-stays ((slug, eval) ∷ rest) m dupes k f h e =
      lookup-stays rest (insert slug eval m)
        (if is_some (lookup slug m) then insert slug tt dupes else dupes) k f h
        (kept (text_eq slug k) refl)
    where
      kept : (b : Bool) → text_eq slug k ≡ b → lookup k (insert slug eval m) ≡ some f
      kept true same = absurd (
          cc (
            first-new slug eval rest m dupes h,
            ap (λ t. is_some (lookup t m)) ((text_eq_iff slug k).0 same),
            ap is_some e,
          ))
      kept false other = lookup-insert slug k eval m ∙ (rw other e)

  -- Every evaluator is found under its slug.
  abbrev Found : Defs Ctx → Defs Ctx → Type 0
  Found m defs = All (λ d. lookup d.0 m ≡ some d.1) defs

  all-Found :
      (defs m : Defs Ctx) (dupes : List (Text × Unit {0}))
      → is_empty (register_defs defs m dupes).1 ≡ true
      → Found (register_defs defs m dupes).0 defs
  unfolding register_defs
  all-Found [] m dupes h = tt
  all-Found ((slug, eval) ∷ rest) m dupes h =
      let dupes' = if is_some (lookup slug m) then insert slug tt dupes else dupes in
      (
        lookup-stays rest (insert slug eval m) dupes' slug eval h
            (lookup-insert slug slug eval m ∙ rw ((text_eq_iff slug slug).1 refl) refl),
        all-Found rest (insert slug eval m) dupes' h,
      )

  key-declared :
      (specs : List CheckSpec) (m : Defs Ctx) (k : Text) (f : Ctx → CheckOutcome)
      → is_empty (unknown specs m) ≡ true
      → lookup k m ≡ some f
      → declared specs k ≡ true
  key-declared specs [] k f h e = absurd (cc)
  key-declared specs ((i, w) ∷ m) k f h e = elim (Bool-cases (declared specs i)) [
    | inr not_declared ↦ absurd (ground arith)
    | inl is_declared ↦ elim (Bool-cases (text_eq i k)) [
      | inl same ↦ subst (λ t. declared specs t ≡ true) ((text_eq_iff i k).0 same) is_declared
      | inr other ↦ key-declared specs m k f (ground arith) (ground arith)
    ]
  ]

  -- The check of a declared slug, with the evaluator that the map has for it.
  get-bind :
      (specs : List CheckSpec) (m : Defs Ctx) (slug : Text) (f : Ctx → CheckOutcome)
      → declared specs slug ≡ true
      → lookup slug m ≡ some f
      → (b : BoundCheck Ctx) × (get slug (map (bind m) specs) ≡ some b) × (b.eval ≡ some f)
  unfolding get
  get-bind [] m slug f h e = absurd (cc)
  get-bind (s ∷ specs) m slug f h e = elim (Bool-cases (text_eq s.slug slug)) [
    | inl same ↦
        (bind m s, rw same refl, ap (λ t. lookup t m) ((text_eq_iff s.slug slug).0 same) ∙ e)
    | inr other ↦
        let rest = get-bind specs m slug f (ground arith) e in (rest.0, rw other rest.1, rest.2)
  ]

  -- What the checks of a registry are.
  pub record Joined (specs : List CheckSpec) (defs : Defs Ctx) (strict : Bool)
      (checks : List (BoundCheck Ctx)) : Type 0 where
    pub in_order : map (λ c. c.spec) checks ≡ specs
    pub each :
        All (λ d. (b : BoundCheck Ctx) × (get d.0 checks ≡ some b) × (b.eval ≡ some d.1)) defs
    pub complete : strict ≡ true → All (λ c. is_some c.eval ≡ true) checks

  in_order_lem :
      (specs : List CheckSpec) (m : Defs Ctx) → map (λ c. c.spec) (map (bind m) specs) ≡ specs
  in_order_lem [] m = refl
  in_order_lem (s ∷ specs) m = ap (λ t. s ∷ t) (in_order_lem specs m)

  none_missing :
      (checks : List (BoundCheck Ctx))
      → is_empty (missing checks) ≡ true
      → All (λ c. is_some c.eval ≡ true) checks
  none_missing [] h = tt
  none_missing (c ∷ checks) h = elim (Bool-cases (is_some c.eval)) [
    | inl there ↦ (there, none_missing checks (ground arith))
    | inr absent ↦ absurd (ground arith)
  ]

  each_lem :
      (specs : List CheckSpec) (m defs : Defs Ctx)
      → is_empty (unknown specs m) ≡ true
      → Found m defs
      → All
          (λ d.
            (b : BoundCheck Ctx) × (get d.0 (map (bind m) specs) ≡ some b) × (b.eval ≡ some d.1))
          defs
  each_lem specs m [] h k = tt
  each_lem specs m ((slug, f) ∷ defs) h k =
      (get-bind specs m slug f (key-declared specs m slug f h k.0) k.0, each_lem specs m defs h k.1)

  strictly-Joined :
      (strict : Bool) (specs : List CheckSpec) (m defs : Defs Ctx) (checks : List (BoundCheck Ctx))
      → is_empty (unknown specs m) ≡ true
      → Found m defs
      → strictly strict (map (bind m) specs) ≡ built checks
      → Joined specs defs strict checks
  strictly-Joined strict specs m defs checks h k e =
      go (strict && not (is_empty (missing (map (bind m) specs)))) refl e
    where
      at_once :
          (strict && not (is_empty (missing (map (bind m) specs)))) ≡ false
          → Joined specs defs strict (map (bind m) specs)
      at_once none_left = record {
        in_order = in_order_lem specs m;
        each = each_lem specs m defs h k;
        complete = λ s. none_missing (map (bind m) specs) (ground arith);
      }

      go :
          (b : Bool)
          → (strict && not (is_empty (missing (map (bind m) specs)))) ≡ b
          → (if b
              then failed (missing_evaluators (missing (map (bind m) specs)))
              else built (map (bind m) specs))
            ≡ built checks
          → Joined specs defs strict checks
      go true x y = absurd (cc)
      go false x y = subst (λ c. Joined specs defs strict c) (cc) (at_once x)

  built_from-Joined :
      (strict : Bool) (specs : List CheckSpec) (m defs : Defs Ctx) (checks : List (BoundCheck Ctx))
      → Found m defs
      → built_from strict specs m ≡ built checks
      → Joined specs defs strict checks
  built_from-Joined strict specs m defs checks k e =
      elim (Bool-cases (is_empty (unknown specs m))) [
        | inl known ↦ strictly-Joined strict specs m defs checks known k (ground arith)
        | inr not_known ↦ absurd (ground arith)
      ]

-- A registry that is built, strictly or not: its checks are the contract's, all of them and in the
-- contract's order; for each evaluator that a group module exposes, the check of its slug is there
-- and has that evaluator, so that none is for an undeclared slug and no slug has two; and a strict
-- build leaves no check without an evaluator.
pub build_registry-Joined :
    {Ctx : Type 0} (strict : Bool) (specs : List CheckSpec) (defs : Defs Ctx)
    (checks : List (BoundCheck Ctx))
    → build_registry strict specs defs ≡ built checks
    → Joined specs defs strict checks
unfolding build_registry
build_registry-Joined strict specs defs checks e =
    elim (Bool-cases (is_empty (register_defs defs [] []).1)) [
      | inl no_dupes ↦
          built_from-Joined strict specs (register_defs defs [] []).0 defs checks
            (all-Found defs [] [] no_dupes) (ground arith)
      | inr twice ↦ absurd (ground arith)
    ]
