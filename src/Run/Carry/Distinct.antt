-- ===== src/Run/Carry/Distinct.antt =====
-- stages/run/mod.rs: the forwards of a launch are each there once.
use wine_vr.Prelude.{◌≡◌, refl, Bool, true, false, ◌||◌, List, [], ◌∷◌, any, eq_iff, ==_iff, arith}
use wine_vr.Host.Record.{WiredForward, forward_eq}
use wine_vr.Run.Carry.{dedup_from, dedup_forwards}

-- A forward that is the same as another is in a list where that one is.
forward_eq_same :
    (f g : WiredForward) (fs : List WiredForward)
    → forward_eq f g ≡ true
    → any (forward_eq f) fs ≡ any (forward_eq g) fs
forward_eq_same f g [] h = refl
forward_eq_same f g (x ∷ fs) h = ground (
  arith,
  forward_eq_same f g fs h,
  eq_iff f.serial g.serial,
  ==_iff f.port g.port,
  eq_iff f.serial x.serial,
  eq_iff g.serial x.serial,
)

found-dedup_from :
    (f : WiredForward) (seen fs : List WiredForward)
    → (any (forward_eq f) seen || any (forward_eq f) (dedup_from seen fs))
      ≡ (any (forward_eq f) seen || any (forward_eq f) fs)
found-dedup_from f seen [] = refl
found-dedup_from f seen (g ∷ fs) =
    ground (
      arith,
      found-dedup_from f seen fs,
      found-dedup_from f (g ∷ seen) fs,
      forward_eq_same f g seen,
    )

-- No forward is there twice.
abbrev pub Distinct : List WiredForward → Type 0
Distinct [] = Unit
Distinct (f ∷ fs) = (any (forward_eq f) fs ≡ false) × Distinct fs

pub forward_eq_refl : (f : WiredForward) → forward_eq f f ≡ true
forward_eq_refl f = ground (arith, eq_iff f.serial f.serial, ==_iff f.port f.port)

-- What was seen is not kept again.
seen-dedup_from :
    (f : WiredForward) (seen fs : List WiredForward)
    → any (forward_eq f) seen ≡ true
    → any (forward_eq f) (dedup_from seen fs) ≡ false
seen-dedup_from f seen [] h = refl
seen-dedup_from f seen (g ∷ fs) h =
    ground (
      arith,
      seen-dedup_from f seen fs h,
      seen-dedup_from f (g ∷ seen) fs,
      forward_eq_same f g seen,
    )

kept-Distinct :
    (b : Bool) (f : WiredForward) (skipped kept : List WiredForward)
    → Distinct skipped
    → Distinct kept
    → any (forward_eq f) kept ≡ false
    → Distinct (elim b [ true ↦ skipped | false ↦ f ∷ kept ])
kept-Distinct true f skipped kept h k n = h
kept-Distinct false f skipped kept h k n = (n, k)

dedup_from-Distinct : (seen fs : List WiredForward) → Distinct (dedup_from seen fs)
dedup_from-Distinct seen [] = tt
dedup_from-Distinct seen (f ∷ fs) =
    kept-Distinct (any (forward_eq f) seen) f (dedup_from seen fs) (dedup_from (f ∷ seen) fs)
      (dedup_from-Distinct seen fs) (dedup_from-Distinct (f ∷ seen) fs)
      (seen-dedup_from f (f ∷ seen) fs (ground (arith, forward_eq_refl f)))

-- The list that is kept has no forward twice, and exactly the forwards of the one before.
pub dedup_forwards-Distinct :
    (fs : List WiredForward)
    → Distinct (dedup_forwards fs)
      × ((f : WiredForward) → any (forward_eq f) (dedup_forwards fs) ≡ any (forward_eq f) fs)
unfolding dedup_forwards
dedup_forwards-Distinct fs = (dedup_from-Distinct [] fs, λ f. found-dedup_from f [] fs)
