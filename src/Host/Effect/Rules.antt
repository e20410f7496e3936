-- ===== src/Host/Effect/Rules.antt =====
-- What an action keeps and what it ends with: one rule for each way to build an action.
use wine_vr.Prelude.{◌≡◌, refl, Bool, true, false, if◌then◌else◌}
use wine_vr.Host.Error.{SabrageError, Result, ok, err}
use wine_vr.Host.Effect.{Eff, pure, throw, continue, ◌>>=◌, attempt}

-- What a result and the world after it satisfy: `Q` if it returned, `E` if it failed.
abbrev pub Post : {S A : Type 0} → (A → S → Type 0) → (S → Type 0) → Result A → S → Type 0
Post Q E (ok a) w = Q a w
Post Q E (err x) w = E w

-- From `P`, a run of `m` that returns ends in `Q`, and one that fails ends in `E`.
pub record Triple {S A : Type 0} (P : S → Type 0) (m : Eff S A) (Q : A → S → Type 0)
    (E : S → Type 0) : Type 0 where
  pub at : (w : S) → P w → Post Q E (m w).0 (m w).1

-- `m` keeps `P`, whether it returns or fails.
abbrev pub Keeps : {S A : Type 0} → (S → Type 0) → Eff S A → Type 0
Keeps P m = Triple P m (λ a. P) P

module _ {S A : Type 0} {P : S → Type 0} where
  pub Triple-pure :
      (a : A) (Q : A → S → Type 0) (E : S → Type 0)
      → ((w : S) → P w → Q a w)
      → Triple P (pure a) Q E
  unfolding pure
  Triple-pure a Q E h = record { at = λ w p. h w p }

  pub Triple-throw :
      (x : SabrageError) (Q : A → S → Type 0) (E : S → Type 0)
      → ((w : S) → P w → E w)
      → Triple P (throw {A = A} x) Q E
  unfolding throw
  Triple-throw x Q E h = record { at = λ w p. h w p }

  pub Triple-if :
      (b : Bool) (m n : Eff S A) {Q : A → S → Type 0} {E : S → Type 0}
      → (b ≡ true → Triple P m Q E)
      → (b ≡ false → Triple P n Q E)
      → Triple P (if b then m else n) Q E
  Triple-if true m n hm hn = hm refl
  Triple-if false m n hm hn = hn refl

module _ {S A B : Type 0} where
  bind-Post :
      {Q : A → S → Type 0} {R : B → S → Type 0} {E : S → Type 0} (r : Result A) (f : A → Eff S B)
      (w : S)
      → Post Q E r w
      → ((a : A) → Triple (Q a) (f a) R E)
      → Post R E (continue r f w).0 (continue r f w).1
  bind-Post (ok a) f w h k = (k a).at w h
  bind-Post (err x) f w h k = h

module _ {S A B : Type 0} {P : S → Type 0} where
  pub Triple-bind :
      {Q : A → S → Type 0} {R : B → S → Type 0} {E : S → Type 0} {m : Eff S A} {f : A → Eff S B}
      → Triple P m Q E
      → ((a : A) → Triple (Q a) (f a) R E)
      → Triple P (m >>= f) R E
  unfolding ◌>>=◌
  Triple-bind {m = m} {f = f} hm hf = record {
    at = λ w p. let (r, w') = m w in bind-Post r f w' (hm.at w p) hf;
  }

-- The rules at one invariant, for `search`.
module _ {S A : Type 0} {P : S → Type 0} where
  pub Keeps-pure : (a : A) → Keeps P (pure a)
  Keeps-pure a = Triple-pure a _ _ (λ w p. p)

  pub Keeps-throw : (x : SabrageError) → Keeps P (throw {A = A} x)
  Keeps-throw x = Triple-throw x _ _ (λ w p. p)

  pub Keeps-if : (b : Bool) (m n : Eff S A) → Keeps P m → Keeps P n → Keeps P (if b then m else n)
  Keeps-if b m n km kn = Triple-if b m n (λ _. km) (λ _. kn)

module _ {S A B : Type 0} {P : S → Type 0} where
  pub Keeps-bind :
      (m : Eff S A) (f : A → Eff S B) → Keeps P m → ((a : A) → Keeps P (f a)) → Keeps P (m >>= f)
  Keeps-bind m f km kf = Triple-bind km kf

pub ruleset keeps_rules = (Keeps-pure, Keeps-throw, Keeps-if, Keeps-bind)

Post-const : {S A : Type 0} (E : S → Type 0) (r : Result A) (w : S) → Post (λ _. E) E r w → E w
Post-const E (ok a) w h = h
Post-const E (err x) w h = h

-- What holds of the world after a run, returned or failed.
pub Keeps-after :
    {S A : Type 0} {P E : S → Type 0} {m : Eff S A}
    → Triple P m (λ _. E) E
    → (w : S) → P w
    → E (m w).1
Keeps-after {E} {m} h w p = Post-const E (m w).0 (m w).1 (h.at w p)

-- An attempt returns, with what the action ended with.
module _ {S A : Type 0} {P : S → Type 0} where
  pub Triple-attempt :
      {m : Eff S A} {Q : A → S → Type 0} {E F : S → Type 0}
      → Triple P m Q E
      → Triple P (attempt m) (λ r w. Post Q E r w) F
  unfolding attempt
  Triple-attempt h = record { at = λ w p. h.at w p }

-- Any run, where nothing is asked of its end.
any-Post : {S A : Type 0} (r : Result A) (w : S) → Post (λ _ _. Unit {0}) (λ _. Unit {0}) r w
any-Post (ok a) w = tt
any-Post (err x) w = tt

both-Post :
    {S A : Type 0} (Q R : A → S → Type 0) (E F : S → Type 0) (r : Result A) (w : S)
    → Post Q E r w
    → Post R F r w
    → Post (λ a v. Q a v × R a v) (λ v. E v × F v) r w
both-Post Q R E F (ok a) w h k = (h, k)
both-Post Q R E F (err x) w h k = (h, k)

module _ {S A : Type 0} {P : S → Type 0} where
  pub Triple-any : (m : Eff S A) → Triple P m (λ _ _. Unit) (λ _. Unit)
  Triple-any m = record { at = λ w p. any-Post (m w).0 (m w).1 }

  pub Triple-both :
      {m : Eff S A} {Q R : A → S → Type 0} {E F : S → Type 0}
      → Triple P m Q E
      → Triple P m R F
      → Triple P m (λ a w. Q a w × R a w) (λ w. E w × F w)
  Triple-both {m} {Q} {R} {E} {F} h k = record {
    at = λ w p. both-Post Q R E F (m w).0 (m w).1 (h.at w p) (k.at w p);
  }

-- A run that cannot fail returns.
pub Returns :
    {S A : Type 0} (Q : A → S → Type 0) (r : Result A) (w : S)
    → Post Q (λ _. ⊥) r w
    → (a : A) × (r ≡ ok a) × Q a w
Returns Q (ok a) w h = (a, refl, h)
Returns Q (err x) w h = absurd h

conseq-Post :
    {S A : Type 0} (Q R : A → S → Type 0) (E : S → Type 0) (r : Result A) (w : S)
    → ((a : A) (v : S) → Q a v → R a v)
    → Post Q E r w
    → Post R E r w
conseq-Post Q R E (ok a) w k h = k a w h
conseq-Post Q R E (err x) w k h = h

module _ {S A : Type 0} {P P' : S → Type 0} where
  pub Triple-conseq :
      {m : Eff S A} {Q R : A → S → Type 0} {E : S → Type 0}
      → ((w : S) → P w → P' w)
      → Triple P' m Q E
      → ((a : A) (w : S) → Q a w → R a w)
      → Triple P m R E
  Triple-conseq {m} {Q} {R} {E} pre h k = record {
    at = λ w p. conseq-Post Q R E (m w).0 (m w).1 k (h.at w (pre w p));
  }

failed-Post :
    {S A : Type 0} (Q : A → S → Type 0) (E : S → Type 0) (r : Result A) (w : S)
    → Post Q (λ _. ⊥) r w
    → Post Q E r w
failed-Post Q E (ok a) w h = h
failed-Post Q E (err x) w h = absurd h

module _ {S A : Type 0} {P : S → Type 0} where
  -- A run that cannot fail ends in anything where it fails.
  pub Triple-never_fails :
      {m : Eff S A} {Q : A → S → Type 0} {E : S → Type 0} → Triple P m Q (λ _. ⊥) → Triple P m Q E
  Triple-never_fails {m} {Q} {E} h = record {
    at = λ w p. failed-Post Q E (m w).0 (m w).1 (h.at w p);
  }

weaken-Post :
    {S A : Type 0} (Q R : A → S → Type 0) (E F : S → Type 0) (r : Result A) (w : S)
    → ((a : A) (v : S) → Q a v → R a v)
    → ((v : S) → E v → F v)
    → Post Q E r w
    → Post R F r w
weaken-Post Q R E F (ok a) w k f h = k a w h
weaken-Post Q R E F (err x) w k f h = f w h

module _ {S A : Type 0} {P : S → Type 0} where
  pub Triple-weaken :
      {m : Eff S A} {Q R : A → S → Type 0} {E F : S → Type 0}
      → Triple P m Q E
      → ((a : A) (w : S) → Q a w → R a w)
      → ((w : S) → E w → F w)
      → Triple P m R F
  Triple-weaken {m} {Q} {R} {E} {F} h k f = record {
    at = λ w p. weaken-Post Q R E F (m w).0 (m w).1 k f (h.at w p);
  }

module _ {S A : Type 0} {P : S → Type 0} where
  -- A fact on no state, beside the precondition.
  pub Triple-given :
      {B : Type 0} {m : Eff S A} {Q : A → S → Type 0} {E : S → Type 0}
      → (B → Triple P m Q E)
      → Triple (λ w. P w × B) m Q E
  Triple-given h = record { at = λ w p. (h p.1).at w p.0 }
