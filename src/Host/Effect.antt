-- ===== src/Host/Effect.antt =====
-- Operations on a state that may fail, as `Result` with `&mut` is in the source.
pub mod Rules
use wine_vr.Host.Error.{SabrageError, Result, ok, err}

-- An operation returns or fails, and what was done before the failure stays done.
abbrev pub Eff : Type 0 → Type 0 → Type 0
Eff S A = S → Result A × S

module _ {S : Type 0} where
  unfoldable pub pure : {A : Type 0} → A → Eff S A
  pure a w = (ok a, w)

  unfoldable pub throw : {A : Type 0} → SabrageError → Eff S A
  throw e w = (err e, w)

  abbrev pub continue : {A B : Type 0} → Result A → (A → Eff S B) → Eff S B
  continue (ok a) f w = f a w
  continue (err e) f w = (err e, w)

  infixl 10 ◌>>=◌ ◌>>◌
  unfoldable pub ◌>>=◌ : {A B : Type 0} → Eff S A → (A → Eff S B) → Eff S B
  unfolding pure throw
  ◌>>=◌ m f w = let (r, w') = m w in continue r f w'

  abbrev pub ◌>>◌ : {A B : Type 0} → Eff S A → Eff S B → Eff S B
  m >> n = m >>= λ _. n

  -- A result that the caller looks at in place of returning it with `?`.
  unfoldable pub attempt : {A : Type 0} → Eff S A → Eff S (Result A)
  attempt m w = let (r, w') = m w in (ok r, w')
