-- ===== src/Run/Carry/Inherited.antt =====
-- stages/run/mod.rs: a launch keeps what the record before it still had to undo.
use wine_vr.Prelude.{
  ◌≡◌, refl, ◌∙◌, String, Bool, true, false, ◌⊎◌, inl, inr, List, [], ◌∷◌, ◌++◌, any, arith,
}
use wine_vr.Host.Error.{Message, ok}
use wine_vr.Host.Record.{WiredForward, forward_eq, SessionState}
use wine_vr.Session.Reconcile.Pass.{Reconciled, dead, identity_mismatch}
use wine_vr.Run.Carry.{
  Carried, unfinished_audio_restore, carry_forward, admit, inherit, with_forwards,
}
use wine_vr.Run.Carry.Distinct.{Distinct, dedup_forwards-Distinct}

-- The pass found a record that nobody holds.
abbrev pub LeftBy : SessionState → Reconciled → Type 0
LeftBy s r =
    ((rows : List Message) × (pending : Bool) × (r ≡ dead s rows pending))
    ⊎ ((rows : List Message) × (pending : Bool) × (r ≡ identity_mismatch s rows pending))

-- The device and the forwards that a record has still to put back are in the other.
abbrev pub KeepsPending : SessionState → SessionState → Type 0
KeepsPending before after =
    (before.guards.audio_restored ≡ false → after.prev_audio_output ≡ before.prev_audio_output)
    × (before.guards.forwards_cleared ≡ false
        → (f : WiredForward) → any (forward_eq f) before.wired_forwards ≡ true
        → any (forward_eq f) after.wired_forwards ≡ true)

any-append :
    (f : WiredForward) (xs ys : List WiredForward)
    → any (forward_eq f) xs ≡ true
    → any (forward_eq f) (xs ++ ys) ≡ true
any-append f [] ys h = ground arith
any-append f (x ∷ xs) ys h = ground (arith, any-append f xs ys)

carried-KeepsPending :
    (before sess : SessionState) (made : List WiredForward)
    → KeepsPending before (with_forwards made (inherit (carry_forward before) sess))
unfolding with_forwards inherit carry_forward unfinished_audio_restore
carried-KeepsPending before sess made = (
  (λ a. ground arith),
  (λ c f h. (dedup_forwards-Distinct _).1 f ∙ any-append f _ made (ground (arith, h))),
)

admit-LeftBy :
    (bottle : String) (before : SessionState) (r : Reconciled)
    → LeftBy before r
    → admit bottle r ≡ ok (carry_forward before)
unfolding admit
admit-LeftBy bottle before r (inl (rows, pending, e)) = rw e refl
admit-LeftBy bottle before r (inr (rows, pending, e)) = rw e refl

-- A launch behind a record that nobody holds is admitted, and its record, whatever forwards it adds,
-- still names the device and the forwards that the old record had to put back, no forward twice.
pub admit-KeepsPending :
    (bottle : String) (before sess : SessionState) (r : Reconciled) (made : List WiredForward)
    → LeftBy before r
    → (c : Carried) × (admit bottle r ≡ ok c)
      × KeepsPending before (with_forwards made (inherit c sess))
      × Distinct (with_forwards made (inherit c sess)).wired_forwards
unfolding with_forwards
admit-KeepsPending bottle before sess r made l = (
  carry_forward before,
  admit-LeftBy bottle before r l,
  carried-KeepsPending before sess made,
  (dedup_forwards-Distinct _).0,
)
