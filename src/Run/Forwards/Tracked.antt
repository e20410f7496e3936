-- ===== src/Run/Forwards/Tracked.antt =====
-- No forward that a launch asked for is forgotten: it stays on the record unless adb removed it.
pub mod Loop
use wine_vr.Prelude.{
  ◌≡◌, refl, sym, ap, ℕ, String, Text, Bool, true, false, not, ◌&&◌, ◌⊎◌, inl, inr, Option, none,
  some, List, [], ◌∷◌, ◌++◌, ◌==◌, any, retain, str_eq, eq_iff, All, All-append, if◌then◌else◌,
  Bool-cases, arith,
}
use mathlib.Core.Path.{subst}
use wine_vr.Host.Error.{Message, SabrageError, Result, ok, err}
use wine_vr.Host.Record.{WiredForward, SessionState, forward_eq}
use wine_vr.Host.World.{
  Disk, Action, Command, Event, ChildAnswer, exited, broken, exit_of, Env, World, run_child,
  plan_child, real_child,
}
use wine_vr.Host.Effect.Rules.{Post, Triple, Triple-if}
use wine_vr.Run.Carry.Distinct.{forward_eq_refl}
use wine_vr.Run.Forwards.{with_forward, without_removed, stays, confirmed}

-- The record names the forward.
abbrev pub names : WiredForward → SessionState → Bool
names x s = any (λ g. forward_eq g x) s.wired_forwards

-- An `adb forward --remove` of it succeeded, at some operation.
abbrev pub RemovedBy : Env → WiredForward → Type 0
RemovedBy e x =
    (n : ℕ) × (adb : String) × (exit_of (e.child n (Command.forward_remove adb x.serial x.port))
      ≡ ok true)

abbrev pub Kept : Env → SessionState → WiredForward → Type 0
Kept e s x = (names x s ≡ true) ⊎ RemovedBy e x

-- A forward that was asked for is kept.
abbrev pub Tracked : Env → SessionState → Event → Type 0
Tracked e s (Event.did (Action.run (Command.forward_add adb serial port)) d) =
    Kept e s (record { serial = serial; port = port })
Tracked e s _ = Unit

any-append :
    (x : WiredForward) (l r : List WiredForward)
    → any (λ g. forward_eq g x) l ≡ true
    → any (λ g. forward_eq g x) (l ++ r) ≡ true
any-append x [] r h = absurd (cc)
any-append x (g ∷ l) r h = elim (Bool-cases (forward_eq g x)) [
  | inl e ↦ ground arith
  | inr e ↦ ground (arith, any-append x l r)
]

any-last :
    (x : WiredForward) (l : List WiredForward)
    → forward_eq x x ≡ true
    → any (λ g. forward_eq g x) (l ++ x ∷ []) ≡ true
any-last x [] h = ground arith
any-last x (g ∷ l) h = ground (arith, any-last x l h)

forward_eq-serial : (g x : WiredForward) → forward_eq g x ≡ true → g.serial ≡ x.serial
forward_eq-serial g x h = (eq_iff g.serial x.serial).0 (ground arith)

forward_eq-port : (g x : WiredForward) → forward_eq g x ≡ true → g.port ≡ x.port
forward_eq-port g x h = ground arith

stays-eq :
    (serial : String) (removed : List ℕ) (g x : WiredForward)
    → forward_eq g x ≡ true
    → stays serial removed g ≡ stays serial removed x
stays-eq serial removed g x h = rw (forward_eq-serial g x h, forward_eq-port g x h) refl

names-retain :
    (serial : String) (removed : List ℕ) (x : WiredForward) (l : List WiredForward)
    → stays serial removed x ≡ true
    → any (λ g. forward_eq g x) l ≡ true
    → any (λ g. forward_eq g x) (retain (stays serial removed) l) ≡ true
names-retain serial removed x [] h k = absurd (cc)
names-retain serial removed x (g ∷ l) h k = elim (Bool-cases (forward_eq g x)) [
  | inl e ↦ rw (stays-eq serial removed g x e, h) (ground arith)
  | inr e ↦ elim (Bool-cases (stays serial removed g)) [
    | inl st ↦ rw st (ground (arith, names-retain serial removed x l h))
    | inr st ↦ rw st (names-retain serial removed x l h (ground arith))
  ]
]

-- The ports of a device whose removal was confirmed.
abbrev pub AllRemoved : Env → String → List ℕ → Type 0
AllRemoved e serial = All (λ p. RemovedBy e (record { serial = serial; port = p }))

removed-at :
    (e : Env) (serial : String) (removed : List ℕ) (port : ℕ)
    → AllRemoved e serial removed
    → any (λ p. p == port) removed ≡ true
    → RemovedBy e (record { serial = serial; port = port })
removed-at e serial [] port h k = absurd (cc)
removed-at e serial (p ∷ ps) port h k = elim (Bool-cases (p == port)) [
  | inl eq ↦ subst (λ q. RemovedBy e (record { serial = serial; port = q })) (ground arith) h.0
  | inr ne ↦ removed-at e serial ps port h.1 (ground arith)
]

not-stays :
    (e : Env) (serial : String) (removed : List ℕ) (x : WiredForward)
    → AllRemoved e serial removed
    → stays serial removed x ≡ false
    → RemovedBy e x
not-stays e serial removed x h k =
    subst (λ t. RemovedBy e (record { serial = t; port = x.port }))
      (sym ((eq_iff x.serial serial).0 (ground arith)))
      (removed-at e serial removed x.port h (ground arith))

-- What a step of the launch does to the record forgets no forward.
abbrev pub Keeping : Env → SessionState → SessionState → Type 0
Keeping e s s' = (x : WiredForward) → Kept e s x → Kept e s' x

pub with_forward-Keeping :
    (e : Env) (serial : String) (port : ℕ) (s : SessionState)
    → Keeping e s (with_forward serial port s)
with_forward-Keeping e serial port s x (inl h) = inl (any-append x s.wired_forwards _ h)
with_forward-Keeping e serial port s x (inr h) = inr h

pub without_removed-Keeping :
    (e : Env) (serial : String) (removed : List ℕ) (s : SessionState)
    → AllRemoved e serial removed
    → Keeping e s (without_removed serial removed s)
without_removed-Keeping e serial removed s all x (inr h) = inr h
without_removed-Keeping e serial removed s all x (inl h) =
    elim (Bool-cases (stays serial removed x)) [
      | inl st ↦ inl (names-retain serial removed x s.wired_forwards st h)
      | inr gone ↦ inr (not-stays e serial removed x all gone)
    ]

-- A forward that was put on the record is kept.
pub Kept-last :
    (e : Env) (serial : String) (port : ℕ) (s : SessionState)
    → Kept e (with_forward serial port s) (record { serial = serial; port = port })
Kept-last e serial port s = inl (
    any-last (record { serial = serial; port = port }) s.wired_forwards
      (forward_eq_refl (record { serial = serial; port = port })))

Keeping-event :
    (e : Env) (s s' : SessionState)
    → Keeping e s s'
    → (ev : Event) → Tracked e s ev
    → Tracked e s' ev
Keeping-event e s s' k (Event.did (Action.run (Command.forward_add adb serial port)) d) h = k _ h
Keeping-event e s s' k (Event.did (Action.run (Command.switch_output _ _)) d) h = tt
Keeping-event e s s' k (Event.did (Action.run Command.set_volume) d) h = tt
Keeping-event e s s' k (Event.did (Action.run (Command.kill_term _)) d) h = tt
Keeping-event e s s' k (Event.did (Action.run (Command.forward_remove _ _ _)) d) h = tt
Keeping-event e s s' k (Event.did (Action.run (Command.forward_clear _ _ _)) d) h = tt
Keeping-event e s s' k (Event.did (Action.run (Command.reverse_clear _ _)) d) h = tt
Keeping-event e s s' k (Event.did (Action.run (Command.open_dashboard _)) d) h = tt
Keeping-event e s s' k (Event.did Action.make_dir d) h = tt
Keeping-event e s s' k (Event.did (Action.write_record _) d) h = tt
Keeping-event e s s' k (Event.did Action.remove_record d) h = tt
Keeping-event e s s' k (Event.planned _) h = tt
Keeping-event e s s' k (Event.line _ _) h = tt
Keeping-event e s s' k (Event.text _) h = tt
Keeping-event e s s' k (Event.output _) h = tt
Keeping-event e s s' k (Event.fatal_row _ _) h = tt
Keeping-event e s s' k Event.section h = tt

pub Keeping-log :
    (e : Env) (s s' : SessionState)
    → Keeping e s s'
    → (log : List Event) → All (Tracked e s) log
    → All (Tracked e s') log
Keeping-log e s s' k [] h = tt
Keeping-log e s s' k (ev ∷ log) h = (Keeping-event e s s' k ev h.0, Keeping-log e s s' k log h.1)

answered :
    (e : Env) (c : Command) (n : ℕ) (a : ChildAnswer) (w : World)
    → e.child n c ≡ a
    → Post (λ b _. (m : ℕ) × (exit_of (e.child m c) ≡ ok b)) (λ _. Unit {0}) (exit_of a) w
answered e c n (exited b) w h = (n, ap exit_of h)
answered e c n (broken x) w h = tt

-- What a child that was run answered.
pub run_child-answer :
    (e : Env) (c : Command)
    → e.dry_run ≡ false
    → Triple
        (λ _. Unit {0})
        (run_child e c)
        (λ b _. (m : ℕ) × (exit_of (e.child m c) ≡ ok b))
        (λ _. Unit {0})
unfolding run_child plan_child real_child
run_child-answer e c real =
    Triple-if e.dry_run (plan_child c) (real_child e c) (λ dry. absurd (cc))
      (λ _. record { at = λ w p. answered e c w.tick (e.child w.tick c) _ refl })
