-- ===== src/Fixes/Adb/Only.antt =====
-- What the removal of stale forwards asks of the machine, for any condition on the events.
use wine_vr.Prelude.{
  ◌≡◌, String, Text, text_eq, Bool, true, false, Option, none, some, List, [], ◌∷◌, any,
}
use wine_vr.Host.World.{Severity, Disk, Action, Command, Event, Env}
use wine_vr.Host.Error.{Message}
use wine_vr.Host.Effect.Rules.{Keeps, Keeps-pure, Triple-if, Triple-bind}
use wine_vr.Host.World.Logs.{Logged, run_child-Logged, emit-Logged}
use wine_vr.Fixes.Adb.{
  AdbFacts, Listing, rows, unlisted, Clearing, stale_local_specs, parse_forward_list, clear_row,
  clear_listed, clear_if, clear_rows, clear_stale, remove_adb_forwards_by, remove_adb_forwards_at,
}

module _ (V : Event → Type 0) (e : Env) (f : AdbFacts)
    (shown : (v : Severity) (m : Message) → V (Event.line v m))
    (planned : (c : Command) → V (Event.planned (Action.run c)))
    (cleared : (adb serial : String) (locl : Text) (d : Disk)
      → any (text_eq locl) (stale_local_specs f.ports) ≡ true
      → V (Event.did (Action.run (Command.forward_clear adb serial locl)) d)) where
  clear_row-Logged :
      (adb : String) (locl : Text) (serial : String) (p : Clearing) (took : Bool)
      → Keeps (Logged V) (clear_row e adb locl serial p took)
  clear_row-Logged adb locl serial p true =
      Triple-bind (emit-Logged V _ (shown _ _)) (λ _. Keeps-pure _)
  clear_row-Logged adb locl serial p false =
      Triple-bind (emit-Logged V _ (shown _ _)) (λ _. Keeps-pure _)

  clear_if-Logged :
      (adb : String) (locl : Text) (serial : String) (p : Clearing)
      → Keeps
          (Logged V)
          (clear_if e adb (any (text_eq locl) (stale_local_specs f.ports)) locl serial p)
  unfolding clear_if clear_listed
  clear_if-Logged adb locl serial p =
      Triple-if (any (text_eq locl) (stale_local_specs f.ports)) _ _
        (λ stale.
          Triple-bind
            (run_child-Logged V e (Command.forward_clear adb serial locl) (λ w l. l)
              (λ w l real. cleared adb serial locl (e.others w.tick w.disk) stale) (planned _))
            (clear_row-Logged adb locl serial p))
        (λ _. Keeps-pure _)

  clear_rows-Logged :
      (adb : String) (listed : List (Text × Text)) (p : Clearing)
      → Keeps (Logged V) (clear_rows e adb (stale_local_specs f.ports) listed p)
  unfolding clear_rows
  clear_rows-Logged adb [] p = Keeps-pure _
  clear_rows-Logged adb ((serial, locl) ∷ rest) p =
      Triple-bind (clear_if-Logged adb locl _ p) (clear_rows-Logged adb rest)

  clear_stale-Logged :
      (adb : String) (l : Listing)
      → Keeps (Logged V) (clear_stale e adb (stale_local_specs f.ports) l)
  unfolding clear_stale
  clear_stale-Logged adb (unlisted reason) =
      Triple-bind (emit-Logged V _ (shown _ _)) (λ _. Keeps-pure _)
  clear_stale-Logged adb (rows stdout) =
      Triple-bind (clear_rows-Logged adb (parse_forward_list stdout) _) (λ p. Keeps-pure _)

  remove_adb_forwards_by-Logged :
      (o : Option String) → Keeps (Logged V) (remove_adb_forwards_by e f o)
  unfolding remove_adb_forwards_by
  remove_adb_forwards_by-Logged (some adb) = clear_stale-Logged adb f.listing
  remove_adb_forwards_by-Logged none = Keeps-pure _

  -- A forward is removed only at a local end that the contract names.
  pub remove_adb_forwards_at-Logged : Keeps (Logged V) (remove_adb_forwards_at e f)
  unfolding remove_adb_forwards_at
  remove_adb_forwards_at-Logged = remove_adb_forwards_by-Logged f.adb
