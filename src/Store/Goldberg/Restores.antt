-- ===== src/Store/Goldberg/Restores.antt =====
-- A revert that says it restored the dll has put the game's own back, after any launches and reverts.
use wine_vr.Prelude.{◌≡◌, refl, inl, ℕ, Bool, true, false, List, [], ◌∷◌, Text, arith}
use mathlib.Core.Path.{subst}
use wine_vr.Host.Error.{Result, ok, err}
use wine_vr.Host.Effect.Rules.{Post, Triple-weaken, Keeps-after}
use wine_vr.Host.Files.{Node, gone, is_file, FsEnv, FsWorld}
use wine_vr.Host.Files.Keeps.{Over}
use wine_vr.Session.Doors.{Sources}
use wine_vr.Run.Goldberg.{GoldbergFacts, plugin_path, api_of, orig_steam_path, goldberg_stage}
use wine_vr.Run.Goldberg.Original.{Original}
use wine_vr.Run.Goldberg.Original.Stage.{goldberg_stage-Original}
use wine_vr.Store.Goldberg.{RevertFacts, RevertReport, revert_probed}
use wine_vr.Store.Goldberg.Restored.{Said, revert_probed-Said}

-- A launch, or a revert with what it reads at that time.
pub data Move : Type 0 where
  launch : FsEnv → Move
  revert : FsEnv → Sources → List ℕ → Text → Move

abbrev pub revert_facts : GoldbergFacts → Sources → List ℕ → Text → RevertFacts
revert_facts g src games pin = record { goldberg = g; sources = src; games = games; pin = pin }

abbrev pub moved : GoldbergFacts → Move → FsWorld → FsWorld
moved g (launch e) w = (goldberg_stage e g w).1
moved g (revert e src games pin) w = (revert_probed e (revert_facts g src games pin) w).1

-- The files after launches and reverts, in that order.
abbrev pub after_moves : GoldbergFacts → List Move → FsWorld → FsWorld
after_moves g [] w = w
after_moves g (m ∷ rest) w = after_moves g rest (moved g m w)

module _ (g : GoldbergFacts) (plugin : Bool) (orig : Node) (dll : is_file orig ≡ true) where
  moved-Original :
      (m : Move) (w : FsWorld)
      → Original g.bs_dir plugin orig w.fs
      → Original g.bs_dir plugin orig (moved g m w).fs
  moved-Original (launch e) w h =
      Keeps-after {E = Over (Original g.bs_dir plugin orig)}
        (goldberg_stage-Original e g plugin orig dll) w h
  moved-Original (revert e src games pin) w h =
      Keeps-after {E = Over (Original g.bs_dir plugin orig)}
        (Triple-weaken (revert_probed-Said e (revert_facts g src games pin) plugin orig dll)
          (λ a w h. h.0) (λ w h. h))
        w h

  pub after_moves-Original :
      (ms : List Move) (w : FsWorld)
      → Original g.bs_dir plugin orig w.fs
      → Original g.bs_dir plugin orig (after_moves g ms w).fs
  after_moves-Original [] w h = h
  after_moves-Original (m ∷ rest) w h =
      after_moves-Original rest (moved g m w) (moved-Original m w h)

returned :
    {A : Type 0} (Q : A → FsWorld → Type 0) (E : FsWorld → Type 0) (r : Result A) (w : FsWorld)
    (a : A)
    → Post Q E r w
    → r ≡ ok a
    → Q a w
returned Q E (ok b) w a h eq = subst (λ c. Q c w) (ground arith) h
returned Q E (err x) w a h eq = absurd (cc)

-- A game with its own dll `orig` and nothing at the backup's name; then any launches and reverts, in
-- any order, each with any answers of the machine, so any of them may fail at any operation or be a
-- dry run. A revert after them that is no dry run and reports that it restored the dll has put
-- `orig` back, bytes and mode, as the live dll.
pub revert_probed-after_moves :
    (g : GoldbergFacts) (orig : Node) (ms : List Move) (w : FsWorld) (e : FsEnv) (src : Sources)
    (games : List ℕ) (pin : Text) (rep : RevertReport)
    → is_file orig ≡ true
    → w.fs (api_of (is_file (w.fs (plugin_path g.bs_dir))) g.bs_dir) ≡ orig
    → w.fs (orig_steam_path (api_of (is_file (w.fs (plugin_path g.bs_dir))) g.bs_dir)) ≡ gone
    → e.dry_run ≡ false
    → (revert_probed e (revert_facts g src games pin) (after_moves g ms w)).0 ≡ ok rep
    → rep.restored ≡ true
    → (revert_probed e (revert_facts g src games pin) (after_moves g ms w)).1.fs
        (api_of (is_file (w.fs (plugin_path g.bs_dir))) g.bs_dir)
      ≡ orig
revert_probed-after_moves g orig ms w e src games pin rep dll live no_backup real eq said =
    let plugin = is_file (w.fs (plugin_path g.bs_dir)) in
    let facts = revert_facts g src games pin in
    let start : Original g.bs_dir plugin orig w.fs = record {
      same_api = refl;
      somewhere = inl (no_backup, live);
    } in
    let end =
      (revert_probed-Said e facts plugin orig dll).at (after_moves g ms w)
        (after_moves-Original g plugin orig dll ms w start) in
    (returned (Said e g plugin orig dll) (Over (Original g.bs_dir plugin orig))
        (revert_probed e facts (after_moves g ms w)).0
        (revert_probed e facts (after_moves g ms w)).1 rep end eq).1
      said real
