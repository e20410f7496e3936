-- ===== src/Run/Launch.antt =====
-- stages/run/actions.rs: `wine_env`, `pick_log_path` and `launch_wine`, over the names in the logs'
-- directory, where other processes also make files.
pub mod Shown
use wine_vr.Prelude.{
  ℕ, zero, suc, ◌+◌, ◌-◌, ltb, leb, String, Bool, true, false, not, ◌&&◌, ◌||◌, ◌==◌, Option, none,
  some, List, [], ◌∷◌, ◌++◌, any, retain, is_empty, codes, Text, text_eq, if◌then◌else◌,
}
use wine_vr.Host.Process.{ProcInfo}
use wine_vr.Host.Error.{SabrageError, Result, ok, err}
use wine_vr.Config.Value.{decimal}
use wine_vr.Logs.Start.{wine_log_candidate_stamped}

abbrev pub winedebug_default : Bool → Text
winedebug_default verbose = if verbose then codes "fixme-all,+openxr" else codes "-all"

-- A preset that is there and not empty wins.
abbrev pub winedebug : Bool → Option Text → Text
winedebug verbose none = winedebug_default verbose
winedebug verbose (some v) = if is_empty v then winedebug_default verbose else v

-- `runtime_json` is the path as it is shown.
unfoldable pub wine_env : Bool → Option Text → ℕ → Text → List (Text × Text)
wine_env verbose inherited appid runtime_json =
    (codes "XR_RUNTIME_JSON", runtime_json)
    ∷ (codes "CX_GRAPHICS_BACKEND", codes "dxmt")
    ∷ (codes "WINEDEBUG", winedebug verbose inherited)
    ∷ (codes "SteamAppId", decimal appid)
    ∷ (codes "SteamGameId", decimal appid)
    ∷ []

-- The names in the directory, the number of looks at it, the log's name that was shown last, and the
-- spawns.
pub record LogWorld : Type 0 where
  pub names : List Text
  pub tick : ℕ
  pub shown : Option Text
  pub spawns : ℕ

-- By the number of looks so far: the clock's stamp; what other processes do before the look;
-- `stopped`, where a spawn ends before its log is made, cancelled or with an open that fails for
-- another reason than the name; `uncloned`, where the descriptor of the log that was made cannot be
-- duplicated; and what a spawn ends with after that. `taken` is the error of a name that is there.
pub record LogEnv : Type 0 where
  pub dry_run : Bool
  pub prepared : Result (Unit {0})
  pub stamp : ℕ → Text
  pub others : ℕ → List Text → List Text
  pub stopped : ℕ → Option SabrageError
  pub uncloned : ℕ → Option SabrageError
  pub spawn : ℕ → Result ProcInfo
  pub taken : SabrageError

-- `LOG_NAME_ATTEMPTS`
abbrev pub log_name_attempts : ℕ
log_name_attempts = 100

abbrev pub holds_name : Text → List Text → Bool
holds_name name names = any (text_eq name) names

abbrev pub looked : LogEnv → LogWorld → LogWorld
looked e w = record w { names = e.others w.tick w.names; tick = suc w.tick }

abbrev pub candidate : LogEnv → LogWorld → ℕ → Text
candidate e w attempt = wine_log_candidate_stamped (e.stamp w.tick) attempt

-- The loop, with the attempts that may still follow this one.
unfoldable pub pick_from : LogEnv → ℕ → ℕ → LogWorld → (Text × ℕ) × LogWorld
pick_from e zero attempt w = ((candidate e w attempt, attempt), w)
pick_from e (suc left) attempt w =
    let rest = pick_from e left (suc attempt) (looked e w) in
    if holds_name (candidate e w attempt) (looked e w).names
    then rest
    else ((candidate e w attempt, attempt), looked e w)

-- The last attempt's name is not looked for.
unfoldable pub pick_log_path : LogEnv → ℕ → LogWorld → (Text × ℕ) × LogWorld
pick_log_path e start w = pick_from e (log_name_attempts - suc start) start w

-- What a launch ends with; `unfinished` is a loop that ran out of turns.
pub data Launched : Type 0 where
  running : ProcInfo → Text → Launched
  planned unfinished : Launched
  failed : SabrageError → Launched

pub data Spawned : Type 0 where
  spawned : ProcInfo → Spawned
  name_taken : Spawned
  refused : SabrageError → Spawned

abbrev pub opened_log : Text → LogWorld → LogWorld
opened_log log w = record w { names = log ∷ w.names }

abbrev pub spawn_open : Text → Result ProcInfo → LogWorld → Spawned × LogWorld
spawn_open log (ok p) w = (spawned p, opened_log log w)
spawn_open log (err x) w = (refused x, w)

-- A log whose descriptor cannot be duplicated stays, and that of a spawn that fails goes again.
abbrev pub spawn_made : Text → Option SabrageError → Result ProcInfo → LogWorld → Spawned × LogWorld
spawn_made log (some x) r w = (refused x, opened_log log w)
spawn_made log none r w = spawn_open log r w

-- The log is made only where there is none of that name.
abbrev pub spawn_new :
    Text → Bool → Option SabrageError → Result ProcInfo → LogWorld → Spawned × LogWorld
spawn_new log true u r w = (name_taken, w)
spawn_new log false u r w = spawn_made log u r w

abbrev pub spawn_unless :
    Text
    → Option SabrageError
    → Bool
    → Option SabrageError
    → Result ProcInfo
    → LogWorld
    → Spawned × LogWorld
spawn_unless log (some x) there u r w = (refused x, w)
spawn_unless log none there u r w = spawn_new log there u r w

abbrev pub counted : LogWorld → LogWorld
counted w = record w { spawns = suc w.spawns }

-- `spawn_detached` with a log of that name.
unfoldable pub spawn_logged : LogEnv → Text → LogWorld → Spawned × LogWorld
spawn_logged e log w =
    spawn_unless log (e.stopped w.tick) (holds_name log (looked e w).names) (e.uncloned w.tick)
      (e.spawn w.tick) (counted (looked e w))

-- The row `   log: <path>`
abbrev pub show_log : Text → LogWorld → LogWorld
show_log log w = record w { shown = some log }

abbrev pub shown_pick : (Text × ℕ) × LogWorld → (Text × ℕ) × LogWorld
shown_pick p = (p.0, show_log p.0.0 p.1)

-- The end of a turn: `again` is the next one.
abbrev pub after_spawn :
    LogEnv
    → Text
    → ℕ
    → (ℕ → LogWorld → Launched × LogWorld)
    → Spawned × LogWorld
    → Launched × LogWorld
after_spawn e log attempt again (spawned p, w) = (running p log, w)
after_spawn e log attempt again (refused x, w) = (failed x, w)
after_spawn e log attempt again (name_taken, w) =
    if ltb (suc attempt) log_name_attempts then again (suc attempt) w else (failed e.taken, w)

-- The loop of spawns, from the name that was picked and shown.
unfoldable pub launch_from : LogEnv → ℕ → (Text × ℕ) × LogWorld → Launched × LogWorld
launch_from e zero ((log, attempt), w) = (unfinished, w)
launch_from e (suc fuel) ((log, attempt), w) =
    after_spawn e log attempt (λ next v. launch_from e fuel (shown_pick (pick_log_path e next v)))
      (spawn_logged e log w)

abbrev pub launch_shown : LogEnv → Bool → (Text × ℕ) × LogWorld → Launched × LogWorld
launch_shown e true p = (planned, p.1)
launch_shown e false p = launch_from e log_name_attempts p

abbrev pub launch_prepared : LogEnv → Result (Unit {0}) → LogWorld → Launched × LogWorld
launch_prepared e (err x) w = (failed x, w)
launch_prepared e (ok _) w = launch_shown e e.dry_run (shown_pick (pick_log_path e 0 w))

-- The banner shows the name, and a dry run plans the spawn.
unfoldable pub launch_wine : LogEnv → LogWorld → Launched × LogWorld
launch_wine e w = launch_prepared e e.prepared w
