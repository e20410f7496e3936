-- ===== src/Session/State.antt =====
-- session/state.rs: the operations on `session-state.json`. The lock that `lock_record` takes is the
-- atomicity of load, compare and write here.
pub mod Safety
pub mod Frame
use wine_vr.Prelude.{
  ℕ, String, Bool, true, false, Option, none, some, ◌==◌, is_some_and, not, if◌then◌else◌, ◌&&◌,
  ◌||◌,
}
use wine_vr.Host.Error.{Message, SabrageError}
use wine_vr.Host.Record.{
  SessionState, session_state_version, is_supported_version, has_live_foreign_owner,
}
use wine_vr.Host.Effect.{pure, throw, ◌>>=◌, ◌>>◌}
use wine_vr.Host.World.{Disk, absent, unreadable, holds, Action, Env, M, load, file_op}

abbrev pub stop_remedy : Option String
stop_remedy = some "./demo.sh stop --bottle <name>"

pub newer_schema : String → SessionState → SabrageError
newer_schema verb existing =
    SabrageError.fatal (Message.newer_schema verb existing.version) stop_remedy

pub owned_elsewhere : String → SessionState → SabrageError
owned_elsewhere verb existing =
    SabrageError.fatal (Message.owned_elsewhere verb existing.owner_pid existing.bottle) stop_remedy

-- `save`'s refusals, over what the file holds.
unfoldable pub refuse_save : Env → SessionState → Disk → M (Unit {0})
unfolding newer_schema owned_elsewhere
refuse_save e s (holds existing) =
    if not (existing.run_id == s.run_id) && has_live_foreign_owner e.os existing
    then throw (owned_elsewhere "overwrite" existing)
    else if not (is_supported_version existing)
    then throw (newer_schema "overwrite" existing)
    else pure tt
refuse_save e s _ = pure tt

unfoldable pub write_record : Env → SessionState → M (Unit {0})
write_record e s = do file_op e Action.make_dir; file_op e (Action.write_record s)

unfoldable pub save : Env → SessionState → M (Unit {0})
save e s = do d ← load e; refuse_save e s d; write_record e s

-- `mark_detached` over what the file holds.
unfoldable pub mark_loaded : Env → ℕ → Disk → M Bool
unfolding newer_schema owned_elsewhere
mark_loaded e run_id (holds existing) =
    if not (existing.run_id == run_id) || existing.detached
    then pure false
    else if has_live_foreign_owner e.os existing
    then throw (owned_elsewhere "overwrite" existing)
    else if not (is_supported_version existing)
    then throw (newer_schema "overwrite" existing)
    else (do write_record e (record existing { detached = true }); pure true)
mark_loaded e run_id _ = pure false

unfoldable pub mark_detached : Env → ℕ → M Bool
mark_detached e run_id = do d ← load e; mark_loaded e run_id d

-- `clear_inner` over what the file holds.
unfoldable pub clear_loaded : Env → Option ℕ → Disk → M (Unit {0})
unfolding newer_schema owned_elsewhere
clear_loaded e expected (holds existing) =
    if has_live_foreign_owner e.os existing
    then throw (owned_elsewhere "delete" existing)
    else if not (is_supported_version existing)
    then throw (newer_schema "delete" existing)
    else if is_some_and expected (λ run_id. not (run_id == existing.run_id))
    then pure tt
    else file_op e Action.remove_record
clear_loaded e expected _ = file_op e Action.remove_record

unfoldable pub clear_inner : Env → Option ℕ → M (Unit {0})
clear_inner e expected = do d ← load e; clear_loaded e expected d

unfoldable pub clear : Env → M (Unit {0})
clear e = clear_inner e none

unfoldable pub clear_run : Env → ℕ → M (Unit {0})
clear_run e run_id = clear_inner e (some run_id)
