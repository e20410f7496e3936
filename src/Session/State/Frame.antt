-- ===== src/Session/State/Frame.antt =====
-- A condition on the world that the file operations keep is kept by `save`.
use wine_vr.Prelude.{not, ◌&&◌, ◌==◌}
use wine_vr.Host.Record.{SessionState, is_supported_version, has_live_foreign_owner}
use wine_vr.Host.World.{Disk, absent, unreadable, holds, Action, Env, World, load, file_op}
use wine_vr.Host.Effect.Rules.{Keeps, Keeps-pure, Keeps-throw, Keeps-if, Triple-bind}
use wine_vr.Session.State.{refuse_save, write_record, save}

module _ (e : Env) {P : World → Type 0} where
  refuse_save-Keeps : (s : SessionState) (d : Disk) → Keeps P (refuse_save e s d)
  unfolding refuse_save
  refuse_save-Keeps s (holds x) =
      Keeps-if (not (x.run_id == s.run_id) && has_live_foreign_owner e.os x) _ _ (Keeps-throw _)
        (Keeps-if (not (is_supported_version x)) _ _ (Keeps-throw _) (Keeps-pure _))
  refuse_save-Keeps s absent = Keeps-pure _
  refuse_save-Keeps s unreadable = Keeps-pure _

  pub save-Keeps :
      (s : SessionState)
      → Keeps P (load e)
      → Keeps P (file_op e Action.make_dir)
      → Keeps P (file_op e (Action.write_record s))
      → Keeps P (save e s)
  unfolding save write_record
  save-Keeps s read make put =
      Triple-bind read (λ d. Triple-bind (refuse_save-Keeps s d) (λ _. Triple-bind make (λ _. put)))
