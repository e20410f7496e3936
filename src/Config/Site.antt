-- ===== src/Config/Site.antt =====
-- executor.rs over the configuration's files: the file itself and the directory of its backups,
-- with the processes that also change them.
use wine_vr.Prelude.{
  ℕ, suc, Bool, true, false, not, Option, none, some, List, ◌∷◌, any, retain, Text, text_eq,
  is_some, if◌then◌else◌,
}
use wine_vr.Host.Error.{SabrageError, Result, ok, err}
use wine_vr.Host.Effect.{Eff}
use wine_vr.Host.World.{FileAnswer, done, refused, done_late}
use wine_vr.Session.Doors.{SessionBlock}

-- `toml` is the configuration, where the file is there. `backups` has each backup's name and bytes.
-- `block` is what `session_block_at` answers, and `locked` whether another process has the lock.
pub record Site : Type 0 where
  pub toml : Option Text
  pub backups : List (Text × Text)
  pub block : Option SessionBlock
  pub locked : Bool

pub data FileOp : Type 0 where
  make_dir : FileOp
  create_toml : Text → FileOp
  write_toml : Text → FileOp
  create_backup : Text → Text → FileOp
  remove_backup : Text → FileOp

-- What was looked at, with its answer, and what was done: `did a x s` to the files `s`, answered `x`.
pub data SiteEvent : Type 0 where
  saw_door : Option SessionBlock → SiteEvent
  saw_toml : Option Text → SiteEvent
  did : FileOp → FileAnswer → Site → SiteEvent
  planned : FileOp → SiteEvent

-- What the machine answers, by the number of operations so far; `others` is what other processes
-- did before an operation, and `unread` the error of a read that fails.
pub record SiteEnv : Type 0 where
  pub dry_run : Bool
  pub unix_secs : ℕ
  pub others : ℕ → Site → Site
  pub answer : ℕ → FileOp → FileAnswer
  pub unread : ℕ → Option SabrageError
  pub not_found : SabrageError

pub record SiteWorld : Type 0 where
  pub site : Site
  pub tick : ℕ
  -- newest first
  pub log : List SiteEvent

abbrev pub C : Type 0 → Type 0
C = Eff SiteWorld

-- Another process acts, then the files are looked at.
abbrev pub turn : SiteEnv → SiteWorld → Site
turn e w = e.others w.tick w.site

abbrev pub after_turn : SiteEnv → SiteWorld → SiteWorld
after_turn e w = record w { site = turn e w; tick = suc w.tick }

unfoldable pub look : SiteEnv → C Site
look e w = (ok (turn e w), after_turn e w)

unfoldable pub note : SiteEvent → C (Unit {0})
note x w = (ok tt, record w { log = x ∷ w.log })

-- `blocking_session`
unfoldable pub blocking_session : SiteEnv → C (Option SessionBlock)
blocking_session e w =
    (ok (turn e w).block, record (after_turn e w) { log = saw_door (turn e w).block ∷ w.log })

abbrev pub text_read : SiteEnv → Option SabrageError → Option Text → Result Text
text_read e (some x) t = err x
text_read e none none = err e.not_found
text_read e none (some t) = ok t

abbrev pub seen : Option SabrageError → Option Text → Option Text
seen (some x) t = none
seen none t = t

-- `read_to_string` of the configuration
unfoldable pub read_toml : SiteEnv → C Text
read_toml e w =
    let t = (turn e w).toml in
    (
      text_read e (e.unread w.tick) t,
      record (after_turn e w) { log = saw_toml (seen (e.unread w.tick) t) ∷ w.log },
    )

abbrev pub named : Text → Text × Text → Bool
named name b = text_eq name b.0

abbrev pub has_backup : Text → List (Text × Text) → Bool
has_backup name backups = any (named name) backups

-- Whether a file that is to be created is there already.
abbrev pub is_taken : FileOp → Site → Bool
is_taken (create_toml t) s = is_some s.toml
is_taken (create_backup name t) s = has_backup name s.backups
is_taken _ s = false

-- The files after an operation that took effect.
abbrev pub effect : FileOp → Site → Site
effect make_dir s = s
effect (create_toml t) s = record s { toml = some t }
effect (write_toml t) s = record s { toml = some t }
effect (create_backup name t) s = record s { backups = (name, t) ∷ s.backups }
effect (remove_backup name) s = record s { backups = retain (λ b. not (named name b)) s.backups }

abbrev pub answered : {A : Type 0} → FileAnswer → A → Result A
answered done a = ok a
answered (refused x) a = err x
answered (done_late x) a = err x

abbrev pub site_after : FileAnswer → FileOp → Site → Site
site_after (refused x) a s = s
site_after _ a s = effect a s

unfoldable pub real_op : {A : Type 0} → SiteEnv → A → FileOp → C A
real_op e out a w =
    let ans = e.answer w.tick a in
    (
      answered ans out,
      record {
        site = site_after ans a (turn e w);
        tick = suc w.tick;
        log = did a ans (turn e w) ∷ w.log;
      },
    )

unfoldable pub plan_op : {A : Type 0} → A → FileOp → C A
plan_op out a w = (ok out, record w { log = planned a ∷ w.log })

-- `create_dir_all`, `write_atomic` and `remove_file` of both executors.
unfoldable pub op : SiteEnv → FileOp → C (Unit {0})
op e a = if e.dry_run then plan_op tt a else real_op e tt a

-- The link of `create_new_real` under the final name, or nothing where the name is taken.
unfoldable pub link_new : SiteEnv → FileOp → C Bool
link_new e a w = if is_taken a (turn e w) then (ok false, after_turn e w) else real_op e true a w

-- A dry run looks at the name as well.
unfoldable pub plan_new : SiteEnv → FileOp → C Bool
plan_new e a w =
    if is_taken a (turn e w) then (ok false, after_turn e w) else plan_op true a (after_turn e w)

-- `create_new` of both executors
unfoldable pub create_new : SiteEnv → FileOp → C Bool
create_new e a = if e.dry_run then plan_new e a else link_new e a
