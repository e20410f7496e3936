-- ===== src/Host/Files.antt =====
-- executor.rs over the files of a game directory: each path has bytes and a mode, or is something
-- else, or nothing. No other process changes these files.
pub mod Keeps
use wine_vr.Prelude.{
  ℕ, suc, Bool, true, false, not, ◌&&◌, ◌==◌, Option, none, some, String, List, ◌∷◌, Text, text_eq,
  if◌then◌else◌,
}
use wine_vr.Host.Error.{Message, SabrageError, Result, ok, err}
use wine_vr.Host.Effect.{Eff, pure, throw, ◌>>=◌, ◌>>◌}
use wine_vr.Host.World.{Severity, FileAnswer, done, refused, done_late, answer_of}

-- A name in the file system; a link to a regular file is that file.
pub data Node : Type 0 where
  gone other : Node
  file : Text → ℕ → Node

abbrev pub Files : Type 0
Files = Text → Node

-- `Path::is_file`
abbrev pub is_file : Node → Bool
is_file (file b m) = true
is_file _ = false

abbrev pub put : Files → Text → Node → Files
put fs p n q = if text_eq p q then n else fs q

pub data FsOp : Type 0 where
  make_dir : Text → FsOp
  write : Text → Text → FsOp
  copy : Text → Text → FsOp
  set_mode : Text → ℕ → FsOp

abbrev pub mode_or : ℕ → Node → ℕ
mode_or d (file b m) = m
mode_or d _ = d

abbrev pub remode : ℕ → Node → Node
remode m (file b old) = file b m
remode m n = n

abbrev pub made : Node → Node
made gone = other
made n = n

-- The files after an operation that took effect: a file that is written keeps its mode, and a copy
-- takes the mode of its source.
abbrev pub effect : FsOp → Files → Files
effect (make_dir p) fs = put fs p (made (fs p))
effect (write p b) fs = put fs p (file b (mode_or 420 (fs p)))
effect (copy src dst) fs = put fs dst (fs src)
effect (set_mode p m) fs = put fs p (remode m (fs p))

pub data FsEvent : Type 0 where
  did planned : FsOp → FsEvent
  row : Severity → Message → FsEvent
  output : SabrageError → FsEvent
  fatal_row : Message → Option String → FsEvent

-- What the machine answers, by the number of operations so far: `unread` is a file that cannot be
-- opened or read.
pub record FsEnv : Type 0 where
  pub dry_run : Bool
  pub answer : ℕ → FsOp → FileAnswer
  pub unread : ℕ → Text → Bool
  pub not_read : SabrageError

pub record FsWorld : Type 0 where
  pub fs : Files
  pub tick : ℕ
  -- newest first
  pub log : List FsEvent

abbrev pub F : Type 0 → Type 0
F = Eff FsWorld

unfoldable pub note : FsEvent → F (Unit {0})
note x w = (ok tt, record w { log = x ∷ w.log })

unfoldable pub files : F Files
files w = (ok w.fs, w)

-- `StageCtx::fatal`, and the return of its error.
unfoldable pub die : {A : Type 0} → Message → Option String → F A
die m remedy = do note (fatal_row m remedy); throw (SabrageError.fatal m remedy)

-- `die_with_cause`
unfoldable pub die_with_cause : {A : Type 0} → SabrageError → Message → F A
die_with_cause cause m = do note (output cause); die m none

-- What the machine answers to an operation whose source is as given.
abbrev pub sourced : FsEnv → ℕ → Files → FsOp → FileAnswer
sourced e n fs (copy src dst) =
    if is_file (fs src) && not (e.unread n src)
    then e.answer n (copy src dst)
    else refused e.not_read
sourced e n fs a = e.answer n a

abbrev pub files_after : FileAnswer → FsOp → Files → Files
files_after (refused x) a fs = fs
files_after _ a fs = effect a fs

unfoldable pub real_op : FsEnv → FsOp → F (Unit {0})
real_op e a w =
    let ans = sourced e w.tick w.fs a in
    (answer_of ans, record { fs = files_after ans a w.fs; tick = suc w.tick; log = did a ∷ w.log })

unfoldable pub plan_op : FsOp → F (Unit {0})
plan_op a w = (ok tt, record w { log = planned a ∷ w.log })

-- `write_atomic` and `create_dir_all` of both executors, and the copy of `copy_if_changed`.
unfoldable pub op : FsEnv → FsOp → F (Unit {0})
op e a = if e.dry_run then plan_op a else real_op e a

abbrev pub same_bytes : Node → Node → Bool
same_bytes (file b m) (file b' m') = text_eq b b'
same_bytes _ _ = false

-- `cmp_files`: a file that cannot be read equals none.
unfoldable pub cmp_files : FsEnv → Text → Text → F Bool
cmp_files e a b w = (
  ok (not (e.unread w.tick a) && not (e.unread w.tick b) && same_bytes (w.fs a) (w.fs b)),
  record w { tick = suc w.tick },
)

abbrev pub bytes_of : Node → Option Text
bytes_of (file b m) = some b
bytes_of _ = none

-- The bytes of a file that can be read.
unfoldable pub read_bytes : FsEnv → Text → F (Option Text)
read_bytes e p w =
    (ok (if e.unread w.tick p then none else bytes_of (w.fs p)), record w { tick = suc w.tick })

abbrev pub same_mode : Node → Node → Bool
same_mode (file b m) (file b' m') = m == m'
same_mode _ _ = true

-- Where the bytes match, a mode that differs is repaired.
unfoldable pub repair_mode : FsEnv → Text → Node → Node → F Bool
repair_mode e dst have want =
    if same_mode want have
    then pure false
    else (do op e (set_mode dst (mode_or 420 want)); pure true)

-- `true` is `Copied::Copied`.
unfoldable pub copy_by : FsEnv → Text → Text → Bool → F Bool
copy_by e src dst true = do fs ← files; repair_mode e dst (fs dst) (fs src)
copy_by e src dst false = do op e (copy src dst); pure true

-- `copy_if_changed` of both executors: a dry run compares the files as well.
unfoldable pub copy_if_changed : FsEnv → Text → Text → F Bool
copy_if_changed e src dst = do same ← cmp_files e src dst; copy_by e src dst same
