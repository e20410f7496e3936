-- ===== src/Host/Process.antt =====
-- process.rs: a process's identity. What the operating system answers is a parameter.
use wine_vr.Prelude.{
  ℕ, String, Bool, false, Option, none, some, List, ◌==◌, is_some_and, if◌then◌else◌,
}

pub record ProcInfo : Type 0 where
  pub pid : ℕ
  pub start_time : ℕ
  pub exe : String

-- The process table as one pass sees it: `kill(pid, 0)`, `sysinfo`'s view of one pid, and the pids
-- whose command line names the game, in the order of the scan.
pub record Os : Type 0 where
  pub self_pid : ℕ
  pub is_alive : ℕ → Bool
  pub observe : ℕ → Option ProcInfo
  pub game_pids : List ℕ

unfoldable pub is_same_process : Os → ProcInfo → Bool
is_same_process os id =
    if os.is_alive id.pid
    then is_some_and (os.observe id.pid) (λ current. current.start_time == id.start_time)
    else false

-- `ProcInfo::observe(pid).map(|p| p.start_time)`
abbrev pub observed_start : Os → ℕ → Option ℕ
observed_start os pid = elim (os.observe pid) [ none ↦ none | some p ↦ some p.start_time ]
