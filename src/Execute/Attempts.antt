-- ===== src/Execute/Attempts.antt =====
-- internal/execute/run.go and errors.go: the mutant that is run, the attempt that a run of it ends
-- with, and the error of an attempt.
use go_mutants.Prelude.{
  ℕ, ◌-◌, Bool, true, false, Option, none, some, List, [], ◌∷◌, map, Bytes, ltb, ◌==◌, length, drop,
  if◌then◌else◌,
}
pub use go_mutants.Prelude.Ints.{ℤ, pos, negsuc}
use go_mutants.Prelude.Maps.{Map}
use go_mutants.Prelude.Split.{split, join}
use go_mutants.Prelude.Fields.{trim_right, is_empty}
use go_mutants.Mutation.Outcome.{Outcome}
use go_mutants.Execute.Testlog.{Entry}

-- The codes of errors that a run of a mutant returns.
pub data Code : Type 0 where
  no_test_binaries mutant_invalid scratch_dir mutant_start stale_catalog : Code
  interrupted test_log_unsupported : Code

-- The error of an attempt. `tree_not_restored` is `ErrTreeNotRestored`, which has no code, and
-- `cut_off` names the binary of an interruption with the invocation that it hit. The texts of
-- messages are left out.
pub record Failure : Type 0 where
  pub code : Option Code
  pub package_path : Bytes
  pub tree_not_restored : Bool
  pub cut_off : Option Bytes

pub record TestLog : Type 0 where
  pub package_path : Bytes
  pub dir : Bytes
  pub entries : List Entry
  pub complete : Bool

-- The worker's number is set by the schedule.
pub record Attempt : Type 0 where
  pub outcome : Outcome
  pub killed_by : Bytes
  pub duration : ℕ
  pub binaries : List Bytes
  pub tests : Map (List Bytes)
  pub exec_seqs : List ℕ
  pub test_logs : List TestLog
  pub output_tail : Bytes
  pub output : Bytes
  pub output_bytes : ℕ
  pub truncated : Bool
  pub peak_memory : ℕ
  pub memory_exceeded : Bool
  pub diverged : Bool
  pub error : Option Failure

-- `binaries` is none for a nil slice.
pub record MutantRun : Type 0 where
  pub id : Bytes
  pub timeout : ℤ
  pub never_returns : Bool
  pub memory_limit : ℕ
  pub binaries : Option (List ℤ)
  pub tests : Map (List Bytes)
  pub args : List Bytes
  pub output_limit : ℕ
  pub record_test_log : Bool

-- `Attempt{Outcome: outcome}`
abbrev pub attempt_of : Outcome → Attempt
attempt_of outcome = record {
  outcome = outcome;
  killed_by = [];
  duration = 0;
  binaries = [];
  tests = [];
  exec_seqs = [];
  test_logs = [];
  output_tail = [];
  output = [];
  output_bytes = 0;
  truncated = false;
  peak_memory = 0;
  memory_exceeded = false;
  diverged = false;
  error = none;
}

abbrev pub errored_with : Failure → Attempt
errored_with f = record (attempt_of Outcome.errored) { error = some f }

abbrev pub failure : Code → Bytes → Failure
failure c path = record {
  code = some c;
  package_path = path;
  tree_not_restored = false;
  cut_off = none;
}

abbrev blank_byte : ℕ → Bool
blank_byte c = if c == 13 then true else if c == 10 then true else if c == 32 then true else c == 9

-- `strings.TrimRight(text, "\r\n \t")`
trim_blank : Bytes → Bytes
trim_blank [] = []
trim_blank (c ∷ s) =
    let rest = trim_blank s in
    if is_empty rest then (if blank_byte c then [] else c ∷ rest) else c ∷ rest

abbrev pub output_tail_lines : ℕ
output_tail_lines = 50

abbrev last_lines : List Bytes → List Bytes
last_lines lines =
    if ltb output_tail_lines (length lines)
    then drop (length lines - output_tail_lines) lines
    else lines

tail_of : Bytes → Bytes
tail_of [] = []
tail_of (c ∷ text) = join 10 (map (trim_right 13) (last_lines (split 10 (c ∷ text))))

-- `tail`: the last lines of an output.
unfoldable pub tail : Bytes → Bytes
unfolding trim_blank tail_of split trim_right
tail output = tail_of (trim_blank output)
