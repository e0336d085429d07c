-- ===== src/Execute/Processes.antt =====
-- The processes of internal/execute/run.go: what `startTarget` builds of a test binary, what comes of
-- it, and the test log that internal/execute/testlog.go reads behind it.
use go_mutants.Prelude.{
  ℕ, zero, suc, ◌*◌, Bool, true, false, not, ◌&&◌, ◌||◌, Option, none, some, List, [], ◌∷◌, ◌++◌,
  Bytes, codes, leb, str_eq, if◌then◌else◌,
}
use go_mutants.Prelude.Text.{has_prefix}
use go_mutants.Prelude.Fields.{is_empty, cut}
use go_mutants.Prelude.Decimal.{itoa}
use go_mutants.Execute.Testlog.{Entry, parse}
use go_mutants.Execute.Attempts.{ℤ, pos, negsuc, TestLog, MutantRun}
use go_mutants.Execute.Narrowing.{Platform, has_fuzz_argument, test_run_selector}

pub record TestBinary : Type 0 where
  pub import_path : Bytes
  pub dir : Bytes
  pub bin_path : Bytes

-- `runner.Spec`, without what is only traced.
pub record Spec : Type 0 where
  pub argv : List Bytes
  pub dir : Bytes
  pub env : List Bytes
  pub timeout : ℕ
  pub memory_limit : ℕ
  pub output_limit : ℕ

-- `runner.Result`; `failed` says that its error is not nil.
pub record Result : Type 0 where
  pub exit_code : ℤ
  pub timed_out : Bool
  pub memory_exceeded : Bool
  pub peak_memory : ℕ
  pub duration : ℕ
  pub output : Bytes
  pub output_bytes : ℕ
  pub truncated : Bool
  pub failed : Bool
  pub trace_seq : ℕ

abbrev pub is_zero : ℤ → Bool
is_zero (pos zero) = true
is_zero (pos (suc n)) = false
is_zero (negsuc n) = false

-- `Result.OK`
abbrev pub result_ok : Result → Bool
result_ok r = not r.failed && (not r.timed_out && (not r.memory_exceeded && is_zero r.exit_code))

-- What stands at the path of a test log.
pub data LogFile : Type 0 where
  missing unreadable : LogFile
  holding : Bytes → LogFile

pub record World : Type 0 where
  pub cancelled : ℕ → Bool
  pub process : ℕ → Spec → Result
  pub log_file : ℕ → LogFile
  pub make_dir : Bytes → Bool
  pub restored : Bool

pub record Options : Type 0 where
  pub snapshot_root : Bytes
  pub scratch_dir : Bytes
  pub tree : Bytes
  pub env : List Bytes
  pub loop_limits : Bytes

-- `relativeTo`
abbrev pub relative_to : Platform → Bytes → Bytes → Option Bytes
relative_to p root dir = elim (p.rel root dir) [
  | none ↦ none
  | some rel ↦
      let up = if p.windows then codes "..\\" else codes "../" in
      if str_eq rel (codes "..") || has_prefix up rel then none else some rel
]

-- `under`
abbrev pub under : Platform → Bytes → Bytes → Option Bytes
under p root dir = elim (relative_to p root dir) [
  | some rel ↦ some rel
  | none ↦ elim (p.eval_symlinks root) [
    | none ↦ none
    | some resolved_root ↦ elim (p.eval_symlinks dir) [
      | none ↦ none
      | some resolved_dir ↦ relative_to p resolved_root resolved_dir
    ]
  ]
]

unfoldable pub working_dir : Platform → Options → TestBinary → Bytes
working_dir p opts bin =
    if is_empty opts.tree || (is_empty opts.snapshot_root || str_eq opts.tree opts.snapshot_root)
    then bin.dir
    else elim (under p opts.snapshot_root bin.dir) [
      | none ↦ bin.dir
      | some rel ↦ p.join_path opts.tree rel
    ]

abbrev pub when_set : Bytes → Bytes → List Bytes
when_set flag [] = []
when_set flag (c ∷ path) = (flag ++ c ∷ path) ∷ []

abbrev pub run_flag : Platform → List Bytes → List Bytes
run_flag p [] = []
run_flag p (t ∷ tests) = test_run_selector p.quote_meta (t ∷ tests) ∷ []

-- The specification that `startTarget` builds for a mutant's run, which stops at the first failure.
-- The path of the test log is empty where none is recorded.
unfoldable pub target_spec :
    Platform → Options → MutantRun → List Bytes → ℕ → TestBinary → List Bytes → Bytes → Spec
target_spec p opts m env timeout bin tests log_path = record {
  argv =
      bin.bin_path
      ∷ (codes "-test.timeout=" ++ p.duration_text (2 * timeout))
      ∷ codes "-test.failfast"
      ∷ (when_set (codes "-test.testlogfile=") log_path ++ run_flag p tests ++ m.args);
  dir = working_dir p opts bin;
  env = env;
  timeout = timeout;
  memory_limit = m.memory_limit;
  output_limit = m.output_limit;
}

-- `testLogPlan`; `directory` is none where there is a reason not to record.
pub record TestLogPlan : Type 0 where
  pub wanted : Bool
  pub directory : Option Bytes

abbrev pub made : World → Bytes → Option Bytes
made w dir = if w.make_dir dir then some dir else none

abbrev pub plan_test_log : Platform → World → Bool → Bytes → List Bytes → TestLogPlan
plan_test_log p w wanted scratch args = record {
  wanted = wanted;
  directory =
      if not wanted || (is_empty scratch || has_fuzz_argument args)
      then none
      else made w (p.join_path scratch (codes "testlogs"));
}

-- `testLogPlan.path`
abbrev pub log_path : Platform → TestLogPlan → ℕ → Bytes
log_path p plan index = elim plan.directory [
  | none ↦ []
  | some dir ↦ p.join_path dir ((codes "testlog-" ++ itoa index) ++ codes ".txt")
]

abbrev pub empty_log : TestBinary → TestLog
empty_log bin = record {
  package_path = bin.import_path;
  dir = bin.dir;
  entries = [];
  complete = false;
}

-- `supervisorEnded`
abbrev pub is_unavailable : ℤ → Bool
is_unavailable (negsuc zero) = true
is_unavailable (negsuc (suc n)) = false
is_unavailable (pos n) = false

abbrev pub supervisor_ended : Result → Bool
supervisor_ended r = r.timed_out || is_unavailable r.exit_code

abbrev pub parsed_log : TestBinary → Result → Bytes → TestLog
parsed_log bin r bytes = elim (parse bytes) [
  | none ↦ empty_log bin
  | some l ↦ record (empty_log bin) {
    entries = l.entries;
    complete = l.complete && not (supervisor_ended r);
  }
]

-- `testLogPlan.read`, without the reasons why a log is empty. The bytes of an empty file have no
-- header.
unfoldable pub read_log : Bytes → LogFile → TestBinary → Result → TestLog
read_log [] file bin r = empty_log bin
read_log (c ∷ path) missing bin r = empty_log bin
read_log (c ∷ path) unreadable bin r = empty_log bin
read_log (c ∷ path) (holding bytes) bin r = parsed_log bin r bytes

abbrev pub is_code : ℕ → ℤ → Bool
is_code n (pos k) = leb n k && leb k n
is_code n (negsuc k) = false

abbrev pub contains : Bytes → Bytes → Bool
contains part s = elim (cut part s) [ none ↦ false | some parts ↦ true ]

abbrev pub has_entries : List Entry → Bool
has_entries [] = false
has_entries (e ∷ es) = true

unfoldable pub unsupported_log : Bytes → Result → TestLog → Bool
unsupported_log path r log =
    not (is_empty path)
    && (is_code 2 r.exit_code
        && (contains (codes "flag provided but not defined: -test.testlogfile") r.output
            && (not log.complete && not (has_entries log.entries))))
