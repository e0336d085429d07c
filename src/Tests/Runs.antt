-- ===== src/Tests/Runs.antt =====
-- A mutant of two test binaries: the named tests of the first let it survive, and so do both
-- binaries as a whole, or the second of them fails.
use go_mutants.Prelude.{
  ℕ, zero, suc, ◌≡◌, refl, true, false, none, some, List, [], ◌∷◌, ◌++◌, codes, Bytes, keep, arith,
}
use go_mutants.Prelude.Fields.{trim_space}
use go_mutants.Prelude.Decimal.{itoa}
use go_mutants.Mutation.Outcome.{survived, killed}
use go_mutants.Execute.Attempts.{pos, MutantRun, tail}
use go_mutants.Execute.Narrowing.{
  Platform, validate_test_selection, mutant_env_from, with_loop_limits, binding, active_env,
}
use go_mutants.Execute.Narrowing.Environment.{is_own, mutant_env_from-Own, limits_entries}
use go_mutants.Execute.Testlog.{Entry, header, parse}
use go_mutants.Execute.Testlog.Parsing.{write, parse-write}
use go_mutants.Execute.Running.{
  TestBinary, Result, World, Options, missing, target_spec, read_log, unsupported_log, classify,
  note, conclude, spec_at, result_at, log_at, ending_at, noted_at, run_from, prepare, run_pass,
  run_narrowed, run_one, whole, select_binaries, validate_args, worker_scratch,
}
use go_mutants.Execute.Running.Blame.{Kills}
use go_mutants.Execute.Running.Answer.{Survived, run_one-Survived, EndedBy, run_one-EndedBy}

abbrev pub platform : Platform
platform = record {
  windows = false;
  to_upper = λ s. s;
  equal_fold = λ s t. false;
  quote_meta = λ s. s;
  duration_text = λ t. itoa t ++ codes "ns";
  absolute = λ s. some s;
  rel = λ root dir. none;
  eval_symlinks = λ s. none;
  join_path = λ a b. a ++ codes "/" ++ b;
}

abbrev pub options : Options
options = record {
  snapshot_root = codes "/s";
  scratch_dir = [];
  tree = [];
  env = codes "GO_MUTANTS_ACTIVE=other" ∷ codes "HOME=/h" ∷ [];
  loop_limits = [];
}

abbrev exits : ℕ → Result
exits code = record {
  exit_code = pos code;
  timed_out = false;
  memory_exceeded = false;
  peak_memory = 7;
  duration = 3;
  output = [];
  output_bytes = 0;
  truncated = false;
  failed = false;
  trace_seq = 0;
}

-- Every process passes, but the one of the second binary ends with a code.
abbrev pub second_exits : ℕ → World
second_exits code = record {
  cancelled = λ i. false;
  process = λ i spec. elim i [ zero ↦ exits 0 | suc j ↦ exits code ];
  log_file = λ i. missing;
  make_dir = λ dir. true;
  restored = true;
}

abbrev binary : Bytes → TestBinary
binary name = record { import_path = name; dir = codes "/s"; bin_path = name }

abbrev pub bins : List TestBinary
bins = binary (codes "a") ∷ binary (codes "b") ∷ []

abbrev pub mutant : MutantRun
mutant = record {
  id = codes "m1";
  timeout = pos 9;
  never_returns = false;
  memory_limit = 0;
  binaries = some (pos 0 ∷ pos 1 ∷ []);
  tests = (codes "a", codes "TestA" ∷ []) ∷ [];
  args = [];
  output_limit = 10;
  record_test_log = false;
}

pub survives :
    (run_one platform options mutant (second_exits 0) (second_exits 0) bins).outcome ≡ survived
unfolding run_one run_narrowed run_pass prepare trim_space validate_args select_binaries
    validate_test_selection worker_scratch run_from ending_at result_at noted_at note classify
    log_at spec_at target_spec read_log unsupported_log
survives = refl

run_one-Survived_example :
    Survived platform options
      (whole mutant)
      (second_exits 0)
      bins
      (run_one platform options mutant (second_exits 0) (second_exits 0) bins)
run_one-Survived_example =
    run_one-Survived platform options mutant (second_exits 0) (second_exits 0) bins survives

-- The named tests of the second run are not narrowed to: its second binary fails.
killed_whole :
    (run_one platform options mutant (second_exits 0) (second_exits 1) bins).outcome ≡ killed
unfolding run_one run_narrowed run_pass prepare trim_space validate_args select_binaries
    validate_test_selection worker_scratch run_from ending_at result_at noted_at note classify
    log_at spec_at target_spec read_log unsupported_log conclude tail
killed_whole = refl

run_one-EndedBy_example :
    EndedBy platform options mutant (second_exits 0) (second_exits 1) bins Kills
run_one-EndedBy_example =
    (run_one-EndedBy platform options mutant (second_exits 0) (second_exits 1) bins).0 killed_whole

abbrev entries : List Entry
entries =
    record { op = codes "getenv"; name = codes "HOME" }
    ∷ record { op = codes "open"; name = codes "a b" }
    ∷ []

parse-write_example :
    parse (header ++ write entries ++ codes "sta")
    ≡ some (record { entries = entries; complete = false })
parse-write_example = parse-write entries (codes "sta") (omega arith) (omega arith)

mutant_env_from-Own_example :
    keep (is_own platform) (
      with_loop_limits (codes "9") (mutant_env_from platform options.env (codes "m1") (codes "/t")))
    ≡ binding active_env (codes "m1") ∷ limits_entries (codes "9")
mutant_env_from-Own_example =
    mutant_env_from-Own platform (refl, (refl, (refl, (refl, (refl, tt))))) options.env (codes "m1")
      (codes "/t") (codes "9")
