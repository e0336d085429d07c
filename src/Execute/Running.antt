-- ===== src/Execute/Running.antt =====
-- internal/execute/run.go, `RunOne`: the test binaries of a mutant are started one after another
-- until one of them ends the attempt, and a mutant that named tests let survive is run again whole.
-- What happens outside is a `World`: the context as it is found before each binary, the process that
-- each start makes, the file of the test log that it leaves, the directories and the tree.
use go_mutants.Prelude.{
  ℕ, zero, suc, ◌+◌, Bool, true, false, not, ◌||◌, Option, none, some, List, [], ◌∷◌, ◌++◌, map,
  Bytes, leb, get_elem?, if◌then◌else◌,
}
use go_mutants.Prelude.Maps.{Map, get_list}
use go_mutants.Prelude.Fields.{trim_space, is_empty}
use go_mutants.Prelude.Checks.{Checks, ok, err, ◌>>=◌, ◌>>◌, guard}
use go_mutants.Mutation.Outcome.{Outcome, not_run, killed, survived, timed_out, errored}
use go_mutants.Execute.Attempts.{
  ℤ, pos, negsuc, Code, Failure, TestLog, Attempt, MutantRun, attempt_of, errored_with, failure,
  tail, no_test_binaries, mutant_invalid, scratch_dir, mutant_start, stale_catalog, interrupted,
  test_log_unsupported,
}
use go_mutants.Execute.Narrowing.{
  Platform, overrides_timeout, supplies_test_run, supplies_test_log, validate_test_selection,
  mutant_env_from, with_loop_limits,
}
pub use go_mutants.Execute.Processes.{
  TestBinary, Spec, Result, LogFile, World, Options, TestLogPlan, missing, unreadable, holding,
}
unfoldable pub use go_mutants.Execute.Processes.{
  is_zero, is_code, is_unavailable, result_ok, target_spec, plan_test_log, log_path, read_log,
  unsupported_log,
}
pub mod Blame
pub mod Verdict
pub mod Answer

-- How a started binary ended, as the `switch` of the loop tells it.
pub data Ending : Type 0 where
  start_failed deadline memory cut_short unknown_mutant divergence log_unsupported : Ending
  failing passed : Ending

unfoldable pub classify : Result → Bool → Ending
classify r unsupported =
    if r.failed
    then start_failed
    else if r.timed_out
    then deadline
    else if r.memory_exceeded
    then memory
    else if is_unavailable r.exit_code
    then cut_short
    else if is_code 97 r.exit_code
    then unknown_mutant
    else if is_code 96 r.exit_code
    then divergence
    else if unsupported
    then log_unsupported
    else if is_zero r.exit_code
    then passed
    else failing

-- `Attempt.keep`
abbrev keep : Result → Attempt → Attempt
keep r a = record a {
  output = r.output;
  output_bytes = r.output_bytes;
  truncated = r.truncated;
  output_tail = tail r.output;
}

-- What the attempt gains by a process that has ended, whatever it answered.
abbrev traced : Result → List ℕ → List ℕ
traced r seqs = elim r.trace_seq [ zero ↦ seqs | suc n ↦ seqs ++ suc n ∷ [] ]

abbrev named_tests : Bytes → List Bytes → Map (List Bytes) → Map (List Bytes)
named_tests path [] tests = tests
named_tests path (t ∷ ts) tests = (path, t ∷ ts) ∷ tests

unfoldable pub note : TestBinary → List Bytes → Result → Bool → TestLog → Attempt → Attempt
note bin tests r recorded log a = record a {
  duration = a.duration + r.duration;
  peak_memory = if leb a.peak_memory r.peak_memory then r.peak_memory else a.peak_memory;
  binaries = a.binaries ++ bin.import_path ∷ [];
  tests = named_tests bin.import_path tests a.tests;
  exec_seqs = traced r a.exec_seqs;
  test_logs = if recorded then a.test_logs ++ log ∷ [] else a.test_logs;
}

abbrev fail : Code → TestBinary → Attempt → Attempt
fail c bin a = record a { outcome = errored; error = some (failure c bin.import_path) }

-- The cases of the `switch`.
unfoldable pub conclude : Ending → TestBinary → Result → Attempt → Attempt
conclude start_failed bin r a = fail mutant_start bin (keep r a)
conclude deadline bin r a = keep r (record a { outcome = timed_out; killed_by = bin.import_path })
conclude memory bin r a =
    keep r (record a { outcome = killed; killed_by = bin.import_path; memory_exceeded = true })
conclude cut_short bin r a = record a {
  outcome = not_run;
  error = some (record (failure interrupted bin.import_path) { cut_off = some bin.import_path });
}
conclude unknown_mutant bin r a = fail stale_catalog bin (keep r a)
conclude divergence bin r a =
    keep r (record a { outcome = timed_out; killed_by = bin.import_path; diverged = true })
conclude log_unsupported bin r a = fail test_log_unsupported bin (keep r a)
conclude failing bin r a = keep r (record a { outcome = killed; killed_by = bin.import_path })
conclude passed bin r a = a

-- What a pass has fixed before its first start.
pub record Pass : Type 0 where
  pub env : List Bytes
  pub timeout : ℕ
  pub plan : TestLogPlan

module _ (p : Platform) (opts : Options) (m : MutantRun) (w : World) where
  unfoldable pub spec_at : Pass → ℕ → TestBinary → Spec
  spec_at pass i bin =
      target_spec p opts m pass.env pass.timeout bin (get_list bin.import_path m.tests)
        (log_path p pass.plan i)

  -- The process of the binary at index `i` of those selected.
  unfoldable pub result_at : Pass → ℕ → TestBinary → Result
  unfolding spec_at
  result_at pass i bin = w.process i (spec_at pass i bin)

  unfoldable pub log_at : Pass → ℕ → TestBinary → TestLog
  log_at pass i bin = read_log (log_path p pass.plan i) (w.log_file i) bin (result_at pass i bin)

  unfoldable pub ending_at : Pass → ℕ → TestBinary → Ending
  ending_at pass i bin =
      classify (result_at pass i bin)
        (unsupported_log (log_path p pass.plan i) (result_at pass i bin) (log_at pass i bin))

  unfoldable pub noted_at : Pass → ℕ → TestBinary → Attempt → Attempt
  noted_at pass i bin a =
      note bin (get_list bin.import_path m.tests) (result_at pass i bin) pass.plan.wanted
        (log_at pass i bin) a

  -- The loop over the binaries that are left, the first of them at index `i`.
  unfoldable pub run_from : Pass → ℕ → List TestBinary → Attempt → Attempt
  run_from pass i [] a = a
  run_from pass i (bin ∷ bins) a = elim (w.cancelled i) [
    | true ↦ record a { outcome = not_run }
    | false ↦ elim (ending_at pass i bin) [
      | passed ↦ run_from pass (suc i) bins (noted_at pass i bin a)
      | e ↦ conclude e bin (result_at pass i bin) (noted_at pass i bin a)
    ]
  ]

abbrev has_any {ℓ} : {A : Type ℓ} → List A → Bool
has_any [] = false
has_any (x ∷ xs) = true

-- `validateArgs`
unfoldable pub validate_args : MutantRun → Checks Failure (Unit {0})
validate_args m = do
  guard (not (overrides_timeout m.args)) (failure mutant_invalid [])
  guard (not (has_any m.tests) || not (supplies_test_run m.args)) (failure mutant_invalid [])
  guard (not m.record_test_log || not (supplies_test_log m.args)) (failure mutant_invalid [])

abbrev element {ℓ} : {A : Type ℓ} → List A → ℤ → Option A
element bins (pos i) = get_elem? bins i
element bins (negsuc i) = none

pub elements {ℓ} : {A : Type ℓ} → Failure → List ℤ → List A → Checks Failure (List A)
elements f [] bins = ok []
elements f (index ∷ subset) bins =
    let rest = elements f subset bins in
    elim (element bins index) [ none ↦ err f | some bin ↦ rest >>= λ selected. ok (bin ∷ selected) ]

-- `selectSubset`, with the errors of the caller.
abbrev select_subset {ℓ} :
    {A : Type ℓ} → Option (List ℤ) → List A → Failure → Failure → Checks Failure (List A)
select_subset none bins refuse_empty refuse_index = ok bins
select_subset (some []) bins refuse_empty refuse_index = err refuse_empty
select_subset (some (i ∷ subset)) bins refuse_empty refuse_index =
    elements refuse_index (i ∷ subset) bins

unfoldable pub select_binaries : MutantRun → List TestBinary → Checks Failure (List TestBinary)
unfolding elements
select_binaries m bins =
    select_subset m.binaries bins (failure mutant_invalid []) (failure mutant_invalid [])

-- `workerScratch`
unfoldable pub worker_scratch : Platform → World → Bytes → Checks Failure Bytes
worker_scratch p w dir = if is_empty (trim_space dir) then ok [] else elim (p.absolute dir) [
  | none ↦ err (failure scratch_dir [])
  | some abs ↦ if is_empty abs || not (w.make_dir abs) then err (failure scratch_dir []) else ok abs
]

abbrev positive : ℤ → Option ℕ
positive (pos zero) = none
positive (pos (suc n)) = some (suc n)
positive (negsuc n) = none

abbrev timeout_of : MutantRun → Checks Failure ℕ
timeout_of m = elim (positive m.timeout) [ none ↦ err (failure mutant_invalid []) | some t ↦ ok t ]

abbrev or_refused : Option Failure → Checks Failure (Unit {0})
or_refused none = ok tt
or_refused (some f) = err f

-- What `runPass` does before its loop: the binaries that it selects, and what it fixes.
unfoldable pub prepare :
    Platform
    → Options
    → MutantRun
    → World
    → List TestBinary
    → Checks Failure (List TestBinary × Pass)
prepare p opts m w bins = do
  guard (not (is_empty (trim_space m.id))) (failure mutant_invalid [])
  timeout ← timeout_of m
  guard (has_any bins) (failure no_test_binaries [])
  validate_args m
  selected ← select_binaries m bins
  or_refused
      (validate_test_selection m.tests (map (λ (bin : TestBinary). bin.import_path) selected))
  scratch ← worker_scratch p w opts.scratch_dir
  ok (
    selected,
    record {
      env = with_loop_limits opts.loop_limits (mutant_env_from p opts.env m.id scratch);
      timeout = timeout;
      plan = plan_test_log p w m.record_test_log scratch m.args;
    },
  )

-- `runPass`
unfoldable pub run_pass : Platform → Options → MutantRun → World → List TestBinary → Attempt
run_pass p opts m w bins = elim (prepare p opts m w bins) [
  | err f ↦ errored_with f
  | ok (selected, pass) ↦ run_from p opts m w pass 0 selected (attempt_of survived)
]

abbrev not_restored : Failure
not_restored = record { code = none; package_path = []; tree_not_restored = true; cut_off = none }

-- `runNarrowed`, whose tree is put back where a binary was started.
unfoldable pub run_narrowed : Platform → Options → MutantRun → World → List TestBinary → Attempt
run_narrowed p opts m w bins =
    let attempt = run_pass p opts m w bins in
    if not (has_any attempt.binaries) || w.restored then attempt else errored_with not_restored

abbrev is_survived : Outcome → Bool
is_survived survived = true
is_survived _ = false

abbrev pub whole : MutantRun → MutantRun
whole m = record m { tests = [] }

-- `RunOne`; the second world is that of the whole run.
unfoldable pub run_one : Platform → Options → MutantRun → World → World → List TestBinary → Attempt
run_one p opts m first second bins =
    let attempt = run_narrowed p opts m first bins in
    if not (has_any m.tests) || not (is_survived attempt.outcome)
    then attempt
    else run_narrowed p opts (whole m) second bins
