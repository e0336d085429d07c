-- ===== src/Tests/Decisions.antt =====
-- The schedule of one mutant that survives, with the answer of `RunOne` as its attempt.
use go_mutants.Prelude.{
  ℕ, ◌≡◌, refl, sym, ap, zero, suc, some-inj, false, none, some, List, [], ◌∷◌, codes, length,
  get_elem?, arith,
}
use go_mutants.Prelude.Fields.{trim_space}
use go_mutants.Mutation.Outcome.{survived}
use go_mutants.Execute.Attempts.{Attempt, MutantRun, attempt_of}
use go_mutants.Execute.Narrowing.{validate_test_selection}
use go_mutants.Execute.Running.{
  target_spec, read_log, unsupported_log, classify, note, spec_at, result_at, log_at, ending_at,
  noted_at, run_from, prepare, run_pass, run_narrowed, run_one, select_binaries, validate_args,
  worker_scratch,
}
use go_mutants.Execute.Schedule.{
  MutantResult, State, start, claim, finish, Reach, here, then_step, claims, finishes, fresh,
  add_attempt, settle, main_result, held_back,
}
use go_mutants.Execute.Schedule.Passing.{Stopped}
use go_mutants.Execute.Retry.{Chance, Returns, scheduled, after_pass, after_retry, retry}
use go_mutants.Execute.Retry.Surviving.{Decided, ShowsSurvival, Schedule-Decided}
use go_mutants.Tests.Runs.{platform, options, second_exits, bins, mutant}

abbrev answer : Attempt
answer = record (attempt_of survived) {
  duration = 6;
  binaries = codes "a" ∷ codes "b" ∷ [];
  peak_memory = 7;
}

answers : answer ≡ run_one platform options mutant (second_exits 0) (second_exits 0) bins
unfolding run_one run_narrowed run_pass prepare trim_space validate_args select_binaries
    validate_test_selection worker_scratch run_from ending_at result_at noted_at note classify
    log_at spec_at target_spec read_log unsupported_log
answers = refl

abbrev mutants : List MutantRun
mutants = mutant ∷ []

abbrev claimed : State
claimed = claim mutants 0 (start mutants 1)

abbrev ended : State
ended = finish 0 0 mutant answer claimed

abbrev last : State
last = claim mutants 0 ended

run : Reach mutants (start mutants 1) last
unfolding claim finish
run =
    then_step
      (then_step (then_step here (claims (start mutants 1) 0 refl))
        (finishes claimed 0 0 mutant answer refl refl))
      (claims ended 0 refl)

last-Stopped : Stopped last
unfolding claim finish
last-Stopped zero x e = sym (some-inj e)
last-Stopped (suc w) x e = absurd (cc)

abbrev chance : ℕ → Chance
chance i = record { cancelled = false; attempt = answer }

returns : Returns mutants 4 (length bins) (after_pass chance false last)
unfolding claim finish
returns =
    scheduled last chance false (λ e. absurd (cc (ap length e))) (omega arith) run last-Stopped
      (λ e. e) (λ i e. e)

abbrev result : MutantResult
result = settle (add_attempt (fresh mutant) answer) answer

no_error : (after_pass chance false last).1 ≡ none
unfolding claim finish after_pass after_retry retry main_result held_back
no_error = refl

found : get_elem? (after_pass chance false last).0 0 ≡ some result
unfolding claim finish after_pass after_retry retry main_result held_back
found = refl

Schedule-Decided_example : Decided platform bins mutant result (ShowsSurvival platform bins mutant)
Schedule-Decided_example =
    (Schedule-Decided platform bins mutants 4 (after_pass chance false last) returns no_error 0
        mutant result refl found
        (
          record {
            opts = options;
            first = second_exits 0;
            second = second_exits 0;
            answer = answers;
          },
          tt,
        )).0
      refl
