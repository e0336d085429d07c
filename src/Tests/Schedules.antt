-- ===== src/Tests/Schedules.antt =====
-- One mutant, which times out, and survives when it is run again.
use go_mutants.Prelude.{
  some-inj, ℕ, ◌≡◌, refl, ap, ◌∷◌, [], List, false, none, some, codes, get_elem?, ◌+◌, ◌*◌, ◌≤◌,
  length, arith, zero, suc, sym,
}
use go_mutants.Mutation.Outcome.{Outcome, survived, timed_out}
use go_mutants.Execute.Attempts.{pos, attempt_of}
use go_mutants.Execute.Schedule.{
  Attempt, MutantRun, MutantResult, State, start, claim, finish, Reach, here, then_step, claims,
  finishes, fresh, main_result, held_back, tree_failure, Worker,
}
use go_mutants.Execute.Schedule.Slots.{Sound}
use go_mutants.Execute.Schedule.Passing.{Stopped, Reach-Sound, pass-RunsEach}
use go_mutants.Execute.Schedule.Ending.{worker_steps, Moves, pass-Ends}
use go_mutants.Execute.Retry.{Chance, Returns, scheduled, after_pass, after_retry, retry}
use go_mutants.Execute.Retry.Judging.{Judged, Schedule-Judges}

abbrev mutant : MutantRun
mutant = record {
  id = codes "m";
  timeout = pos 9;
  never_returns = false;
  memory_limit = 0;
  binaries = none;
  tests = [];
  args = [];
  output_limit = 0;
  record_test_log = false;
}

abbrev attempt : Outcome → ℕ → Attempt
attempt outcome duration = record (attempt_of outcome) { duration = duration }

abbrev mutants : List MutantRun
mutants = mutant ∷ []

-- The worker claims the mutant, its run ends, and it finds nothing more.
abbrev claimed : State
claimed = claim mutants 0 (start mutants 1)

abbrev ended : State
ended = finish 0 0 mutant (attempt timed_out 5) claimed

abbrev last : State
last = claim mutants 0 ended

run : Reach mutants (start mutants 1) last
unfolding claim finish
run =
    then_step
      (then_step (then_step here (claims (start mutants 1) 0 refl))
        (finishes claimed 0 0 mutant (attempt timed_out 5) refl refl))
      (claims ended 0 refl)

last-Stopped : Stopped last
unfolding claim finish
last-Stopped zero x e = sym (some-inj e)
last-Stopped (suc w) x e = absurd (cc)

Reach-Sound_example : Sound mutants last
Reach-Sound_example = Reach-Sound mutants 1 last run

last-cancelled : last.cancelled ≡ false
unfolding claim finish
last-cancelled = refl

last-failed : last.failed ≡ none
unfolding claim finish
last-failed = refl

pass-RunsEach_example :
    (a : Attempt) × (get_elem? last.results 0 ≡ some (main_result mutant a (fresh mutant)))
    × (get_elem? last.pending 0 ≡ some (held_back mutant a))
    × (tree_failure a ≡ none)
pass-RunsEach_example =
    pass-RunsEach mutants 1 last run (omega arith) last-Stopped last-cancelled last-failed 0 mutant
      refl

pass-Ends_example :
    (worker_steps run ≤ 2 * length mutants + 1)
    × ((w : ℕ) (x : Worker) → get_elem? last.workers w ≡ some x → Moves mutants last w x)
pass-Ends_example = pass-Ends mutants 1 last run

-- The retry is not cancelled, and the second run survives.
abbrev chance : ℕ → Chance
chance i = record { cancelled = false; attempt = attempt survived 3 }

returns : Returns mutants 4 1 (after_pass chance false last)
unfolding claim finish
returns =
    scheduled last chance false (λ e. absurd (cc (ap length e))) (omega arith) run last-Stopped
      (λ e. e) (λ i e. e)

no_error : (after_pass chance false last).1 ≡ none
unfolding claim finish after_pass after_retry retry main_result held_back
no_error = refl

Schedule-Judges_example :
    (r : MutantResult) × (get_elem? (after_pass chance false last).0 0 ≡ some r) × Judged mutant r
Schedule-Judges_example =
    Schedule-Judges mutants 4 1 (after_pass chance false last) returns no_error 0 mutant refl
