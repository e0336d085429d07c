-- ===== src/Execute/Retry.antt =====
-- internal/execute/schedule.go, `Schedule` as a whole: its early returns, the pass of the workers, the
-- retry of what timed out by one worker, and its errors. The context and the runs of the retry are
-- chosen by the environment: `Chance` is what the retry meets at an index.
use go_mutants.Prelude.{
  ℕ, suc, ◌+◌, ◌<◌, ◌≡◌, ◌≢◌, Bool, true, false, ◌||◌, Option, none, some, List, [], ◌∷◌, Bytes,
  ltb, length, if◌then◌else◌,
}
use go_mutants.Mutation.Outcome.{Outcome, not_run}
use go_mutants.Execute.Schedule.{
  Failure, Attempt, MutantRun, MutantResult, add_attempt, confirm, tree_failure, State, Reach,
  fresh_all, start,
}
use go_mutants.Execute.Schedule.Passing.{Stopped}
pub mod Judging
pub mod Surviving

-- Whether the context is found cancelled there, and the attempt if it is not.
pub record Chance : Type 0 where
  pub cancelled : Bool
  pub attempt : Attempt

pub record Retried : Type 0 where
  pub results : List MutantResult
  pub unretried : Bool
  pub broken : Option Failure

abbrev keep : MutantResult → Retried → Retried
keep r rest = record rest { results = r ∷ rest.results }

abbrev is_not_run : Outcome → Bool
is_not_run not_run = true
is_not_run _ = false

abbrev skip : MutantResult → Retried → Retried
skip r rest = record {
  results = record r { final = not_run } ∷ rest.results;
  unretried = true;
  broken = rest.broken;
}

abbrev judge_again : MutantResult → Attempt → Retried → Retried
judge_again r a rest = record {
  results = confirm (add_attempt r a) a ∷ rest.results;
  unretried = is_not_run a.outcome || rest.unretried;
  broken = rest.broken;
}

-- The loop of the retry over the results and `pending`, from index `i` on.
unfoldable pub retry : (ℕ → Chance) → ℕ → List MutantResult → List Bool → Retried
retry chance i [] pending = record { results = []; unretried = false; broken = none }
retry chance i (r ∷ rs) [] = record { results = r ∷ rs; unretried = false; broken = none }
retry chance i (r ∷ rs) (false ∷ pending) = keep r (retry chance (suc i) rs pending)
retry chance i (r ∷ rs) (true ∷ pending) = elim ((chance i).cancelled) [
  | true ↦ skip r (retry chance (suc i) rs pending)
  | false ↦ elim (tree_failure (chance i).attempt) [
    | none ↦ judge_again r (chance i).attempt (retry chance (suc i) rs pending)
    | some f ↦ record {
      results = add_attempt r (chance i).attempt ∷ rs;
      unretried = false;
      broken = some f;
    }
  ]
]

-- `stageResult`: whether the stage `retry` is reported as failed.
abbrev stage_failed : Bool → Bool
stage_failed unretried = unretried

abbrev held_back_count : List Bool → ℕ
held_back_count [] = 0
held_back_count (h ∷ pending) = (if h then 1 else 0) + held_back_count pending

-- `cutOff`: the invocation of the first attempt that an interruption cut off.
abbrev attempt_cut : Attempt → Option Bytes
attempt_cut a = elim a.error [ none ↦ none | some f ↦ f.cut_off ]

abbrev first_cut : List Attempt → Option Bytes
first_cut [] = none
first_cut (a ∷ as') = elim (attempt_cut a) [ some c ↦ some c | none ↦ first_cut as' ]

abbrev pub cut_off : List MutantResult → Option Bytes
cut_off [] = none
cut_off (r ∷ rs) = elim (first_cut r.attempts) [ some c ↦ some c | none ↦ cut_off rs ]

pub data ScheduleError : Type 0 where
  no_test_binaries : ScheduleError
  tree_not_restored : Failure → ScheduleError
  interrupted : Option Bytes → ScheduleError

-- What is returned after the retry; `cancelled` is the last look at the context.
unfoldable pub after_retry : Bool → Retried → List MutantResult × Option ScheduleError
after_retry cancelled r = elim r.broken [
  | some f ↦ (r.results, some (tree_not_restored f))
  | none ↦ (r.results, if cancelled then some (interrupted (cut_off r.results)) else none)
]

-- `wg.Wait()` and what follows.
unfoldable pub after_pass : (ℕ → Chance) → Bool → State → List MutantResult × Option ScheduleError
unfolding after_retry
after_pass chance cancelled s = elim s.failed [
  | some f ↦ (s.results, some (tree_not_restored f))
  | none ↦ after_retry cancelled (retry chance 0 s.results s.pending)
]

-- `opts.workers()`
abbrev pub jobs_workers : ℕ → ℕ
jobs_workers jobs = if ltb jobs 1 then 1 else jobs

abbrev pub worker_count : ℕ → List MutantRun → ℕ
worker_count jobs mutants =
    if ltb (length mutants) (jobs_workers jobs) then length mutants else jobs_workers jobs

-- What `Schedule` may return for the mutants with so many jobs and test binaries. A context that is
-- cancelled stays so.
pub data Returns (mutants : List MutantRun) (jobs binaries : ℕ)
    : List MutantResult × Option ScheduleError → Type 0 where
  nothing : mutants ≡ [] → Returns mutants jobs binaries (fresh_all mutants, none)
  unmeasured :
      mutants ≢ []
      → binaries ≡ 0
      → Returns mutants jobs binaries (fresh_all mutants, some no_test_binaries)
  scheduled :
      (s : State) (chance : ℕ → Chance) (cancelled : Bool)
      → mutants ≢ []
      → 0 < binaries
      → Reach mutants (start mutants (worker_count jobs mutants)) s
      → Stopped s
      → (s.cancelled ≡ true → cancelled ≡ true)
      → ((i : ℕ) → (chance i).cancelled ≡ true → cancelled ≡ true)
      → Returns mutants jobs binaries (after_pass chance cancelled s)
