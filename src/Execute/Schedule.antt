-- ===== src/Execute/Schedule.antt =====
-- internal/execute/schedule.go: several workers run the mutants, and what timed out is run again by
-- one. What `RunOne` answers is chosen by the environment, and so is when the context is cancelled.
-- A worker's claim of an index and what it writes when a run ends are one step each: the counter is
-- atomic, and the index that a worker runs is its own.
use go_mutants.Prelude.{
  ℕ, zero, suc, ◌+◌, ◌≡◌, Bool, true, false, not, ◌&&◌, ◌||◌, Option, none, some, List, [], ◌∷◌,
  ◌++◌, Bytes, leb, length, get_elem?, if◌then◌else◌,
}
pub use go_mutants.Prelude.Arrays.{set, modify}
use go_mutants.Mutation.Outcome.{
  Outcome, not_run, killed, survived, timed_out, inconclusive, errored, unnamed,
}
pub use go_mutants.Execute.Attempts.{Failure, Attempt, MutantRun}
pub mod Slots
pub mod Passing
pub mod Ending

pub record MutantResult : Type 0 where
  pub id : Bytes
  pub attempts : List Attempt
  pub final : Outcome
  pub killed_by : Bytes
  pub duration : ℕ
  pub output_tail : Bytes
  pub error : Option Failure

abbrev pub fresh : MutantRun → MutantResult
fresh m = record {
  id = m.id;
  attempts = [];
  final = not_run;
  killed_by = [];
  duration = 0;
  output_tail = [];
  error = none;
}

abbrev pub add_attempt : MutantResult → Attempt → MutantResult
add_attempt r a = record r { attempts = r.attempts ++ a ∷ []; duration = r.duration + a.duration }

abbrev pub is_errored : Outcome → Bool
is_errored errored = true
is_errored _ = false

abbrev pub is_timed_out : Outcome → Bool
is_timed_out timed_out = true
is_timed_out _ = false

abbrev pub settle : MutantResult → Attempt → MutantResult
settle r a = record r {
  final = a.outcome;
  killed_by = a.killed_by;
  output_tail = a.output_tail;
  error = if is_errored a.outcome then a.error else none;
}

abbrev confirm_by : Outcome → MutantResult → Attempt → MutantResult
confirm_by timed_out r a = record r {
  final = timed_out;
  killed_by = a.killed_by;
  output_tail = a.output_tail;
}
confirm_by killed r a = record r { final = inconclusive; output_tail = a.output_tail }
confirm_by survived r a = record r { final = inconclusive; output_tail = a.output_tail }
confirm_by errored r a = settle r a
confirm_by inconclusive r a = settle r a
confirm_by not_run r a = settle r a
confirm_by (unnamed n) r a = r

abbrev pub confirm : MutantResult → Attempt → MutantResult
confirm r a = confirm_by a.outcome r a

-- `treeFailure`
abbrev pub tree_failure : Attempt → Option Failure
tree_failure a = elim a.error [
  | none ↦ none
  | some f ↦ if f.tree_not_restored then some f else none
]

abbrev pub is_some {ℓ} : {A : Type ℓ} → Option A → Bool
is_some none = false
is_some (some _) = true

-- What the worker's loop makes of a result when its run has ended.
unfoldable pub main_result : MutantRun → Attempt → MutantResult → MutantResult
main_result m a r =
    if is_some (tree_failure a)
    then add_attempt r a
    else if is_timed_out a.outcome
    then if m.never_returns || a.diverged then confirm (add_attempt r a) a else add_attempt r a
    else settle (add_attempt r a) a

-- Whether it sets `pending[i]`.
unfoldable pub held_back : MutantRun → Attempt → Bool
held_back m a =
    not (is_some (tree_failure a))
    && (is_timed_out a.outcome && not (m.never_returns || a.diverged))

pub data Worker : Type 0 where
  idle stopped : Worker
  running : ℕ → Worker

pub record State : Type 0 where
  pub results : List MutantResult
  pub pending : List Bool
  pub next : ℕ
  pub failed : Option Failure
  pub cancelled : Bool
  pub workers : List Worker

-- `failed.CompareAndSwap(nil, &treeErr)`
abbrev pub first_failure : Option Failure → Option Failure → Option Failure
first_failure (some f) new = some f
first_failure none new = new

-- `next.Add(1) - 1`, and what the worker does with the index.
unfoldable pub claim : List MutantRun → ℕ → State → State
claim mutants w s =
    let worker : Worker = if leb (length mutants) s.next then stopped else running s.next in
    record s { next = s.next + 1; workers = set s.workers w worker }

-- The end of a run of mutant `m` at index `i` by worker `w`.
unfoldable pub finish : ℕ → ℕ → MutantRun → Attempt → State → State
finish w i m a s =
    let worker : Worker = if is_some (tree_failure a) then stopped else idle in
    record s {
      results = modify s.results i (main_result m a);
      pending = if held_back m a then set s.pending i true else s.pending;
      failed = first_failure s.failed (tree_failure a);
      workers = set s.workers w worker;
    }

-- One step of the workers or of the environment.
pub data Step (mutants : List MutantRun) : State → State → Type 0 where
  cancel : (s : State) → Step mutants s (record s { cancelled = true })
  leave :
      (s : State) (w : ℕ)
      → s.cancelled ≡ true
      → get_elem? s.workers w ≡ some idle
      → Step mutants s (record s { workers = set s.workers w stopped })
  claims :
      (s : State) (w : ℕ) → get_elem? s.workers w ≡ some idle → Step mutants s (claim mutants w s)
  finishes :
      (s : State) (w i : ℕ) (m : MutantRun) (a : Attempt)
      → get_elem? s.workers w ≡ some (running i)
      → get_elem? mutants i ≡ some m
      → Step mutants s (finish w i m a s)

pub data Reach (mutants : List MutantRun) (s : State) : State → Type 0 where
  here : Reach mutants s s
  then_step : {t u : State} → Reach mutants s t → Step mutants t u → Reach mutants s u

abbrev pub replicate {ℓ} : {A : Type ℓ} → ℕ → A → List A
replicate zero x = []
replicate (suc n) x = x ∷ replicate n x

abbrev pub fresh_all : List MutantRun → List MutantResult
fresh_all [] = []
fresh_all (m ∷ ms) = fresh m ∷ fresh_all ms

abbrev pub start : List MutantRun → ℕ → State
start mutants workers = record {
  results = fresh_all mutants;
  pending = replicate (length mutants) false;
  next = 0;
  failed = none;
  cancelled = false;
  workers = replicate workers idle;
}
