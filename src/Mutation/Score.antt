-- ===== src/Mutation/Score.antt =====
-- internal/mutation/score.go: the tally of a run's outcomes and the score. The counters are Go
-- ints that only grow by one for each mutant, so they are numbers here. Floating point stays a
-- parameter, `Float64`.
use go_mutants.Prelude.{
  ℕ, suc, ◌+◌, Bool, true, false, Option, none, some, List, [], ◌∷◌, ◌++◌, Bytes, codes, ltb, not,
  if◌then◌else◌,
}
use go_mutants.Mutation.Outcome.{
  Outcome, not_run, killed, survived, timed_out, inconclusive, errored, unnamed,
}
pub mod Counting

pub record Result : Type 0 where
  pub outcome : Outcome
  pub expected_survivor : Bool

pub record Tally : Type 0 where
  pub killed_count : ℕ
  pub timed_out_count : ℕ
  pub unexpected_survivors : ℕ
  pub expected_survivors : ℕ
  pub inconclusive_count : ℕ
  pub errored_count : ℕ
  pub not_run_count : ℕ

abbrev pub empty_tally : Tally
empty_tally = record {
  killed_count = 0;
  timed_out_count = 0;
  unexpected_survivors = 0;
  expected_survivors = 0;
  inconclusive_count = 0;
  errored_count = 0;
  not_run_count = 0;
}

-- `Record`; `none` is `ErrUnknownOutcome`.
record_by : Outcome → Bool → Tally → Option Tally
record_by killed _ t = some (record t { killed_count = t.killed_count + 1 })
record_by timed_out _ t = some (record t { timed_out_count = t.timed_out_count + 1 })
record_by survived expected t =
    if expected
    then some (record t { expected_survivors = t.expected_survivors + 1 })
    else some (record t { unexpected_survivors = t.unexpected_survivors + 1 })
record_by inconclusive _ t = some (record t { inconclusive_count = t.inconclusive_count + 1 })
record_by errored _ t = some (record t { errored_count = t.errored_count + 1 })
record_by not_run _ t = some (record t { not_run_count = t.not_run_count + 1 })
record_by (unnamed n) _ t = none

unfoldable pub record_result : Tally → Result → Option Tally
unfolding record_by
record_result t r = record_by r.outcome r.expected_survivor t

-- The tally, or the position of the result that could not be recorded.
pub data Tallied : Type 0 where
  ok : Tally → Tallied
  err : ℕ → Tallied

pub tally_from : ℕ → Tally → List Result → Tallied
tally_from i t [] = ok t
tally_from i t (r ∷ rs) = elim (record_result t r) [
  | none ↦ err i
  | some t' ↦ tally_from (suc i) t' rs
]

unfoldable pub tally_of : List Result → Tallied
unfolding tally_from record_result
tally_of results = tally_from 0 empty_tally results

abbrev pub detected : Tally → ℕ
detected t = t.killed_count + t.timed_out_count

abbrev pub survived_count : Tally → ℕ
survived_count t = t.unexpected_survivors + t.expected_survivors

abbrev pub denominator : Tally → ℕ
denominator t = detected t + t.unexpected_survivors

abbrev pub total : Tally → ℕ
total t = detected t + survived_count t + t.inconclusive_count + t.errored_count + t.not_run_count

pub record Score : Type 0 where
  pub detected : ℕ
  pub denominator : ℕ

abbrev pub score_of : Tally → Score
score_of t = record { detected = detected t; denominator = denominator t }

abbrev pub defined : Score → Bool
defined s = ltb 0 s.denominator

-- The operations on float64 that the code uses. `format` is `FormatFloat(x, 'f', 2, 64)`.
pub record Float64 : Type 1 where
  pub Num : Type 0
  pub of_int : ℕ → Num
  pub div : Num → Num → Num
  pub mul : Num → Num → Num
  pub lt : Num → Num → Bool
  pub format : Num → Bytes

module _ (F : Float64) where
  open F use {Num, of_int, div, mul, format}

  -- The second result, `ok`, is whether there is a first.
  unfoldable pub percent : Score → Option Num
  percent s =
      if not (defined s)
      then none
      else some (mul (div (of_int s.detected) (of_int s.denominator)) (of_int 100))

  unfoldable pub score_string : Score → Bytes
  unfolding percent
  score_string s = elim (percent s) [ none ↦ codes "n/a" | some p ↦ format p ++ codes "%" ]
