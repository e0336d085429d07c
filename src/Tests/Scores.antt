-- ===== src/Tests/Scores.antt =====
-- A run with one result of most kinds, judged with whole numbers in place of float64.
use go_mutants.Prelude.{ℕ, ◌*◌, ◌/◌, true, false, ltb, List, [], ◌∷◌}
use go_mutants.Prelude.Decimal.{itoa}
use go_mutants.Mutation.Outcome.{Outcome, killed, survived, timed_out, not_run}
use go_mutants.Mutation.Score.{Result, tally_of, empty_tally, Float64}
use go_mutants.Mutation.Score.Counting.{Tallies, tally_of-Tallies}
use go_mutants.Mutation.Policy.{Policy, Signals, decide_results}
use go_mutants.Mutation.Policy.Verdicts.{Judges, decide_results-Judges}

abbrev result : Outcome → Result
result o = record { outcome = o; expected_survivor = false }

abbrev results : List Result
results =
    result killed
    ∷ result survived
    ∷ record { outcome = survived; expected_survivor = true }
    ∷ result timed_out
    ∷ result not_run
    ∷ []

tally_of-Tallies_example : Tallies 0 empty_tally results (tally_of results)
tally_of-Tallies_example = tally_of-Tallies results

abbrev whole : Float64
whole = record {
  Num = ℕ;
  of_int = λ n. n;
  div = λ a b. a * 100 / b;
  mul = λ a b. a * b / 100;
  lt = ltb;
  format = itoa;
}

abbrev demanding : Policy whole
demanding = record { strict = true; minimum_score = 80; require_mutants = true }

abbrev calm : Signals
calm = record { infrastructure_error = false; expectation_failure = false }

decide_results-Judges_example :
    Judges whole results demanding calm (decide_results whole results demanding calm)
decide_results-Judges_example = decide_results-Judges whole results demanding calm
