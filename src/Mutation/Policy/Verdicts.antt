-- ===== src/Mutation/Policy/Verdicts.antt =====
-- The exit code and the reasons of a verdict, read off the run.
use go_mutants.Prelude.{
  ◌≡◌, ◌↔◌, sym, ◌∙◌, Bool, true, false, not, ◌&&◌, ◌||◌, arith, ltb, ◌==◌, if◌then◌else◌, ◌+◌,
  List, All,
}
use go_mutants.Mutation.Score.{
  Result, Tally, Tallied, total, Float64, score_of, percent, empty_tally, tally_of,
}
use go_mutants.Mutation.Score.Counting.{Counts, Tallies, tally_of-Tallies}
use go_mutants.Mutation.Outcome.{valid}
use go_mutants.Mutation.Policy.{
  Policy, Signals, Verdict, FailureReason, exit_ok, exit_policy_failure, exit_infrastructure,
  infrastructure, errored_mutants, expectation, unexpected_survivors, below_minimum_score,
  no_mutants, has, verdict_ok, decide, below_minimum, Decided, decide_results,
}

-- Something went wrong that says nothing about the tests of the program.
abbrev pub harness_broke : Tally → Signals → Bool
harness_broke t s = s.infrastructure_error || (ltb 0 t.errored_count || s.expectation_failure)

module _ (F : Float64) where
  open F use {of_int, lt, div, mul}

  -- The share of the detected mutants among those and the unexpected survivors, in percent, is below a
  -- minimum that is above zero.
  abbrev pub falls_short : Tally → Policy F → Bool
  falls_short t p =
      let caught = t.killed_count + t.timed_out_count in
      let all = caught + t.unexpected_survivors in
      ltb 0 all
      && (lt (of_int 0) p.minimum_score
          && lt (mul (div (of_int caught) (of_int all)) (of_int 100)) p.minimum_score)

  below_minimum-falls_short :
      (t : Tally) (p : Policy F) → below_minimum F (score_of t) p ≡ falls_short t p
  unfolding below_minimum percent
  below_minimum-falls_short t p = ground arith

  -- What each failure reason means.
  abbrev pub applies : Tally → Policy F → Signals → FailureReason → Bool
  applies t p s infrastructure = s.infrastructure_error
  applies t p s errored_mutants = ltb 0 t.errored_count
  applies t p s expectation = s.expectation_failure
  applies t p s unexpected_survivors =
      not (harness_broke t s) && (p.strict && ltb 0 t.unexpected_survivors)
  applies t p s below_minimum_score = not (harness_broke t s) && falls_short t p
  applies t p s no_mutants = not (harness_broke t s) && (p.require_mutants && total t == 0)

  has-decide :
      (t : Tally) (p : Policy F) (s : Signals) (r : FailureReason)
      → has r (decide F t p s) ≡ applies t p s r
  unfolding has decide
  has-decide t p s infrastructure = ground arith
  has-decide t p s errored_mutants = ground arith
  has-decide t p s expectation = ground arith
  has-decide t p s unexpected_survivors = ground arith
  has-decide t p s below_minimum_score = ground (arith, below_minimum-falls_short t p)
  has-decide t p s no_mutants = ground arith

  abbrev pub policy_broken : Tally → Policy F → Bool
  policy_broken t p =
      p.strict && ltb 0 t.unexpected_survivors
      || (falls_short t p || p.require_mutants && total t == 0)

  code-decide :
      (t : Tally) (p : Policy F) (s : Signals)
      → (decide F t p s).code ≡ (
          if harness_broke t s
          then exit_infrastructure
          else if policy_broken t p
          then exit_policy_failure
          else exit_ok)
  unfolding decide
  code-decide t p s = ground (arith, below_minimum-falls_short t p)

  pub record Explains (t : Tally) (p : Policy F) (s : Signals) (v : Verdict) : Type 0 where
    pub code_says : v.code ≡ (
        if harness_broke t s
        then exit_infrastructure
        else if policy_broken t p
        then exit_policy_failure
        else exit_ok)
    pub reasons_say : (r : FailureReason) → has r v ≡ applies t p s r
    pub score_says :
        (v.score.detected ≡ t.killed_count + t.timed_out_count)
        × (v.score.denominator ≡ t.killed_count + t.timed_out_count + t.unexpected_survivors)
    pub ok_says : (verdict_ok v ≡ true) ↔ ((r : FailureReason) → applies t p s r ≡ false)

  verdict_ok-decide :
      (t : Tally) (p : Policy F) (s : Signals)
      → verdict_ok (decide F t p s) ≡ not (harness_broke t s || policy_broken t p)
  unfolding decide verdict_ok
  verdict_ok-decide t p s = ground (arith, below_minimum-falls_short t p)

  none_applies :
      (t : Tally) (p : Policy F) (s : Signals) (r : FailureReason)
      → not (harness_broke t s || policy_broken t p) ≡ true
      → applies t p s r ≡ false
  none_applies t p s infrastructure e = ground arith
  none_applies t p s errored_mutants e = ground arith
  none_applies t p s expectation e = ground arith
  none_applies t p s unexpected_survivors e = ground arith
  none_applies t p s below_minimum_score e = ground arith
  none_applies t p s no_mutants e = ground arith

  applies-none :
      (t : Tally) (p : Policy F) (s : Signals)
      → ((r : FailureReason) → applies t p s r ≡ false)
      → not (harness_broke t s || policy_broken t p) ≡ true
  applies-none t p s f = ground (
    arith,
    f infrastructure,
    f errored_mutants,
    f expectation,
    f unexpected_survivors,
    f below_minimum_score,
    f no_mutants,
  )

  decide-Explains : (t : Tally) (p : Policy F) (s : Signals) → Explains t p s (decide F t p s)
  unfolding decide
  decide-Explains t p s = record {
    code_says = code-decide t p s;
    reasons_say = has-decide t p s;
    ok_says = (
      λ e r. none_applies t p s r (sym (verdict_ok-decide t p s) ∙ e),
      λ f. verdict_ok-decide t p s ∙ applies-none t p s f,
    );
    score_says = ground arith;
  }

  -- What the results, the policy and the signals call for.
  abbrev pub Judges : List Result → Policy F → Signals → Decided F → Type 0
  Judges rs p s (Decided.ok v) =
      All (λ r. valid r.outcome ≡ true) rs
      × ((t : Tally) × Counts empty_tally rs t × Explains t p s v)
  Judges rs p s (Decided.err i) = Tallies 0 empty_tally rs (Tallied.err i)

  judged :
      (rs : List Result) (p : Policy F) (s : Signals) (o : Tallied)
      → Tallies 0 empty_tally rs o
      → Judges rs p s
          (elim o [ Tallied.ok t ↦ Decided.ok (decide F t p s) | Tallied.err i ↦ Decided.err i ])
  judged rs p s (Tallied.ok t) h = (h.0, (t, h.1, decide-Explains t p s))
  judged rs p s (Tallied.err i) h = h

  -- If the outcomes of all results are known ones, the verdict on them explains itself, by the numbers
  -- of the results of each kind: its code is that of a harness failure if there was one, that is if the
  -- signals tell of one or a result errored; else of a policy failure if the policy is broken, by
  -- unexpected survivors where it is strict, by a score below a minimum above zero, or by no results
  -- where it wants some; else of success. Its failures have exactly the reasons that apply, those of the
  -- policy only when the harness did not fail; it is OK exactly when no reason applies; and its score is
  -- of the killed and timed out ones, among those and the unexpected survivors. Otherwise there is no
  -- verdict, but the position of the first result of an unknown outcome.
  pub decide_results-Judges :
      (rs : List Result) (p : Policy F) (s : Signals) → Judges rs p s (decide_results F rs p s)
  unfolding decide_results
  decide_results-Judges rs p s = judged rs p s (tally_of rs) (tally_of-Tallies rs)
