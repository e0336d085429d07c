-- ===== src/Mutation/Policy.antt =====
-- internal/mutation/exitpolicy.go: which exit code a finished run has, and why.
use go_mutants.Prelude.{
  ℕ, ◌+◌, Bool, true, false, not, ◌&&◌, ◌||◌, List, [], ◌∷◌, ◌++◌, Bytes, codes, ltb, ◌==◌, any,
  if◌then◌else◌, some, none, Option,
}
use go_mutants.Prelude.Decimal.{itoa}
use go_mutants.Mutation.Score.{
  Result, Tally, Tallied, tally_of, total, Score, score_of, Float64, percent, score_string,
}
use go_mutants.Mutation.Score
pub mod Verdicts

pub data ExitCode : Type 0 where
  exit_ok exit_policy_failure exit_infrastructure exit_interrupted exit_terminated : ExitCode

abbrev pub code_number : ExitCode → ℕ
code_number exit_ok = 0
code_number exit_policy_failure = 1
code_number exit_infrastructure = 2
code_number exit_interrupted = 130
code_number exit_terminated = 143

pub record Signals : Type 0 where
  pub infrastructure_error : Bool
  pub expectation_failure : Bool

pub data FailureReason : Type 0 where
  infrastructure errored_mutants expectation unexpected_survivors : FailureReason
  below_minimum_score no_mutants : FailureReason

abbrev pub reason_eq : FailureReason → FailureReason → Bool
reason_eq infrastructure infrastructure = true
reason_eq errored_mutants errored_mutants = true
reason_eq expectation expectation = true
reason_eq unexpected_survivors unexpected_survivors = true
reason_eq below_minimum_score below_minimum_score = true
reason_eq no_mutants no_mutants = true
reason_eq _ _ = false

pub record Failure : Type 0 where
  pub reason : FailureReason
  pub detail : Bytes

pub record Verdict : Type 0 where
  pub code : ExitCode
  pub failures : List Failure
  pub score : Score

abbrev pub is_nil : List Failure → Bool
is_nil [] = true
is_nil (_ ∷ _) = false

unfoldable pub verdict_ok : Verdict → Bool
verdict_ok v = code_number v.code == 0 && is_nil v.failures

unfoldable pub has : FailureReason → Verdict → Bool
has r v = any (λ f. reason_eq f.reason r) v.failures

pub count_noun : ℕ → Bytes → Bytes
count_noun n noun = if n == 1 then codes "1 " ++ noun else itoa n ++ codes " " ++ noun ++ codes "s"

-- `if cond { v.Failures = append(v.Failures, f) }`
abbrev pub when : Bool → Failure → List Failure
when true f = f ∷ []
when false f = []

-- The failures that no policy can waive.
infrastructure_failures : Tally → Signals → List Failure
infrastructure_failures t s =
    when s.infrastructure_error (record {
      reason = infrastructure;
      detail = codes "the run hit an infrastructure, configuration, or baseline failure";
    })
    ++ when (ltb 0 t.errored_count) (record {
      reason = errored_mutants;
      detail =
          count_noun t.errored_count (codes "mutant")
          ++ codes " could not be executed by the harness";
    })
    ++ when s.expectation_failure
        (record { reason = expectation; detail = codes "an expectation is unfulfilled or stale" })

module _ (F : Float64) where
  open F use {Num, of_int, lt, format}

  pub record Policy : Type 0 where
    pub strict : Bool
    pub minimum_score : Num
    pub require_mutants : Bool

  abbrev pub default_policy : Policy
  default_policy = record { strict = false; minimum_score = of_int 0; require_mutants = true }

  -- `Policy.Validate`: whether the minimum lies in [0,100].
  unfoldable pub policy_valid : Policy → Bool
  policy_valid p = not (lt p.minimum_score (of_int 0) || lt (of_int 100) p.minimum_score)

  -- `percent < p.MinimumScore`, for a score that is defined and a minimum that is set.
  unfoldable pub below_minimum : Score → Policy → Bool
  unfolding percent
  below_minimum score p = elim (percent F score) [
    | none ↦ false
    | some pc ↦ lt (of_int 0) p.minimum_score && lt pc p.minimum_score
  ]

  format_percent : Num → Bytes
  format_percent p = format p ++ codes "%"

  -- The failures of the policy.
  policy_failures : Tally → Policy → List Failure
  policy_failures t p =
      when (p.strict && ltb 0 t.unexpected_survivors) (record {
        reason = unexpected_survivors;
        detail =
            codes "policy.strict is set and "
            ++ count_noun t.unexpected_survivors (codes "mutant")
            ++ codes " survived unexpectedly";
      })
      ++ when (below_minimum (score_of t) p) (record {
        reason = below_minimum_score;
        detail =
            codes "score "
            ++ score_string F (score_of t)
            ++ codes " is below policy.minimum_score "
            ++ format_percent p.minimum_score;
      })
      ++ when (p.require_mutants && total t == 0) (record {
        reason = no_mutants;
        detail = codes "policy.require_mutants is set and the run produced no mutants";
      })

  unfoldable pub decide : Tally → Policy → Signals → Verdict
  unfolding infrastructure_failures policy_failures format_percent
  decide t p s =
      let hard = infrastructure_failures t s in
      let soft = policy_failures t p in
      if not (is_nil hard)
      then record { code = exit_infrastructure; failures = hard; score = score_of t }
      else if not (is_nil soft)
      then record { code = exit_policy_failure; failures = soft; score = score_of t }
      else record { code = exit_ok; failures = []; score = score_of t }

  pub data Decided : Type 0 where
    ok : Verdict → Decided
    err : ℕ → Decided

  unfoldable pub decide_results : List Result → Policy → Signals → Decided
  unfolding decide tally_of
  decide_results results p s = elim (tally_of results) [
    | Tallied.ok t ↦ ok (decide t p s)
    | Tallied.err i ↦ err i
  ]
