-- ===== src/Execute/Retry/Surviving.antt =====
-- The schedule over what `RunOne` answers.
use go_mutants.Prelude.{
  ℕ, ◌≡◌, ◌≢◌, ◌⊎◌, sym, ap, ◌∙◌, subst, Option, none, some, List, [], ◌∷◌, get_elem?, All, length,
  some-inj,
}
use go_mutants.Mutation.Outcome.{
  Outcome, not_run, killed, survived, timed_out, inconclusive, errored, unnamed,
}
use go_mutants.Execute.Attempts.{Attempt, MutantRun}
use go_mutants.Execute.Narrowing.{Platform}
use go_mutants.Execute.Running.{TestBinary, World, Options, run_narrowed, run_one, whole}
use go_mutants.Execute.Running.Blame.{Kills}
use go_mutants.Execute.Running.Answer.{
  Survived, Ended, whole_world, run_one-Survived, run_one-EndedBy,
}
use go_mutants.Execute.Schedule.{MutantResult}
use go_mutants.Execute.Retry.{ScheduleError, Returns}
use go_mutants.Execute.Retry.Judging.{second_opinion, Judged, at_once, again, Schedule-Judges}

second_opinion-ne-survived : (o : Outcome) → second_opinion o ≢ survived
second_opinion-ne-survived timed_out e = absurd (cc)
second_opinion-ne-survived killed e = absurd (cc)
second_opinion-ne-survived survived e = absurd (cc)
second_opinion-ne-survived errored e = absurd (cc)
second_opinion-ne-survived inconclusive e = absurd (cc)
second_opinion-ne-survived not_run e = absurd (cc)
second_opinion-ne-survived (unnamed n) e = absurd (cc)

second_opinion-ne-killed : (o : Outcome) → second_opinion o ≢ killed
second_opinion-ne-killed timed_out e = absurd (cc)
second_opinion-ne-killed killed e = absurd (cc)
second_opinion-ne-killed survived e = absurd (cc)
second_opinion-ne-killed errored e = absurd (cc)
second_opinion-ne-killed inconclusive e = absurd (cc)
second_opinion-ne-killed not_run e = absurd (cc)
second_opinion-ne-killed (unnamed n) e = absurd (cc)

module _ (p : Platform) (bins : List TestBinary) where
  -- The attempt is what `RunOne` answers for the mutant, with the options of some worker, which has a
  -- tree and a directory of its own, and in some two worlds.
  pub record IsAnswer (m : MutantRun) (a : Attempt) : Type 0 where
    pub opts : Options
    pub first : World
    pub second : World
    pub answer : a ≡ run_one p opts m first second bins

  -- What a whole pass that the mutant survived shows of an answer of `RunOne`.
  abbrev pub ShowsSurvival : (m : MutantRun) (a : Attempt) → IsAnswer m a → Type 0
  ShowsSurvival m a w =
      Survived p w.opts (whole m) (whole_world p w.opts m w.first w.second bins) bins a

  -- What a pass that a binary ended by failing shows of it: the first pass, or the one over the whole
  -- binaries behind named tests that let the mutant survive.
  abbrev pub ShowsKilling : (m : MutantRun) (a : Attempt) → IsAnswer m a → Type 0
  ShowsKilling m a w =
      Ended p w.opts m w.first bins a Kills
      ⊎ (((run_narrowed p w.opts m w.first bins).outcome ≡ survived)
          × Ended p w.opts (whole m) w.second bins a Kills)

  -- The one attempt of a result is an answer of `RunOne`, and whatever options and worlds it is the
  -- answer for show what happened.
  pub record Decided (m : MutantRun) (r : MutantResult)
      (Shows : (a : Attempt) → IsAnswer m a → Type 0) : Type 0 where
    pub attempt : Attempt
    pub only : r.attempts ≡ attempt ∷ []
    pub answered : IsAnswer m attempt
    pub shown : (w : IsAnswer m attempt) → Shows attempt w

  survival_shown :
      (m : MutantRun) (a : Attempt) (w : IsAnswer m a) → a.outcome ≡ survived → ShowsSurvival m a w
  survival_shown m a w s =
      subst (Survived p w.opts (whole m) (whole_world p w.opts m w.first w.second bins) bins)
        (sym w.answer)
        (run_one-Survived p w.opts m w.first w.second bins
          (ap (λ (x : Attempt). x.outcome) (sym w.answer) ∙ s))

  killing_shown :
      (m : MutantRun) (a : Attempt) (w : IsAnswer m a) → a.outcome ≡ killed → ShowsKilling m a w
  killing_shown m a w s =
      subst
        (λ (x : Attempt).
          Ended p w.opts m w.first bins x Kills
          ⊎ (((run_narrowed p w.opts m w.first bins).outcome ≡ survived)
              × Ended p w.opts (whole m) w.second bins x Kills))
        (sym w.answer)
        ((run_one-EndedBy p w.opts m w.first w.second bins).0
          (ap (λ (x : Attempt). x.outcome) (sym w.answer) ∙ s))

  Judged-survived :
      (m : MutantRun) (r : MutantResult)
      → Judged m r
      → All (IsAnswer m) r.attempts
      → r.final ≡ survived
      → Decided m r (ShowsSurvival m)
  Judged-survived m r (at_once a only final s d) answers f = record {
    attempt = a;
    only = only;
    answered = (subst (All (IsAnswer m)) only answers).0;
    shown = λ w. survival_shown m a w (sym final ∙ f);
  }
  Judged-survived m r (again a b only t d final s) answers f =
      absurd (second_opinion-ne-survived b.outcome (sym final ∙ f))

  Judged-killed :
      (m : MutantRun) (r : MutantResult)
      → Judged m r
      → All (IsAnswer m) r.attempts
      → r.final ≡ killed
      → Decided m r (ShowsKilling m)
  Judged-killed m r (at_once a only final s d) answers f = record {
    attempt = a;
    only = only;
    answered = (subst (All (IsAnswer m)) only answers).0;
    shown = λ w. killing_shown m a w (sym final ∙ f);
  }
  Judged-killed m r (again a b only t d final s) answers f =
      absurd (second_opinion-ne-killed b.outcome (sym final ∙ f))

  -- If `Schedule` returns no error and its attempts are answers of `RunOne`, a mutant that it calls
  -- survived or killed was attempted once. Whatever options and worlds that attempt is the answer of
  -- `RunOne` for: if it is called survived, all the whole binaries passed there; if it is called
  -- killed, one binary ended that run by failing.
  pub Schedule-Decided :
      (mutants : List MutantRun) (jobs : ℕ) (out : List MutantResult × Option ScheduleError)
      → Returns mutants jobs (length bins) out
      → out.1 ≡ none
      → (i : ℕ) (m : MutantRun) (r : MutantResult) → get_elem? mutants i ≡ some m
      → get_elem? out.0 i ≡ some r
      → All (IsAnswer m) r.attempts
      → (r.final ≡ survived → Decided m r (ShowsSurvival m))
        × (r.final ≡ killed → Decided m r (ShowsKilling m))
  Schedule-Decided mutants jobs out returned fine i m r at found answers =
      let (r', found', judged) =
        Schedule-Judges mutants jobs (length bins) out returned fine i m at in
      let judged_r = subst (Judged m) (some-inj (sym found' ∙ found)) judged in
      (Judged-survived m r judged_r answers, Judged-killed m r judged_r answers)
