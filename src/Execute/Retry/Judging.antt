-- ===== src/Execute/Retry/Judging.antt =====
-- The result that `Schedule` returns for each mutant.
use go_mutants.Prelude.{
  some-inj, ℕ, zero, suc, ◌+◌, ◌<◌, ◌≡◌, ◌≢◌, refl, sym, ap, ◌∙◌, inl, inr, Bool, true, false, ◌||◌,
  Bool-cases, Option, none, some, Option-cases, List, [], ◌∷◌, get_elem?, arith,
}
use go_mutants.Mutation.Outcome.{
  Outcome, not_run, killed, survived, timed_out, inconclusive, errored, unnamed,
}
use go_mutants.Execute.Schedule.{
  Failure, Attempt, MutantRun, MutantResult, fresh, add_attempt, is_timed_out, confirm, settle,
  tree_failure, main_result, held_back, State,
}
use go_mutants.Execute.Schedule.Passing.{pass-RunsEach}
use go_mutants.Execute.Retry.{
  Chance, retry, judge_again, after_retry, after_pass, worker_count, ScheduleError, Returns,
  nothing, unmeasured, scheduled,
}

-- What a second run of a mutant that timed out makes of it.
abbrev pub second_opinion : Outcome → Outcome
second_opinion timed_out = timed_out
second_opinion killed = inconclusive
second_opinion survived = inconclusive
second_opinion errored = errored
second_opinion inconclusive = inconclusive
second_opinion not_run = not_run
second_opinion (unnamed n) = not_run

-- One attempt decides, unless it timed out and neither the mutant nor the attempt is known not to
-- return: then a second one is made.
pub data Judged (m : MutantRun) (r : MutantResult) : Type 0 where
  at_once :
      (a : Attempt)
      → r.attempts ≡ a ∷ []
      → r.final ≡ a.outcome
      → (a.outcome ≡ timed_out → (m.never_returns || a.diverged) ≡ true)
      → r.duration ≡ a.duration
      → Judged m r
  again :
      (a b : Attempt)
      → r.attempts ≡ a ∷ b ∷ []
      → a.outcome ≡ timed_out
      → (m.never_returns || a.diverged) ≡ false
      → r.final ≡ second_opinion b.outcome
      → r.duration ≡ a.duration + b.duration
      → Judged m r

some≢none : (f : Failure) → ¬ (some f ≡ none)
some≢none f e = absurd (cc)

confirm-final :
    (r : MutantResult) (b : Attempt)
    → r.final ≡ not_run
    → ((confirm (add_attempt r b) b).final ≡ second_opinion b.outcome)
      × ((confirm (add_attempt r b) b).attempts ≡ (add_attempt r b).attempts)
      × ((confirm (add_attempt r b) b).duration ≡ r.duration + b.duration)
confirm-final r b e =
    elim b.outcome
      as (λ o.
        ((confirm (add_attempt r b) (record b { outcome = o })).final ≡ second_opinion o)
        × ((confirm (add_attempt r b) (record b { outcome = o })).attempts
            ≡ (add_attempt r b).attempts)
        × ((confirm (add_attempt r b) (record b { outcome = o })).duration
            ≡ r.duration + b.duration)) [
              | not_run ↦ (refl, refl, refl)
              | killed ↦ (refl, refl, refl)
              | survived ↦ (refl, refl, refl)
              | timed_out ↦ (refl, refl, refl)
              | inconclusive ↦ (refl, refl, refl)
              | errored ↦ (refl, refl, refl)
              | unnamed n ↦ (e, refl, refl)
            ]

-- Whether the retry is to run the mutant, and what it has made of the result.
abbrev Again : MutantResult → Bool → MutantResult → Type 0
Again r false r' = r' ≡ r
Again r true r' = (b : Attempt) × (r' ≡ confirm (add_attempt r b) b)

Again-judged :
    (x r : MutantResult) (h : Bool) (b : Attempt)
    → x ≡ r
    → true ≡ h
    → Again r h (confirm (add_attempt x b) b)
Again-judged x r true b e p = (b, ap (λ y. confirm (add_attempt y b) b) e)
Again-judged x r false b e p = absurd (cc)

-- One round of the retry that is neither cancelled nor broken.
retry-live :
    (chance : ℕ → Chance) (i : ℕ) (x : MutantResult) (rs : List MutantResult) (pending : List Bool)
    → (chance i).cancelled ≡ false
    → (retry chance i (x ∷ rs) (true ∷ pending)).broken ≡ none
    → (retry chance i (x ∷ rs) (true ∷ pending)
        ≡ judge_again x (chance i).attempt (retry chance (suc i) rs pending))
      × ((retry chance (suc i) rs pending).broken ≡ none)
unfolding retry
retry-live chance i x rs pending live whole =
    elim (Option-cases (tree_failure (chance i).attempt)) [
      | inr (f, e) ↦ absurd (some≢none f (rw (live, e, retry) at whole))
      | inl e ↦ (rw (live, e, retry) refl, rw (live, e, retry) at whole)
    ]

retry-Again :
    (chance : ℕ → Chance) (i : ℕ) (rs : List MutantResult) (pending : List Bool)
    → ((j : ℕ) → (chance j).cancelled ≡ false)
    → (retry chance i rs pending).broken ≡ none
    → (k : ℕ) (r : MutantResult) (h : Bool) → get_elem? rs k ≡ some r
    → get_elem? pending k ≡ some h
    → (r' : MutantResult) × (get_elem? (retry chance i rs pending).results k ≡ some r')
      × Again r h r'
unfolding retry
retry-Again chance i [] pending live whole k r h at held = absurd (cc)
retry-Again chance i (x ∷ rs) [] live whole k r h at held = absurd (cc)
retry-Again chance i (x ∷ rs) (false ∷ pending) live whole zero r false at held = (x, refl, cc)
retry-Again chance i (x ∷ rs) (false ∷ pending) live whole zero r true at held = absurd (cc)
retry-Again chance i (x ∷ rs) (false ∷ pending) live whole (suc k) r h at held =
    retry-Again chance (suc i) rs pending live whole k r h at held
retry-Again chance i (x ∷ rs) (true ∷ pending) live whole zero r h at held =
    let (same, rest) = retry-live chance i x rs pending (live i) whole in
    (
      confirm (add_attempt x (chance i).attempt) (chance i).attempt,
      ap (λ t. get_elem? t.results 0) same,
      Again-judged x r h (chance i).attempt (some-inj at) (some-inj held),
    )
retry-Again chance i (x ∷ rs) (true ∷ pending) live whole (suc k) r h at held =
    let (same, rest) = retry-live chance i x rs pending (live i) whole in
    let (r', found, done) = retry-Again chance (suc i) rs pending live rest k r h at held in
    (r', ap (λ t. get_elem? t.results (suc k)) same ∙ found, done)

is_timed_out-inv : (o : Outcome) → is_timed_out o ≡ true → o ≡ timed_out
is_timed_out-inv timed_out h = refl
is_timed_out-inv not_run h = absurd (cc)
is_timed_out-inv killed h = absurd (cc)
is_timed_out-inv survived h = absurd (cc)
is_timed_out-inv inconclusive h = absurd (cc)
is_timed_out-inv errored h = absurd (cc)
is_timed_out-inv (unnamed n) h = absurd (cc)

-- What the pass of the workers makes of an attempt that restored its tree.
data Passed (m : MutantRun) (a : Attempt) : MutantResult → Bool → Type 0 where
  settled : is_timed_out a.outcome ≡ false → Passed m a (settle (add_attempt (fresh m) a) a) false
  confirmed :
      a.outcome ≡ timed_out
      → (m.never_returns || a.diverged) ≡ true
      → Passed m a (confirm (add_attempt (fresh m) a) a) false
  held :
      a.outcome ≡ timed_out
      → (m.never_returns || a.diverged) ≡ false
      → Passed m a (add_attempt (fresh m) a) true

pass-Passed :
    (m : MutantRun) (a : Attempt)
    → tree_failure a ≡ none
    → Passed m a (main_result m a (fresh m)) (held_back m a)
unfolding main_result held_back
pass-Passed m a whole = elim (Bool-cases (is_timed_out a.outcome)) [
  | inr t ↦ rw (whole, t) (settled t)
  | inl t ↦ elim (Bool-cases (m.never_returns || a.diverged)) [
    | inl d ↦ rw (whole, t, d) (confirmed (is_timed_out-inv a.outcome t) d)
    | inr d ↦ rw (whole, t, d) (held (is_timed_out-inv a.outcome t) d)
  ]
]

-- A result after the pass of the workers and the retry.
Judged-after :
    (m : MutantRun) (a : Attempt) (r' : MutantResult) (h : Bool) (r : MutantResult)
    → Passed m a r' h
    → Again r' h r
    → Judged m r
Judged-after m a r' h r (settled t) same =
    at_once a (ap (λ x. x.attempts) same) (ap (λ x. x.final) same)
      (λ e. absurd (cc (ap is_timed_out e, t))) (omega (arith, ap (λ x. x.duration) same))
Judged-after m a r' h r (confirmed t d) same =
    let c = confirm-final (fresh m) a refl in
    at_once a (ap (λ x. x.attempts) same ∙ c.1)
      (ap (λ x. x.final) same ∙ c.0 ∙ ap second_opinion t ∙ sym t) (λ e. d)
      (omega (arith, ap (λ x. x.duration) same ∙ c.2))
Judged-after m a r' h r (held t d) (b, same) =
    let c = confirm-final (add_attempt (fresh m) a) b refl in
    again a b (ap (λ x. x.attempts) same ∙ c.1) t d (ap (λ x. x.final) same ∙ c.0)
      (omega (arith, ap (λ x. x.duration) same ∙ c.2))

-- Without an error the context was live and every tree was restored, and the rest is the retry.
after_pass-whole :
    (chance : ℕ → Chance) (cancelled : Bool) (s : State)
    → (after_pass chance cancelled s).1 ≡ none
    → (cancelled ≡ false)
      × (s.failed ≡ none)
      × ((retry chance 0 s.results s.pending).broken ≡ none)
      × ((after_pass chance cancelled s).0 ≡ (retry chance 0 s.results s.pending).results)
unfolding after_pass after_retry
after_pass-whole chance cancelled s e = elim (Option-cases s.failed) [
  | inr (f, broke) ↦ absurd (cc (rw (broke, after_pass) at e))
  | inl fine ↦ elim (Option-cases (retry chance 0 s.results s.pending).broken) [
    | inr (f, broke) ↦ absurd (cc (rw (broke, after_retry) at (rw (fine, after_pass) at e)))
    | inl whole ↦ elim (Bool-cases cancelled) [
      | inl c ↦ absurd (cc (rw c at (rw (whole, after_retry) at (rw (fine, after_pass) at e))))
      | inr c ↦ (c, fine, whole, rw (fine, after_pass) (rw (whole, after_retry) refl))
    ]
  ]
]

false-of : (b c : Bool) → (b ≡ true → c ≡ true) → c ≡ false → b ≡ false
false-of true c h e = absurd (cc (h refl, e))
false-of false c h e = refl

worker_count-positive :
    (jobs : ℕ) (mutants : List MutantRun) → mutants ≢ [] → 0 < worker_count jobs mutants
worker_count-positive jobs [] h = absurd (h refl)
worker_count-positive jobs (m ∷ ms) h = ground arith

-- If `Schedule` returns no error, there is a result for each mutant, and it is judged: by one attempt
-- that decides, a timeout only where the mutant or the attempt is known not to return; or by two,
-- of which the first timed out, where a second timeout stands and a second run that was killed or
-- survived leaves the mutant inconclusive. No third attempt is made.
pub Schedule-Judges :
    (mutants : List MutantRun) (jobs binaries : ℕ) (out : List MutantResult × Option ScheduleError)
    → Returns mutants jobs binaries out
    → out.1 ≡ none
    → (i : ℕ) (m : MutantRun) → get_elem? mutants i ≡ some m
    → (r : MutantResult) × (get_elem? out.0 i ≡ some r) × Judged m r
Schedule-Judges mutants jobs bins out (nothing e) fine i m at =
    absurd (cc (ap (λ ms. get_elem? ms i) e, at))
Schedule-Judges mutants jobs bins out (unmeasured e z) fine i m at = absurd (cc fine)
Schedule-Judges mutants jobs bins out
      (scheduled s chance cancelled some_mutant some_bins r all c₁ c₂) fine i m at =
    let (live, restored, whole, same) = after_pass-whole chance cancelled s fine in
    let (a, result, pending, tree) =
      pass-RunsEach mutants (worker_count jobs mutants) s r
        (worker_count-positive jobs mutants some_mutant) all
        (false-of s.cancelled cancelled c₁ live) restored i m at in
    let (r', found, judged) =
      retry-Again chance 0 s.results s.pending (λ j. false-of _ cancelled (c₂ j) live) whole i
        (main_result m a (fresh m)) (held_back m a) result pending in
    (
      r',
      ap (λ rs. get_elem? rs i) same ∙ found,
      Judged-after m a _ _ r' (pass-Passed m a tree) judged,
    )
