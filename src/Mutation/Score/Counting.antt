-- ===== src/Mutation/Score/Counting.antt =====
-- The tally counts the results, kind by kind.
use go_mutants.Prelude.{
  ℕ, suc, ◌+◌, ◌≡◌, refl, Bool, true, false, not, none, some, Option-cases, List, [], ◌∷◌, ◌++◌,
  All, arith, if◌then◌else◌, length, inl, inr,
}
use go_mutants.Mutation.Outcome.{
  Outcome, not_run, killed, survived, timed_out, inconclusive, errored, unnamed, valid,
}
use go_mutants.Mutation.Score.{
  Result, Tally, record_result, Tallied, ok, err, empty_tally, tally_from, tally_of, total,
}

abbrev pub kind : Outcome → ℕ
kind not_run = 0
kind killed = 1
kind survived = 2
kind timed_out = 3
kind inconclusive = 4
kind errored = 5
kind (unnamed n) = 6

-- How many results pass a test.
abbrev pub count_if : (Result → Bool) → List Result → ℕ
count_if p [] = 0
count_if p (r ∷ rs) = let rest = count_if p rs in if p r then suc rest else rest

abbrev pub is_killed : Result → Bool
is_killed r = elim r.outcome [ killed ↦ true | _ ↦ false ]

abbrev pub is_timed_out : Result → Bool
is_timed_out r = elim r.outcome [ timed_out ↦ true | _ ↦ false ]

abbrev pub is_survivor : Bool → Result → Bool
is_survivor expected r = elim r.outcome [
  | survived ↦ if expected then r.expected_survivor else not r.expected_survivor
  | _ ↦ false
]

abbrev pub is_inconclusive : Result → Bool
is_inconclusive r = elim r.outcome [ inconclusive ↦ true | _ ↦ false ]

abbrev pub is_errored : Result → Bool
is_errored r = elim r.outcome [ errored ↦ true | _ ↦ false ]

abbrev pub is_not_run : Result → Bool
is_not_run r = elim r.outcome [ not_run ↦ true | _ ↦ false ]

-- Every counter of `t` is that of `s` and the number of results of its kind.
pub record Counts (s : Tally) (rs : List Result) (t : Tally) : Type 0 where
  pub killed_grew : t.killed_count ≡ s.killed_count + count_if is_killed rs
  pub timed_out_grew : t.timed_out_count ≡ s.timed_out_count + count_if is_timed_out rs
  pub unexpected_grew :
      t.unexpected_survivors ≡ s.unexpected_survivors + count_if (is_survivor false) rs
  pub expected_grew : t.expected_survivors ≡ s.expected_survivors + count_if (is_survivor true) rs
  pub inconclusive_grew : t.inconclusive_count ≡ s.inconclusive_count + count_if is_inconclusive rs
  pub errored_grew : t.errored_count ≡ s.errored_count + count_if is_errored rs
  pub not_run_grew : t.not_run_count ≡ s.not_run_count + count_if is_not_run rs
  pub total_grew : total t ≡ total s + length rs

-- What tallying from position `i` says: all results are of known outcomes and counted, or the
-- result at the position named is the first of an unknown one.
abbrev pub Tallies : ℕ → Tally → List Result → Tallied → Type 0
Tallies i s rs (ok t) = All (λ r. valid r.outcome ≡ true) rs × Counts s rs t
Tallies i s rs (err j) =
    (before after : List Result) × (r : Result) × (rs ≡ before ++ r ∷ after)
    × All (λ r'. valid r'.outcome ≡ true) before
    × (valid r.outcome ≡ false)
    × (j ≡ i + length before)

record_result-some :
    (s : Tally) (r : Result) {t : Tally}
    → record_result s r ≡ some t
    → (valid r.outcome ≡ true) × Counts s (r ∷ []) t
unfolding record_result valid
record_result-some s r h = ground arith

record_result-none : (s : Tally) (r : Result) → record_result s r ≡ none → valid r.outcome ≡ false
unfolding record_result valid
record_result-none s r h = ground arith

count_if-cons :
    (p : Result → Bool) (r : Result) (rs : List Result)
    → count_if p (r ∷ rs) ≡ count_if p (r ∷ []) + count_if p rs
count_if-cons p r rs = ground arith

Counts-cons :
    (s : Tally) (r : Result) (rs : List Result) (t u : Tally)
    → Counts s (r ∷ []) t
    → Counts t rs u
    → Counts s (r ∷ rs) u
Counts-cons s r rs t u h k = omega (
  arith,
  count_if-cons is_killed r rs,
  count_if-cons is_timed_out r rs,
  count_if-cons (is_survivor false) r rs,
  count_if-cons (is_survivor true) r rs,
  count_if-cons is_inconclusive r rs,
  count_if-cons is_errored r rs,
  count_if-cons is_not_run r rs,
)

Tallies-cons :
    (i : ℕ) (s t : Tally) (r : Result) (rs : List Result) (o : Tallied)
    → valid r.outcome ≡ true
    → Counts s (r ∷ []) t
    → Tallies (suc i) t rs o
    → Tallies i s (r ∷ rs) o
Tallies-cons i s t r rs (ok u) v h k = ((v, k.0), Counts-cons s r rs t u h k.1)
Tallies-cons i s t r rs (err j) v h (before, after, bad, e, good, b, p) =
    (r ∷ before, after, bad, rw e, (v, good), b, omega arith)

tally_from-Tallies : (i : ℕ) (s : Tally) (rs : List Result) → Tallies i s rs (tally_from i s rs)
unfolding tally_from
tally_from-Tallies i s [] = (tt, omega arith)
tally_from-Tallies i s (r ∷ rs) = elim (Option-cases (record_result s r)) [
  | inl e ↦ rw (e, Tallies) ([], rs, r, refl, tt, record_result-none s r e, omega arith)
  | inr (t, e) ↦
      let (v, h) = record_result-some s r e in
      rw (e, Tallies)
        (Tallies-cons i s t r rs (tally_from (suc i) t rs) v h (tally_from-Tallies (suc i) t rs))
]

-- If every outcome is a known one, the tally counts the results of each kind, expected and
-- unexpected survivors apart, and its total is the number of results. Otherwise the error names
-- the position of the first result whose outcome is unknown.
pub tally_of-Tallies : (rs : List Result) → Tallies 0 empty_tally rs (tally_of rs)
unfolding tally_of
tally_of-Tallies rs = tally_from-Tallies 0 empty_tally rs
