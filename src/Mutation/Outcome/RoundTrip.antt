-- ===== src/Mutation/Outcome/RoundTrip.antt =====
-- Reading back the text of an outcome.
use go_mutants.Prelude.{
  true, Bool-cases, List, [], ◌∷◌, Bytes, str_eq, str_eq→≡, ◌≡◌, refl, ap, subst, ◌∙◌, ◌↔◌, inl,
  inr, All, arith,
}
use go_mutants.Mutation.Outcome.{
  Outcome, not_run, killed, survived, timed_out, inconclusive, errored, unnamed, ok, outcomes,
  outcome_string, valid, parse_among, parse_outcome, marshal_text,
}

parse_among-ok :
    (s : Bytes) (os : List Outcome) (o : Outcome)
    → All (λ x. valid x ≡ true) os
    → parse_among s os ≡ ok o
    → (valid o ≡ true) × (outcome_string o ≡ s)
unfolding parse_among
parse_among-ok s [] o v h = cc
parse_among-ok s (x ∷ os) o v h = elim (Bool-cases (str_eq (outcome_string x) s)) [
  | inl hit ↦ let e : x ≡ o = ground arith in rw (← e) (v.0, str_eq→≡ (outcome_string x) s hit)
  | inr miss ↦ parse_among-ok s os o v.1 (rw miss at h)
]

parse-outcome_string : (o : Outcome) → valid o ≡ true → parse_outcome (outcome_string o) ≡ ok o
unfolding parse_outcome valid
parse-outcome_string not_run v = refl
parse-outcome_string killed v = refl
parse-outcome_string survived v = refl
parse-outcome_string timed_out v = refl
parse-outcome_string inconclusive v = refl
parse-outcome_string errored v = refl
parse-outcome_string (unnamed n) v = cc

marshal_text-ok :
    (o : Outcome) {text : Bytes}
    → marshal_text o ≡ ok text
    → (valid o ≡ true) × (outcome_string o ≡ text)
unfolding marshal_text
marshal_text-ok o h = ground arith

marshal_text_of_valid : (o : Outcome) → valid o ≡ true → marshal_text o ≡ ok (outcome_string o)
unfolding marshal_text
marshal_text_of_valid o v = rw v

outcomes-valid : All (λ x. valid x ≡ true) outcomes
unfolding valid
outcomes-valid = (refl, (refl, (refl, (refl, (refl, (refl, tt))))))

-- A text is what a named outcome is written as exactly if it is read as that outcome: writing and
-- reading are inverse, and an outcome without a name is never read.
pub marshal_iff_parse :
    (o : Outcome) (text : Bytes) → (marshal_text o ≡ ok text) ↔ (parse_outcome text ≡ ok o)
unfolding parse_outcome
marshal_iff_parse o text = (write_read, read_write)
  where
    write_read : marshal_text o ≡ ok text → parse_outcome text ≡ ok o
    write_read h =
        let (v, e) = marshal_text-ok o h in
        subst (λ t. parse_outcome t ≡ ok o) e (parse-outcome_string o v)

    read_write : parse_outcome text ≡ ok o → marshal_text o ≡ ok text
    read_write h =
        let (v, e) = parse_among-ok text outcomes o outcomes-valid h in
        marshal_text_of_valid o v ∙ ap ok e
