-- ===== src/Mutation/Outcome.antt =====
-- internal/mutation/outcome.go: what became of a mutant.
use go_mutants.Prelude.{
  ℕ, Bool, true, false, ◌||◌, ◌++◌, Option, none, some, List, [], ◌∷◌, Bytes, codes, str_eq,
  if◌then◌else◌, ◌≡◌, refl, arith,
}
use go_mutants.Prelude.Decimal.{itoa}
pub mod RoundTrip

-- The six named values of the uint8, and the others.
pub data Outcome : Type 0 where
  not_run killed survived timed_out inconclusive errored : Outcome
  unnamed : ℕ → Outcome

pub data OutcomeError : Type 0 where
  unknown_number : ℕ → OutcomeError
  unknown_name : Bytes → OutcomeError

pub data Parsed {ℓ} (A : Type ℓ) : Type ℓ where
  ok : A → Parsed A
  err : OutcomeError → Parsed A

-- The map `outcomeNames`.
outcome_names : Outcome → Option Bytes
outcome_names not_run = some (codes "not_run")
outcome_names killed = some (codes "killed")
outcome_names survived = some (codes "survived")
outcome_names timed_out = some (codes "timed_out")
outcome_names inconclusive = some (codes "inconclusive")
outcome_names errored = some (codes "errored")
outcome_names (unnamed n) = none

abbrev pub outcomes : List Outcome
outcomes = not_run ∷ killed ∷ survived ∷ timed_out ∷ inconclusive ∷ errored ∷ []

-- The number of a value that has no name.
pub number : Outcome → ℕ
number (unnamed n) = n
number not_run = 0
number killed = 1
number survived = 2
number timed_out = 3
number inconclusive = 4
number errored = 5

pub outcome_string : Outcome → Bytes
unfolding outcome_names number
outcome_string o = elim (outcome_names o) [
  | some name ↦ name
  | none ↦ codes "outcome(" ++ itoa (number o) ++ codes ")"
]

unfoldable pub valid : Outcome → Bool
unfolding outcome_names
valid o = elim (outcome_names o) [ some name ↦ true | none ↦ false ]

unfoldable pub detected : Outcome → Bool
detected killed = true
detected timed_out = true
detected _ = false

-- The loop of `ParseOutcome`.
pub parse_among : Bytes → List Outcome → Parsed Outcome
parse_among s [] = err (unknown_name s)
parse_among s (o ∷ os) = if str_eq (outcome_string o) s then ok o else parse_among s os

unfoldable pub parse_outcome : Bytes → Parsed Outcome
unfolding parse_among outcome_string
parse_outcome s = parse_among s outcomes

unfoldable pub marshal_text : Outcome → Parsed Bytes
marshal_text o = if valid o then ok (outcome_string o) else err (unknown_number (number o))
