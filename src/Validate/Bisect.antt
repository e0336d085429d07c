-- ===== src/Validate/Bisect.antt =====
-- internal/validate/bisect.go: the delta debugging that finds the mutants which break the build.
-- The probe, a compilation of a set of mutants, is a parameter: it answers with an error or a
-- verdict, and the same set always gets the same answer. Recursion on halves takes fuel.
use go_mutants.Prelude.{
  ℕ, zero, suc, ◌+◌, ◌/◌, Bool, true, false, not, ◌||◌, List, [], ◌∷◌, ◌++◌, ◌⊎◌, inl, inr, Bytes,
  leb, if◌then◌else◌, length, take, drop,
}
pub mod Post
pub mod Split
pub mod Exact

abbrev pub linear_threshold : ℕ
linear_threshold = 4

pub record Verdict : Type 0 where
  pub failed : Bool
  pub output : Bytes
  pub exec_seq : ℕ
  pub blamed : List Bytes

pub record Condemned {ℓ} (M : Type ℓ) : Type ℓ where
  pub mutant : M
  pub output : Bytes

-- What a search returns: the accepted and the rejected mutants, or the error of a probe.
-- `out_of_fuel` belongs to the model.
pub data Run {ℓ} (A : Type ℓ) (E : Type ℓ) : Type ℓ where
  ok : A → Run A E
  err : E → Run A E
  out_of_fuel : Run A E

infixl 5 ◌>>=◌
abbrev pub ◌>>=◌ {ℓ} : {A B E : Type ℓ} → Run A E → (A → Run B E) → Run B E
ok a >>= f = f a
err e >>= f = err e
out_of_fuel >>= f = out_of_fuel

abbrev pub is_nil {ℓ} : {A : Type ℓ} → List A → Bool
is_nil [] = true
is_nil (_ ∷ _) = false

module _ {ℓ} {M : Type ℓ} {E : Type ℓ} (probe : List M → E ⊎ Verdict) where
  abbrev pub Split : Type ℓ
  Split = Run (List M × List (Condemned M)) E

  -- `v, err := p(ctx, subset)`, and what follows when there is no error.
  abbrev pub ask : List M → (Verdict → Split) → Split
  ask subset k = elim (probe subset) [ inl e ↦ err e | inr v ↦ k v ]

  pub incremental_from : List M → List (Condemned M) → List M → Split
  incremental_from accepted rejected [] = ok (accepted, rejected)
  incremental_from accepted rejected (c ∷ cands) =
      let trial = accepted ++ c ∷ [] in
      ask trial λ v. elim v.failed [
        | true ↦
            incremental_from accepted (rejected ++ record { mutant = c; output = v.output } ∷ [])
              cands
        | false ↦ incremental_from trial rejected cands
      ]

  unfoldable pub incremental : List M → Split
  unfolding incremental_from
  incremental cands = incremental_from [] [] cands

  -- The end of `isolate`, once both halves are known to be fine by themselves.
  pub rejoin : List M → List M → List (Condemned M) → Split
  rejoin left right rejected =
      let joined = left ++ right in
      if is_nil joined || is_nil left || is_nil right
      then ok (joined, rejected)
      else ask joined λ v.
        if not v.failed
        then ok (joined, rejected)
        else do (accepted, interacting) ← incremental joined; ok (accepted, rejected ++ interacting)

  pub halves : (List M → Split) → List M → Split
  halves recur cands = do
    let mid = length cands / 2
    (accepted_left, rejected_left) ← recur (take mid cands)
    (accepted_right, rejected_right) ← recur (drop mid cands)
    rejoin accepted_left accepted_right (rejected_left ++ rejected_right)

  pub isolate_from : ℕ → List M → Split
  isolate_from zero cands = out_of_fuel
  isolate_from (suc fuel) [] = ok ([], [])
  isolate_from (suc fuel) (c ∷ cs) = ask (c ∷ cs) λ v.
      if not v.failed
      then ok (c ∷ cs, [])
      else if leb (length (c ∷ cs)) linear_threshold
      then incremental (c ∷ cs)
      else halves (isolate_from fuel) (c ∷ cs)

  unfoldable pub isolate : List M → Split
  unfolding isolate_from halves rejoin incremental
  isolate cands = isolate_from (suc (length cands)) cands
