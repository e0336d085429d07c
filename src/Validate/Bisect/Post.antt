-- ===== src/Validate/Bisect/Post.antt =====
-- What holds of a search's result, with a rule for each way to build one.
use go_mutants.Prelude.{List, ◌≡◌, refl, ◌⊎◌, inl, inr}
use go_mutants.Validate.Bisect.{Run, ok, err, out_of_fuel, ◌>>=◌, Verdict, Condemned, Split, ask}

-- A pair of which `P` holds, or the error of a probe; never the end of the fuel.
abbrev pub Ensures : {A E : Type 0} → (A → Type 0) → Run A E → Type 0
Ensures P (ok a) = P a
Ensures P (err e) = Unit
Ensures P out_of_fuel = ⊥

pub Ensures-bind :
    {A B E : Type 0} (P : A → Type 0) (Q : B → Type 0) (r : Run A E) (f : A → Run B E)
    → Ensures P r
    → ((a : A) → P a → Ensures Q (f a))
    → Ensures Q (r >>= f)
Ensures-bind P Q (ok a) f h k = k a h
Ensures-bind P Q (err e) f h k = tt
Ensures-bind P Q out_of_fuel f h k = h

pub Ensures-map :
    {A E : Type 0} {P Q : A → Type 0}
    → ((a : A) → P a → Q a)
    → (r : Run A E) → Ensures P r
    → Ensures Q r
Ensures-map f (ok a) h = f a h
Ensures-map f (err e) h = tt
Ensures-map f out_of_fuel h = h

module _ {M E : Type 0} (probe : List M → E ⊎ Verdict) where
  pub Ensures-ask :
      (P : List M × List (Condemned M) → Type 0) (subset : List M) (k : Verdict → Split probe)
      → ((v : Verdict) → probe subset ≡ inr v → Ensures P (k v))
      → Ensures P (ask probe subset k)
  Ensures-ask P subset k h = go (probe subset) h
    where
      go :
          (o : E ⊎ Verdict)
          → ((v : Verdict) → o ≡ inr v → Ensures P (k v))
          → Ensures P (elim o [ inl e ↦ err e | inr v ↦ k v ])
      go (inl e) h = tt
      go (inr v) h = h v refl
