-- ===== src/Prelude/Members.antt =====
-- Members of a list at a position, and predicates on all of them.
use Prim.Native.Nat.{ℕ, zero, suc}
use mathlib.Core.Path.{◌≡◌, refl, ap, subst}
use mathlib.Core.Logic.{inl, inr}
use mathlib.Core.Bool.{Bool, true}
use mathlib.Core.List.{List, [], ◌∷◌, map}
use mathlib.Core.Option.{some}
use go_mutants.Prelude.Tests.{Bool-cases, some-inj}
use go_mutants.Prelude.Lists.{get_elem?, keep, All}

pub keep-All {ℓ κ} :
    {A : Type ℓ} (P : A → Type κ) (f : A → Bool) (xs : List A)
    → All P xs
    → All (λ x. P x × (f x ≡ true)) (keep f xs)
keep-All P f [] h = tt
keep-All P f (x ∷ xs) h = elim (Bool-cases (f x)) [
  | inl t ↦ rw t ((h.0, t), keep-All P f xs h.1)
  | inr e ↦ rw e (keep-All P f xs h.1)
]

pub All-get_elem? {ℓ κ} :
    {A : Type ℓ} (P : A → Type κ) (xs : List A) (k : ℕ) {x : A}
    → All P xs
    → get_elem? xs k ≡ some x
    → P x
All-get_elem? P [] k h e = absurd (cc)
All-get_elem? P (y ∷ xs) zero h e = subst P (some-inj e) h.0
All-get_elem? P (y ∷ xs) (suc k) h e = All-get_elem? P xs k h.1 e

pub get_elem?-map {ℓ κ} :
    {A : Type ℓ} {B : Type κ} (f : A → B) (xs : List A) (k : ℕ) {y : B}
    → get_elem? (map f xs) k ≡ some y
    → (x : A) × (get_elem? xs k ≡ some x) × (f x ≡ y)
get_elem?-map f [] k e = absurd (cc)
get_elem?-map f (x ∷ xs) zero e = (x, refl, some-inj e)
get_elem?-map f (x ∷ xs) (suc k) e = get_elem?-map f xs k e

pub map-get_elem? {ℓ κ} :
    {A : Type ℓ} {B : Type κ} (f : A → B) (xs : List A) (k : ℕ) {x : A}
    → get_elem? xs k ≡ some x
    → get_elem? (map f xs) k ≡ some (f x)
map-get_elem? f [] k e = absurd (cc)
map-get_elem? f (y ∷ xs) zero e = ap some (ap f (some-inj e))
map-get_elem? f (y ∷ xs) (suc k) e = map-get_elem? f xs k e

pub All-both {ℓ κ μ} :
    {A : Type ℓ} (P : A → Type κ) (Q : A → Type μ) (xs : List A)
    → All P xs
    → All Q xs
    → All (λ x. P x × Q x) xs
All-both P Q [] h k = tt
All-both P Q (x ∷ xs) h k = ((h.0, k.0), All-both P Q xs h.1 k.1)
