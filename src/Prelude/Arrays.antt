-- ===== src/Prelude/Arrays.antt =====
-- Writing at a position of a list, as to a slice of Go.
use Prim.Native.Nat.{ℕ, zero, suc, ◌<◌}
use mathlib.Core.Path.{◌≡◌, refl, ap}
use mathlib.Core.Logic.{◌≢◌, ◌⊎◌, inl, inr}
use mathlib.Core.List.{List, [], ◌∷◌}
use mathlib.Core.Option.{some}
use native.Mathlib.Omega.{arith}
use go_mutants.Prelude.Lists.{length, get_elem?}

module _ {ℓ} {A : Type ℓ} where
  abbrev pub set : List A → ℕ → A → List A
  set [] i v = []
  set (x ∷ xs) zero v = v ∷ xs
  set (x ∷ xs) (suc i) v = x ∷ set xs i v

  abbrev pub modify : List A → ℕ → (A → A) → List A
  modify [] i f = []
  modify (x ∷ xs) zero f = f x ∷ xs
  modify (x ∷ xs) (suc i) f = x ∷ modify xs i f

module _ {ℓ} {A : Type ℓ} where
  pub get_elem?-set_same :
      (xs : List A) (i : ℕ) (x v : A) → get_elem? xs i ≡ some x → get_elem? (set xs i v) i ≡ some v
  get_elem?-set_same [] i x v e = absurd (cc)
  get_elem?-set_same (y ∷ xs) zero x v e = refl
  get_elem?-set_same (y ∷ xs) (suc i) x v e = get_elem?-set_same xs i x v e

  pub get_elem?-set_other :
      (xs : List A) (i j : ℕ) (v : A) → j ≢ i → get_elem? (set xs i v) j ≡ get_elem? xs j
  get_elem?-set_other [] i j v d = refl
  get_elem?-set_other (y ∷ xs) zero zero v d = absurd (d refl)
  get_elem?-set_other (y ∷ xs) zero (suc j) v d = refl
  get_elem?-set_other (y ∷ xs) (suc i) zero v d = refl
  get_elem?-set_other (y ∷ xs) (suc i) (suc j) v d =
      get_elem?-set_other xs i j v (λ e. d (ap suc e))

  pub get_elem?-modify_same :
      (xs : List A) (i : ℕ) (x : A) (f : A → A)
      → get_elem? xs i ≡ some x
      → get_elem? (modify xs i f) i ≡ some (f x)
  get_elem?-modify_same [] i x f e = absurd (cc)
  get_elem?-modify_same (y ∷ xs) zero x f e = cc
  get_elem?-modify_same (y ∷ xs) (suc i) x f e = get_elem?-modify_same xs i x f e

  pub get_elem?-modify_other :
      (xs : List A) (i j : ℕ) (f : A → A) → j ≢ i → get_elem? (modify xs i f) j ≡ get_elem? xs j
  get_elem?-modify_other [] i j f d = refl
  get_elem?-modify_other (y ∷ xs) zero zero f d = absurd (d refl)
  get_elem?-modify_other (y ∷ xs) zero (suc j) f d = refl
  get_elem?-modify_other (y ∷ xs) (suc i) zero f d = refl
  get_elem?-modify_other (y ∷ xs) (suc i) (suc j) f d =
      get_elem?-modify_other xs i j f (λ e. d (ap suc e))

  pub length-set : (xs : List A) (i : ℕ) (v : A) → length (set xs i v) ≡ length xs
  length-set [] i v = refl
  length-set (x ∷ xs) zero v = refl
  length-set (x ∷ xs) (suc i) v = ap suc (length-set xs i v)

  pub get_elem?-present :
      (xs : List A) (i : ℕ) → i < length xs → (x : A) × (get_elem? xs i ≡ some x)
  get_elem?-present [] i h = absurd (omega arith)
  get_elem?-present (x ∷ xs) zero h = (x, refl)
  get_elem?-present (x ∷ xs) (suc i) h = get_elem?-present xs i (omega arith)

pub set_inv {ℓ} :
    {A : Type ℓ} (xs : List A) (w : ℕ) (v : A) (u : ℕ) (x : A)
    → get_elem? (set xs w v) u ≡ some x
    → ((u ≡ w) × (v ≡ x)) ⊎ ((u ≢ w) × (get_elem? xs u ≡ some x))
set_inv [] w v u x e = absurd (cc)
set_inv (y ∷ ys) zero v zero x e = inl (refl, cc)
set_inv (y ∷ ys) zero v (suc u) x e = inr (omega arith, e)
set_inv (y ∷ ys) (suc w) v zero x e = inr (omega arith, e)
set_inv (y ∷ ys) (suc w) v (suc u) x e = elim (set_inv ys w v u x e) [
  | inl p ↦ inl (ap suc p.0, p.1)
  | inr p ↦ inr (λ q. p.0 (omega arith), p.1)
]
