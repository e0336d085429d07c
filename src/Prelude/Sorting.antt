-- ===== src/Prelude/Sorting.antt =====
-- `slices.SortFunc`: a sort by a comparison function, as an insertion sort. On distinct keys of a
-- total order every sort gives this list.
use Prim.Native.Nat.{ℕ, ◌+◌, Ordering, compare}
use mathlib.Core.Path.{◌≡◌, refl}
use mathlib.Core.Logic.{◌⊎◌, inl, inr}
use mathlib.Core.List.{List, [], ◌∷◌, Perm}
use mathlib.Core.List.Perm
use native.Mathlib.Omega.{arith}
use go_mutants.Prelude.Lists.{All, All-map}

Ordering-cases : (o : Ordering) → (o ≡ Ordering.gt) ⊎ ((o ≡ Ordering.lt) ⊎ (o ≡ Ordering.eq))
Ordering-cases Ordering.gt = inl refl
Ordering-cases Ordering.lt = inr (inl refl)
Ordering-cases Ordering.eq = inr (inr refl)

-- `(cmp a b < 0 || cmp a b == 0)`
abbrev pub NotAfter {ℓ} : {A : Type ℓ} → (A → A → Ordering) → A → A → Type 0
NotAfter cmp a b = ¬ (cmp a b ≡ Ordering.gt)

-- Every member comes no later than those behind it.
abbrev pub IsSorted {ℓ} : {A : Type ℓ} → (A → A → Ordering) → List A → Type 0
IsSorted cmp [] = Unit
IsSorted cmp (x ∷ xs) = All (NotAfter cmp x) xs × IsSorted cmp xs

abbrev pub total_by {ℓ} : {A : Type ℓ} → (A → ℕ) → List A → ℕ
total_by w [] = 0
total_by w (x ∷ xs) = w x + total_by w xs

module _ {ℓ} {A : Type ℓ} (cmp : A → A → Ordering) where
  unfoldable pub insert_by : A → List A → List A
  insert_by a [] = a ∷ []
  insert_by a (x ∷ xs) = elim (cmp a x) [ Ordering.gt ↦ x ∷ insert_by a xs | _ ↦ a ∷ x ∷ xs ]

  unfoldable pub sort_by : List A → List A
  unfolding insert_by
  sort_by [] = []
  sort_by (x ∷ xs) = insert_by x (sort_by xs)

  insert_by-perm : (a : A) (xs : List A) → Perm (insert_by a xs) (a ∷ xs)
  unfolding insert_by
  insert_by-perm a [] = Perm.refl (a ∷ [])
  insert_by-perm a (x ∷ xs) = elim (Ordering-cases (cmp a x)) [
    | inl gt ↦
        rw (gt, insert_by) (Perm.trans (Perm.cons x (insert_by-perm a xs)) (Perm.swap a x xs))
    | inr (inl lt) ↦ rw (lt, insert_by) (Perm.refl (a ∷ x ∷ xs))
    | inr (inr eq) ↦ rw (eq, insert_by) (Perm.refl (a ∷ x ∷ xs))
  ]

  -- Sorting keeps every member, as often.
  pub sort_by-perm : (xs : List A) → Perm (sort_by xs) xs
  unfolding sort_by
  sort_by-perm [] = Perm.refl []
  sort_by-perm (x ∷ xs) = Perm.trans (insert_by-perm x (sort_by xs)) (Perm.cons x (sort_by-perm xs))

  insert_by-total :
      (w : A → ℕ) (a : A) (xs : List A) → total_by w (insert_by a xs) ≡ w a + total_by w xs
  unfolding insert_by
  insert_by-total w a [] = refl
  insert_by-total w a (x ∷ xs) = ground (arith, insert_by-total w a xs)

  -- Sorting keeps every sum over the members.
  pub sort_by-total : (w : A → ℕ) (xs : List A) → total_by w (sort_by xs) ≡ total_by w xs
  unfolding sort_by
  sort_by-total w [] = refl
  sort_by-total w (x ∷ xs) = omega (arith, insert_by-total w x (sort_by xs), sort_by-total w xs)

  pub insert_by-All {κ} :
      (P : A → Type κ) (a : A) (xs : List A) → P a → All P xs → All P (insert_by a xs)
  unfolding insert_by
  insert_by-All P a [] h k = (h, tt)
  insert_by-All P a (x ∷ xs) h k = elim (Ordering-cases (cmp a x)) [
    | inl gt ↦ rw (gt, insert_by) (k.0, insert_by-All P a xs h k.1)
    | inr (inl lt) ↦ rw (lt, insert_by) (h, k)
    | inr (inr eq) ↦ rw (eq, insert_by) (h, k)
  ]

  pub sort_by-All {κ} : (P : A → Type κ) (xs : List A) → All P xs → All P (sort_by xs)
  unfolding sort_by
  sort_by-All P [] h = tt
  sort_by-All P (x ∷ xs) h = insert_by-All P x (sort_by xs) h.0 (sort_by-All P xs h.1)

  module _ (turn : (a b : A) → cmp a b ≡ Ordering.gt → NotAfter cmp b a)
      (chain : (a b c : A) → NotAfter cmp a b → NotAfter cmp b c → NotAfter cmp a c) where
    insert_by-IsSorted : (a : A) (xs : List A) → IsSorted cmp xs → IsSorted cmp (insert_by a xs)
    unfolding insert_by
    insert_by-IsSorted a [] h = (tt, tt)
    insert_by-IsSorted a (x ∷ xs) h = elim (Ordering-cases (cmp a x)) [
      | inl gt ↦
          rw (gt, insert_by)
            (insert_by-All (NotAfter cmp x) a xs (turn a x gt) h.0, insert_by-IsSorted a xs h.1)
      | inr (inl lt) ↦ rw (lt, insert_by) (front (λ e. cc))
      | inr (inr eq) ↦ rw (eq, insert_by) (front (λ e. cc))
    ]
      where
        front : NotAfter cmp a x → IsSorted cmp (a ∷ x ∷ xs)
        front n = ((n, All-map (NotAfter cmp x) (NotAfter cmp a) xs (λ b. chain a x b n) h.0), h)

    -- By a total preorder the result is in order.
    pub sort_by-IsSorted : (xs : List A) → IsSorted cmp (sort_by xs)
    unfolding sort_by
    sort_by-IsSorted [] = tt
    sort_by-IsSorted (x ∷ xs) = insert_by-IsSorted x (sort_by xs) (sort_by-IsSorted xs)

-- The first comparison that is not zero.
abbrev pub then_by : Ordering → Ordering → Ordering
then_by Ordering.lt o = Ordering.lt
then_by Ordering.gt o = Ordering.gt
then_by Ordering.eq o = o

-- `strings.Compare`
unfoldable pub compare_bytes : List ℕ → List ℕ → Ordering
compare_bytes [] [] = Ordering.eq
compare_bytes [] (d ∷ t) = Ordering.lt
compare_bytes (c ∷ s) [] = Ordering.gt
compare_bytes (c ∷ s) (d ∷ t) = then_by (compare c d) (compare_bytes s t)
