-- ===== src/Prelude/Subseq.antt =====
-- Lists that leave members of another out and keep the order of the rest.
use mathlib.Core.List.{List, [], ◌∷◌, ◌++◌}

pub data Subseq {ℓ} {A : Type ℓ} : List A → List A → Type ℓ where
  done : Subseq [] []
  skip : {x : A} {xs ys : List A} → Subseq xs ys → Subseq xs (x ∷ ys)
  take : {x : A} {xs ys : List A} → Subseq xs ys → Subseq (x ∷ xs) (x ∷ ys)

module _ {ℓ} {A : Type ℓ} where
  pub Subseq-refl : (xs : List A) → Subseq xs xs
  Subseq-refl [] = done
  Subseq-refl (x ∷ xs) = take (Subseq-refl xs)

  pub Subseq-nil : (xs : List A) → Subseq [] xs
  Subseq-nil [] = done
  Subseq-nil (x ∷ xs) = skip (Subseq-nil xs)

  pub Subseq-append :
      {xs ys xs' ys' : List A} → Subseq xs ys → Subseq xs' ys' → Subseq (xs ++ xs') (ys ++ ys')
  Subseq-append done k = k
  Subseq-append (skip h) k = skip (Subseq-append h k)
  Subseq-append (take h) k = take (Subseq-append h k)

  pub Subseq-trans : {ys zs : List A} → Subseq ys zs → {xs : List A} → Subseq xs ys → Subseq xs zs
  Subseq-trans done h = h
  Subseq-trans (skip k) h = skip (Subseq-trans k h)
  Subseq-trans (take k) (skip h) = skip (Subseq-trans k h)
  Subseq-trans (take k) (take h) = take (Subseq-trans k h)
