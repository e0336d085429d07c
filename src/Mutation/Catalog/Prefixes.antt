-- ===== src/Mutation/Catalog/Prefixes.antt =====
-- The mutant that `ResolvePrefix` answers.
use go_mutants.Prelude.{
  ℕ, zero, suc, ◌≡◌, ◌↔◌, ◌⊎◌, refl, sym, ap, ◌∙◌, inl, inr, Bool, true, false, not, ◌||◌,
  Bool-cases, some, some-inj, List, [], ◌∷◌, Bytes, keep, get_elem?, length, ltb, arith,
}
use go_mutants.Prelude.Checks.{ok, guard, ◌>>=◌, bind-ok, guard-ok, ok_eq}
use go_mutants.Prelude.Text.{has_prefix}
use go_mutants.Mutation.Candidate.{invalid_prefix}
use go_mutants.Mutation.Identity.{is_lower_hex_prefix, min_prefix_length, id_hex_length}
use go_mutants.Mutation.Catalog.{Mutant, Catalog}
use go_mutants.Mutation.Catalog.Assembly.{resolve_prefix, only_match}

module _ {ℓ} {A : Type ℓ} (p : A → Bool) where
  -- The only member that passes the test stands at `i`.
  abbrev pub Only : List A → ℕ → A → Type ℓ
  Only xs i x =
      (get_elem? xs i ≡ some x)
      × (p x ≡ true)
      × ((j : ℕ) (y : A) → get_elem? xs j ≡ some y → p y ≡ true → j ≡ i)

  abbrev pub Sole : List A → A → Type ℓ
  Sole xs x = (i : ℕ) × Only xs i x

  abbrev Nowhere : List A → Type ℓ
  Nowhere xs = (j : ℕ) (y : A) → get_elem? xs j ≡ some y → p y ≡ false

  keep-Nowhere : (xs : List A) → keep p xs ≡ [] → Nowhere xs
  keep-Nowhere [] h j y at = absurd (cc)
  keep-Nowhere (x ∷ xs) h j y at = elim (Bool-cases (p x)) [
    | inl e ↦ absurd (cons≢nil (rw (e, keep) at h))
    | inr e ↦ passed_over x xs e (keep-Nowhere xs (rw (e, keep) at h)) j y at
  ]
    where
      cons≢nil : {z : A} {l : List A} → ¬ ((z ∷ l) ≡ [])
      cons≢nil q = absurd (cc)

      passed_over : (x : A) (xs : List A) → p x ≡ false → Nowhere xs → Nowhere (x ∷ xs)
      passed_over x xs e n zero y at = ap p (sym (some-inj at)) ∙ e
      passed_over x xs e n (suc j) y at = n j y at

  Nowhere-keep : (xs : List A) → Nowhere xs → keep p xs ≡ []
  Nowhere-keep [] n = refl
  Nowhere-keep (x ∷ xs) n = rw (n 0 x refl) (Nowhere-keep xs (λ j y at. n (suc j) y at))

  tail-inv : (x y : A) (l m : List A) → x ∷ l ≡ y ∷ m → (x ≡ y) × (l ≡ m)
  tail-inv x y l m e =
      (ap (λ k. elim k [ [] ↦ x | z ∷ r ↦ z ]) e, ap (λ k. elim k [ [] ↦ l | z ∷ r ↦ r ]) e)

  keep-Only : (xs : List A) (x : A) → keep p xs ≡ x ∷ [] → Sole xs x
  keep-Only [] x h = absurd (cc)
  keep-Only (y ∷ xs) x h = elim (Bool-cases (p y)) [
    | inl e ↦
        let (same, rest) = tail-inv y x (keep p xs) [] (rw (e, keep) at h) in
        (0, (ap some same, ap p (sym same) ∙ e, first_only y xs (keep-Nowhere xs rest)))
    | inr e ↦
        let (i, (at, passes, only)) = keep-Only xs x (rw (e, keep) at h) in
        (suc i, (at, passes, later_only y xs i e only))
  ]
    where
      first_only :
          (y : A) (xs : List A)
          → Nowhere xs
          → (j : ℕ) (z : A) → get_elem? (y ∷ xs) j ≡ some z
          → p z ≡ true
          → j ≡ 0
      first_only y xs n zero z at t = refl
      first_only y xs n (suc j) z at t = absurd (cc (n j z at, t))

      later_only :
          (y : A) (xs : List A) (i : ℕ)
          → p y ≡ false
          → ((j : ℕ) (z : A) → get_elem? xs j ≡ some z → p z ≡ true → j ≡ i)
          → (j : ℕ) (z : A) → get_elem? (y ∷ xs) j ≡ some z
          → p z ≡ true
          → j ≡ suc i
      later_only y xs i e only zero z at t = absurd (cc (ap p (some-inj at), e, t))
      later_only y xs i e only (suc j) z at t = ap suc (only j z at t)

  Only-keep : (xs : List A) (i : ℕ) (x : A) → Only xs i x → keep p xs ≡ x ∷ []
  Only-keep [] i x (at, passes, only) = absurd (cc)
  Only-keep (y ∷ xs) zero x (at, passes, only) =
      let same : y ≡ x = some-inj at in
      rw (ap p same ∙ passes) (
        ap (λ l. y ∷ l) (Nowhere-keep xs (λ j z h. fails j z h (Bool-cases (p z))))
        ∙ ap (λ z. z ∷ []) same)
    where
      fails : (j : ℕ) (z : A) → get_elem? xs j ≡ some z → (p z ≡ true) ⊎ (p z ≡ false) → p z ≡ false
      fails j z h (inl t) = absurd (omega (arith, only (suc j) z h t))
      fails j z h (inr f) = f
  Only-keep (y ∷ xs) (suc i) x (at, passes, only) = elim (Bool-cases (p y)) [
    | inl e ↦ absurd (omega (arith, only 0 y refl e))
    | inr e ↦ rw e (Only-keep xs i x (at, passes, λ j z h t. omega (arith, only (suc j) z h t)))
  ]

only_match-ok : (ms : List Mutant) (m : Mutant) → only_match ms ≡ ok m → ms ≡ m ∷ []
unfolding only_match
only_match-ok [] m h = absurd (cc)
only_match-ok (x ∷ []) m h = ap (λ y. y ∷ []) (ok_eq h)
only_match-ok (x ∷ y ∷ ms) m h = absurd (cc)

-- A prefix of the lengths allowed, of lower-case hexadecimal digits.
abbrev pub is_usable : Bytes → Bool
is_usable prefix = not (
    ltb (length prefix) min_prefix_length
    || ltb id_hex_length (length prefix)
    || not (is_lower_hex_prefix prefix))

-- `ResolvePrefix` answers a mutant exactly if the prefix is usable, and that mutant is the only one of
-- the catalogue whose id begins with it.
pub resolve_prefix_iff :
    (c : Catalog) (prefix : Bytes) (m : Mutant)
    → (resolve_prefix c prefix ≡ ok m)
      ↔ ((is_usable prefix ≡ true) × Sole (λ x. has_prefix prefix x.id) c.mutants m)
unfolding resolve_prefix only_match
resolve_prefix_iff c prefix m = (
  λ h.
      let (_, usable, found) = bind-ok (guard (is_usable prefix) invalid_prefix) _ h in
      (
        guard-ok _ _ usable,
        keep-Only (λ x. has_prefix prefix x.id) c.mutants m
            (only_match-ok (keep (λ x. has_prefix prefix x.id) c.mutants) m found),
      ),
  λ (usable, (i, only)).
      ap
        (λ b.
          guard b invalid_prefix >>= λ _. only_match (keep (λ x. has_prefix prefix x.id) c.mutants))
        usable
      ∙ ap only_match (Only-keep (λ x. has_prefix prefix x.id) c.mutants i m only),
)
