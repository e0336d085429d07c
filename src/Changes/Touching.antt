-- ===== src/Changes/Touching.antt =====
-- Which ranges of lines meet a given one, before and after merging.
use go_mutants.Prelude.{
  ℕ, ◌+◌, ◌≤◌, ◌≡◌, refl, sym, ◌∙◌, inl, inr, Bool, true, false, Bool-cases, ◌&&◌, List, [], ◌∷◌,
  leb, any, arith, All,
}
use go_mutants.Prelude.Sorting.{sort_by, sort_by-All}
use go_mutants.Changes.{Range, max, min, compare_ranges, merge_from, merge_sorted, merge, touches}
use go_mutants.Changes.Merging.{holds, merge-Apart}

-- The range is not empty.
abbrev pub Proper : Range → Type 0
Proper r = r.first ≤ r.last

-- One of the ranges has a line from `lo` to `hi`.
abbrev pub meets : ℕ → ℕ → List Range → Bool
meets lo hi ranges = any (λ r. leb r.first hi && leb lo r.last) ranges

module _ (lo hi : ℕ) (order : lo ≤ hi) where
  meets-line :
      (rs : List Range)
      → All Proper rs
      → meets lo hi rs ≡ true
      → (line : ℕ) × (lo ≤ line) × (line ≤ hi) × (holds line rs ≡ true)
  meets-line [] p h = absurd (cc)
  meets-line (r ∷ rs) p h = elim (Bool-cases (leb r.first hi && leb lo r.last)) [
    | inl e ↦ (max lo r.first, ground (arith, e, order), ground (arith, e, order), held r rs p.0 e)
    | inr e ↦ let (line, a, b, c) = meets-line rs p.1 (rw e at h) in (line, a, b, later line r rs c)
  ]
    where
      held :
          (r : Range) (rs : List Range)
          → r.first ≤ r.last
          → (leb r.first hi && leb lo r.last) ≡ true
          → holds (max lo r.first) (r ∷ rs) ≡ true
      held r rs p e = ground (arith, e, p, order)

      later :
          (line : ℕ) (r : Range) (rs : List Range)
          → holds line rs ≡ true
          → holds line (r ∷ rs) ≡ true
      later line r rs c = ground (arith, c)

  line-meets :
      (line : ℕ) (rs : List Range)
      → lo ≤ line
      → line ≤ hi
      → holds line rs ≡ true
      → meets lo hi rs ≡ true
  line-meets line [] a b h = absurd (cc)
  line-meets line (r ∷ rs) a b h = elim (Bool-cases (leb r.first line && leb line r.last)) [
    | inl e ↦ meets_first line r rs a b e
    | inr e ↦ meets_later r rs (line-meets line rs a b (rw e at h))
  ]
    where
      meets_first :
          (line : ℕ) (r : Range) (rs : List Range)
          → lo ≤ line
          → line ≤ hi
          → (leb r.first line && leb line r.last) ≡ true
          → meets lo hi (r ∷ rs) ≡ true
      meets_first line r rs a b e = ground (arith, e, a, b)

      meets_later :
          (r : Range) (rs : List Range) → meets lo hi rs ≡ true → meets lo hi (r ∷ rs) ≡ true
      meets_later r rs c = ground (arith, c)

-- What raising the last line keeps, merging keeps.
module _ {ℓ} (P : Range → Type ℓ)
    (raised : (cur r : Range) → P cur → P (record cur { last = max cur.last r.last })) where
  merge_from-All : (cur : Range) (rs : List Range) → P cur → All P rs → All P (merge_from cur rs)
  unfolding merge_from
  merge_from-All cur [] p q = (p, tt)
  merge_from-All cur (r ∷ rs) p q = elim (Bool-cases (leb r.first (cur.last + 1))) [
    | inl e ↦
        rw e (merge_from-All (record cur { last = max cur.last r.last }) rs (raised cur r p) q.1)
    | inr e ↦ rw e (p, merge_from-All r rs q.0 q.1)
  ]

  pub merge-All : (rs : List Range) → All P rs → All P (merge rs)
  unfolding merge
  merge-All rs p = sorted (sort_by compare_ranges rs) (sort_by-All compare_ranges P rs p)
    where
      sorted : (l : List Range) → All P l → All P (merge_sorted l)
      sorted [] q = tt
      sorted (r ∷ l) q = merge_from-All r l q.0 q.1

pub merge-Proper : (rs : List Range) → All Proper rs → All Proper (merge rs)
merge-Proper = merge-All Proper (λ cur r p. ground (arith, p))

bool_eq : (a b : Bool) → (a ≡ true → b ≡ true) → (b ≡ true → a ≡ true) → a ≡ b
bool_eq true b h k = sym (h refl)
bool_eq false true h k = k refl
bool_eq false false h k = refl

-- Merging proper ranges changes no answer.
pub meets-merge :
    (lo hi : ℕ) (rs : List Range)
    → lo ≤ hi
    → All Proper rs
    → meets lo hi (merge rs) ≡ meets lo hi rs
meets-merge lo hi rs order p =
    let same = (merge-Apart rs).1 in
    bool_eq _ _
      (λ h.
        let (line, a, b, c) = meets-line lo hi order (merge rs) (merge-Proper rs p) h in
        line-meets lo hi order line rs a b (sym (same line) ∙ c))
      (λ h.
        let (line, a, b, c) = meets-line lo hi order rs p h in
        line-meets lo hi order line (merge rs) a b (same line ∙ c))

-- `Touches` asks of merged ranges what it would ask of the ranges themselves, and the ends of the
-- lines asked for may come in either order.
pub touches-merge :
    (rs : List Range) (first last : ℕ)
    → All Proper rs
    → (touches (merge rs) first last ≡ meets (min first last) (max first last) rs)
      × (touches (merge rs) first last ≡ touches (merge rs) last first)
unfolding touches
touches-merge rs first last p = (
  meets-merge (min first last) (max first last) rs (ground arith) p,
  rw (min_comm first last) (rw (max_comm first last) refl),
)
  where
    min_comm : (a b : ℕ) → min a b ≡ min b a
    min_comm a b = ground arith

    max_comm : (a b : ℕ) → max a b ≡ max b a
    max_comm a b = ground arith
