-- ===== src/Changes/Merging.antt =====
-- Merging line ranges changes no line.
use go_mutants.Prelude.{
  ℕ, ◌+◌, ◌≤◌, ◌<◌, ◌≡◌, refl, sym, ap, ◌∙◌, inl, inr, Bool, true, false, Bool-cases, ◌&&◌, List,
  [], ◌∷◌, leb, ltb, leb→le, any, if◌then◌else◌, arith, All, All-map,
}
use go_mutants.Prelude.Sorting.{
  sort_by, sort_by-IsSorted, sort_by-total, total_by, IsSorted, NotAfter,
}
use go_mutants.Changes.{Range, max, compare_ranges, merge_from, merge_sorted, merge}

-- The line lies in one of the ranges.
abbrev pub holds : ℕ → List Range → Bool
holds line ranges = any (λ r. leb r.first line && leb line r.last) ranges

-- The ranges are in order and no two of them meet or touch.
abbrev pub Apart : List Range → Type 0
Apart [] = Unit
Apart (r ∷ rs) = All (λ s. r.last + 1 < s.first) rs × Apart rs

abbrev tick : Bool → ℕ
tick true = 1
tick false = 0

any-total : (p : Range → Bool) (rs : List Range) → any p rs ≡ ltb 0 (total_by (λ r. tick (p r)) rs)
any-total p [] = refl
any-total p (r ∷ rs) = elim (Bool-cases (p r)) [
  | inl e ↦ rw e (ground arith)
  | inr e ↦ rw e (any-total p rs ∙ ap (ltb 0) (omega arith))
]

pub first_first : (x y : Range) → NotAfter compare_ranges x y → x.first ≤ y.first
unfolding compare_ranges
first_first x y h = ground arith

pub order-IsSorted : (rs : List Range) → IsSorted compare_ranges (sort_by compare_ranges rs)
unfolding compare_ranges
order-IsSorted rs =
    sort_by-IsSorted compare_ranges (λ x y e. ground arith) (λ x y z h k. ground arith) rs

merge_from-holds :
    (line : ℕ) (cur : Range) (rs : List Range)
    → IsSorted compare_ranges rs
    → All (λ r. cur.first ≤ r.first) rs
    → holds line (merge_from cur rs) ≡ holds line (cur ∷ rs)
unfolding merge_from
merge_from-holds line cur [] s h = refl
merge_from-holds line cur (r ∷ rs) s h = elim (Bool-cases (leb r.first (cur.last + 1))) [
  | inl e ↦ rw e (
      merge_from-holds line (record cur { last = max cur.last r.last }) rs s.1 h.1
      ∙ joined (holds line rs) h.0 (leb→le _ _ e))
  | inr e ↦ rw e (
      ap (λ b. if leb cur.first line && leb line cur.last then true else b)
        (merge_from-holds line r rs s.1 (All-map _ _ rs (λ x. first_first r x) s.0)))
]
  where
    joined :
        (b : Bool)
        → cur.first ≤ r.first
        → r.first ≤ cur.last + 1
        → (if leb cur.first line && leb line (max cur.last r.last) then true else b) ≡ (
            if leb cur.first line && leb line cur.last
            then true
            else if leb r.first line && leb line r.last
            then true
            else b)
    joined b h k = ground arith

merge_sorted-holds :
    (line : ℕ) (rs : List Range)
    → IsSorted compare_ranges rs
    → holds line (merge_sorted rs) ≡ holds line rs
merge_sorted-holds line [] s = refl
merge_sorted-holds line (r ∷ rs) s =
    merge_from-holds line r rs s.1 (All-map _ _ rs (λ x. first_first r x) s.0)

pub merge-holds : (line : ℕ) (rs : List Range) → holds line (merge rs) ≡ holds line rs
unfolding merge
merge-holds line rs =
    merge_sorted-holds line (sort_by compare_ranges rs) (order-IsSorted rs)
    ∙ (any-total _ (sort_by compare_ranges rs)
        ∙ (ap (ltb 0)
              (sort_by-total compare_ranges (λ r. tick (leb r.first line && leb line r.last)) rs)
            ∙ sym (any-total _ rs)))

-- The ranges that the loop gives start with the current one, and lie apart.
pub merge_from-Apart :
    (cur : Range) (rs : List Range)
    → IsSorted compare_ranges rs
    → All (λ r. cur.first ≤ r.first) rs
    → Apart (merge_from cur rs)
      × ((bound : ℕ) → bound < cur.first → All (λ s. bound < s.first) (merge_from cur rs))
unfolding merge_from
merge_from-Apart cur [] s h = ((tt, tt), λ b l. (l, tt))
merge_from-Apart cur (r ∷ rs) s h = elim (Bool-cases (leb r.first (cur.last + 1))) [
  | inl e ↦ rw e (merge_from-Apart (record cur { last = max cur.last r.last }) rs s.1 h.1)
  | inr e ↦
      let (later, from) = merge_from-Apart r rs s.1 (All-map _ _ rs (λ x. first_first r x) s.0) in
      rw e ((from (cur.last + 1) (ground arith), later), λ b l. (l, from b (omega (arith, l, h.0))))
]

-- Merging changes no line: a line lies in one of the merged ranges exactly if it lies in one of the
-- given ones. The merged ranges are in order, with at least one line between any two.
pub merge-Apart :
    (rs : List Range) → Apart (merge rs) × ((line : ℕ) → holds line (merge rs) ≡ holds line rs)
unfolding merge
merge-Apart rs =
    (sorted_apart (sort_by compare_ranges rs) (order-IsSorted rs), λ line. merge-holds line rs)
  where
    sorted_apart : (l : List Range) → IsSorted compare_ranges l → Apart (merge_sorted l)
    sorted_apart [] s = tt
    sorted_apart (r ∷ l) s = (merge_from-Apart r l s.1 (All-map _ _ l (λ x. first_first r x) s.0)).0
