-- ===== src/Changes/Signed.antt =====
-- internal/gitdiff/parse.go, `Merge`, on ranges whose last line may be negative: that of a hunk is
-- where its sum wraps.
use go_mutants.Prelude.{
  ℕ, ◌+◌, ◌≤◌, ◌<◌, ◌≡◌, refl, ap, ◌∙◌, inl, inr, false, Bool-cases, List, [], ◌∷◌, map, leb,
  if◌then◌else◌, arith, All, All-map, compare, Ordering,
}
use go_mutants.Prelude.Ints.{ℤ, pos, negsuc, compare_ℤ, max_ℤ, before_leb}
use go_mutants.Prelude.Sorting.{
  sort_by, sort_by-IsSorted, sort_by-All, IsSorted, NotAfter, insert_by, then_by,
}
use go_mutants.Changes.{Range, max, compare_ranges, merge_from}
use go_mutants.Changes

pub record IntRange : Type 0 where
  pub first : ℕ
  pub last : ℤ

unfoldable pub compare_int_ranges : IntRange → IntRange → Ordering
compare_int_ranges x y = then_by (compare x.first y.first) (compare_ℤ x.last y.last)

unfoldable pub merge_ints_from : IntRange → List IntRange → List IntRange
merge_ints_from cur [] = cur ∷ []
merge_ints_from cur (r ∷ rs) =
    let joined = merge_ints_from (record cur { last = max_ℤ cur.last r.last }) rs in
    let apart = cur ∷ merge_ints_from r rs in if before_leb r.first cur.last then joined else apart

abbrev pub merge_sorted_ints : List IntRange → List IntRange
merge_sorted_ints [] = []
merge_sorted_ints (r ∷ rs) = merge_ints_from r rs

unfoldable pub merge_ints : List IntRange → List IntRange
unfolding merge_ints_from compare_int_ranges
merge_ints ranges = merge_sorted_ints (sort_by compare_int_ranges ranges)

-- A range stands before another: it does not start behind it, and unless its last line is negative,
-- there is a line between them.
pub record Before (r s : IntRange) : Type 0 where
  pub in_order : r.first ≤ s.first
  pub gap : (l : ℕ) → r.last ≡ pos l → l + 1 < s.first

abbrev pub ApartInts : List IntRange → Type 0
ApartInts [] = Unit
ApartInts (r ∷ rs) = All (Before r) rs × ApartInts rs

-- Lines are counted from one, and there is one, unless the last one is negative.
pub record Counted (r : IntRange) : Type 0 where
  pub from_one : 1 ≤ r.first
  pub not_empty : (l : ℕ) → r.last ≡ pos l → r.first ≤ l

order_first : (x y : IntRange) → NotAfter compare_int_ranges x y → x.first ≤ y.first
unfolding compare_int_ranges
order_first x y h = ground arith

turned :
    (a b : ℕ) (x y : ℤ)
    → then_by (compare a b) (compare_ℤ x y) ≡ Ordering.gt
    → ¬ (then_by (compare b a) (compare_ℤ y x) ≡ Ordering.gt)
turned a b (pos x) (pos y) h = λ e. ground arith
turned a b (pos x) (negsuc y) h = λ e. ground arith
turned a b (negsuc x) (pos y) h = λ e. ground arith
turned a b (negsuc x) (negsuc y) h = λ e. ground arith

abbrev Ordered : ℕ → ℤ → ℕ → ℤ → Type 0
Ordered a x b y = ¬ (then_by (compare a b) (compare_ℤ x y) ≡ Ordering.gt)

chained : (a b c : ℕ) (x y z : ℤ) → Ordered a x b y → Ordered b y c z → Ordered a x c z
chained a b c (pos x) (pos y) (pos z) h k = λ e. ground arith
chained a b c (pos x) (pos y) (negsuc z) h k = λ e. ground arith
chained a b c (pos x) (negsuc y) (pos z) h k = λ e. ground arith
chained a b c (pos x) (negsuc y) (negsuc z) h k = λ e. ground arith
chained a b c (negsuc x) (pos y) (pos z) h k = λ e. ground arith
chained a b c (negsuc x) (pos y) (negsuc z) h k = λ e. ground arith
chained a b c (negsuc x) (negsuc y) (pos z) h k = λ e. ground arith
chained a b c (negsuc x) (negsuc y) (negsuc z) h k = λ e. ground arith

order-IsSorted : (rs : List IntRange) → IsSorted compare_int_ranges (sort_by compare_int_ranges rs)
unfolding compare_int_ranges
order-IsSorted rs =
    sort_by-IsSorted compare_int_ranges (λ x y e. turned x.first y.first x.last y.last e)
      (λ x y z h k. chained x.first y.first z.first x.last y.last z.last h k) rs

-- Where a range is not joined, the next one starts behind a gap.
Before-of :
    (cur r : IntRange) → cur.first ≤ r.first → before_leb r.first cur.last ≡ false → Before cur r
Before-of cur r h e = record {
  in_order = h;
  gap = λ l p. let f : leb r.first (l + 1) ≡ false = rw p at e in ground arith;
}

Before-later : (cur r s : IntRange) → Before cur r → r.first ≤ s.first → Before cur s
Before-later cur r s b h = record {
  in_order = omega (arith, b.in_order);
  gap = λ l p. omega (arith, b.gap l p);
}

from_first :
    (r : IntRange) (rs : List IntRange)
    → IsSorted compare_int_ranges (r ∷ rs)
    → All (λ s. r.first ≤ s.first) rs
from_first r rs s = All-map _ _ rs (λ x. order_first r x) s.0

merge_ints_from-ApartInts :
    (cur : IntRange) (rs : List IntRange)
    → IsSorted compare_int_ranges rs
    → All (λ r. cur.first ≤ r.first) rs
    → ApartInts (merge_ints_from cur rs) × All (λ s. cur.first ≤ s.first) (merge_ints_from cur rs)
unfolding merge_ints_from
merge_ints_from-ApartInts cur [] s h = ((tt, tt), (omega arith, tt))
merge_ints_from-ApartInts cur (r ∷ rs) s h = elim (Bool-cases (before_leb r.first cur.last)) [
  | inl e ↦
      rw e (merge_ints_from-ApartInts (record cur { last = max_ℤ cur.last r.last }) rs s.1 h.1)
  | inr e ↦
      let (apart, from) = merge_ints_from-ApartInts r rs s.1 (from_first r rs s) in
      let next = Before-of cur r h.0 e in
      rw e (
        (All-map _ _ _ (λ x k. Before-later cur r x next k) from, apart),
        (omega arith, All-map _ _ _ (λ x k. omega (arith, k, h.0)) from),
      )
]

-- The last line of two ranges together.
joined-Counted :
    (a b : ℕ) (x y : ℤ) (l : ℕ)
    → a ≤ b
    → ((k : ℕ) → x ≡ pos k → a ≤ k)
    → ((k : ℕ) → y ≡ pos k → b ≤ k)
    → max_ℤ x y ≡ pos l
    → a ≤ l
joined-Counted a b (pos x) (pos y) l h p q e = ground (arith, p x refl, q y refl)
joined-Counted a b (pos x) (negsuc y) l h p q e = p l e
joined-Counted a b (negsuc x) (pos y) l h p q e = omega (arith, h, q l e)
joined-Counted a b (negsuc x) (negsuc y) l h p q e = ground arith

merge_ints_from-Counted :
    (cur : IntRange) (rs : List IntRange)
    → IsSorted compare_int_ranges rs
    → All (λ r. cur.first ≤ r.first) rs
    → Counted cur
    → All Counted rs
    → All Counted (merge_ints_from cur rs)
unfolding merge_ints_from
merge_ints_from-Counted cur [] s h c k = (c, tt)
merge_ints_from-Counted cur (r ∷ rs) s h c k = elim (Bool-cases (before_leb r.first cur.last)) [
  | inl e ↦ rw e (
      merge_ints_from-Counted (record cur { last = max_ℤ cur.last r.last }) rs s.1 h.1
        (record {
          from_one = c.from_one;
          not_empty =
              λ l. joined-Counted cur.first r.first cur.last r.last l h.0 c.not_empty k.0.not_empty;
        })
        k.1)
  | inr e ↦ rw e (c, merge_ints_from-Counted r rs s.1 (from_first r rs s) k.0 k.1)
]

-- Merged ranges stand apart, and count lines if the given ones do.
pub merge_ints-Apart :
    (rs : List IntRange) → All Counted rs → ApartInts (merge_ints rs) × All Counted (merge_ints rs)
unfolding merge_ints
merge_ints-Apart rs k =
    sorted (sort_by compare_int_ranges rs) (order-IsSorted rs)
      (sort_by-All compare_int_ranges Counted rs k)
  where
    sorted :
        (l : List IntRange)
        → IsSorted compare_int_ranges l
        → All Counted l
        → ApartInts (merge_sorted_ints l) × All Counted (merge_sorted_ints l)
    sorted [] s c = (tt, tt)
    sorted (r ∷ l) s c = (
      (merge_ints_from-ApartInts r l s.1 (from_first r l s)).0,
      merge_ints_from-Counted r l s.1 (from_first r l s) c.0 c.1,
    )

abbrev pub signed : Range → IntRange
signed r = record { first = r.first; last = pos r.last }

signed-insert :
    (r : Range) (rs : List Range)
    → insert_by compare_int_ranges (signed r) (map signed rs)
      ≡ map signed (insert_by compare_ranges r rs)
unfolding insert_by compare_int_ranges compare_ranges
signed-insert r [] = refl
signed-insert r (x ∷ rs) = ground (arith, signed-insert r rs)

signed-sort :
    (rs : List Range)
    → sort_by compare_int_ranges (map signed rs) ≡ map signed (sort_by compare_ranges rs)
unfolding sort_by
signed-sort [] = refl
signed-sort (r ∷ rs) =
    ap (insert_by compare_int_ranges (signed r)) (signed-sort rs)
    ∙ signed-insert r (sort_by compare_ranges rs)

signed-merge_from :
    (cur : Range) (rs : List Range)
    → merge_ints_from (signed cur) (map signed rs) ≡ map signed (merge_from cur rs)
unfolding merge_ints_from merge_from
signed-merge_from cur [] = refl
signed-merge_from cur (r ∷ rs) = elim (Bool-cases (leb r.first (cur.last + 1))) [
  | inl e ↦ rw e (
      ap (λ z. merge_ints_from (record { first = cur.first; last = z }) (map signed rs))
        (largest cur.last r.last)
      ∙ signed-merge_from (record cur { last = max cur.last r.last }) rs)
  | inr e ↦ rw e (ap (λ l. signed cur ∷ l) (signed-merge_from r rs))
]
  where
    largest : (a b : ℕ) → max_ℤ (pos a) (pos b) ≡ pos (max a b)
    largest a b = ground arith

-- On ranges whose last lines are not negative, this is the merge of the parent.
pub merge_ints-signed :
    (rs : List Range) → merge_ints (map signed rs) ≡ map signed (Changes.merge rs)
unfolding merge_ints Changes.merge
merge_ints-signed rs = ap merge_sorted_ints (signed-sort rs) ∙ sorted (sort_by compare_ranges rs)
  where
    sorted :
        (l : List Range) → merge_sorted_ints (map signed l) ≡ map signed (Changes.merge_sorted l)
    sorted [] = refl
    sorted (r ∷ l) = signed-merge_from r l
