-- ===== src/Changes.antt =====
-- internal/gitdiff: the changed lines of a file, as merged ranges of line numbers. Reading what git
-- prints is not part of this.
use go_mutants.Prelude.{
  ℕ, ◌+◌, Bool, true, false, ◌&&◌, List, [], ◌∷◌, leb, any, if◌then◌else◌, compare, Ordering,
}
use go_mutants.Prelude.Sorting.{sort_by, then_by}
pub mod Merging
pub mod Touching
pub mod Selecting
pub mod Signed
pub mod Parsing

pub record Range : Type 0 where
  pub first : ℕ
  pub last : ℕ

abbrev pub max : ℕ → ℕ → ℕ
max a b = if leb a b then b else a

abbrev pub min : ℕ → ℕ → ℕ
min a b = if leb a b then a else b

unfoldable pub compare_ranges : Range → Range → Ordering
compare_ranges x y = then_by (compare x.first y.first) (compare x.last y.last)

-- The loop of `Merge`, with the last range of `out`. The source subtracts one from an int that is
-- at least zero; here one is added on the other side.
unfoldable pub merge_from : Range → List Range → List Range
merge_from cur [] = cur ∷ []
merge_from cur (r ∷ rs) =
    let joined = merge_from (record cur { last = max cur.last r.last }) rs in
    let apart = cur ∷ merge_from r rs in if leb r.first (cur.last + 1) then joined else apart

abbrev pub merge_sorted : List Range → List Range
merge_sorted [] = []
merge_sorted (r ∷ rs) = merge_from r rs

unfoldable pub merge : List Range → List Range
unfolding merge_from compare_ranges
merge ranges = merge_sorted (sort_by compare_ranges ranges)

-- `Changed.Touches`, of the ranges of one file.
unfoldable pub touches : List Range → ℕ → ℕ → Bool
touches ranges first last =
    let lo = min first last in
    let hi = max first last in any (λ r. leb r.first hi && leb lo r.last) ranges
