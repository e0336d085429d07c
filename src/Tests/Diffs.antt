-- ===== src/Tests/Diffs.antt =====
-- Four line ranges, of which three touch.
use go_mutants.Prelude.{ℕ, ◌≡◌, refl, List, [], ◌∷◌}
use go_mutants.Prelude.Sorting.{sort_by}
use go_mutants.Changes.{Range, merge}
use go_mutants.Changes.Merging.{Apart, holds, merge-Apart}

abbrev lines : ℕ → ℕ → Range
lines first last = record { first = first; last = last }

abbrev ranges : List Range
ranges = lines 7 9 ∷ lines 1 3 ∷ lines 20 21 ∷ lines 4 7 ∷ []

merge-ranges : merge ranges ≡ lines 1 9 ∷ lines 20 21 ∷ []
unfolding merge sort_by
merge-ranges = refl

merge-Apart_example :
    Apart (merge ranges) × ((line : ℕ) → holds line (merge ranges) ≡ holds line ranges)
merge-Apart_example = merge-Apart ranges
