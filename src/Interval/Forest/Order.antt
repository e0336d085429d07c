-- ===== src/Interval/Forest/Order.antt =====
-- The order in which `Build` visits the items.
use go_mutants.Prelude.{ℕ, ◌≤◌, ◌≡◌, arith, List, Ordering}
use go_mutants.Prelude.Sorting.{sort_by, IsSorted, sort_by-IsSorted, NotAfter}
use go_mutants.Interval.Forest.{Item, compare_items, number_from}

module _ {T : Type 0} where
  compare_items-turn :
      (x y : ℕ × Item T) → compare_items x y ≡ Ordering.gt → NotAfter compare_items y x
  unfolding compare_items
  compare_items-turn (x, a) (y, b) h = λ k. ground arith

  compare_items-chain :
      (x y z : ℕ × Item T)
      → NotAfter compare_items x y
      → NotAfter compare_items y z
      → NotAfter compare_items x z
  unfolding compare_items
  compare_items-chain (x, a) (y, b) (z, c) h k = λ e. ground arith

  -- The visit is in the order of the comparison.
  pub order-IsSorted :
      (items : List (Item T)) → IsSorted compare_items (sort_by compare_items (number_from 0 items))
  order-IsSorted items =
      sort_by-IsSorted compare_items compare_items-turn compare_items-chain (number_from 0 items)

  -- Of two items in order, the later starts no earlier, and ends no later if it starts together.
  pub NotAfter-ends :
      (x y : ℕ × Item T)
      → NotAfter compare_items x y
      → (x.1.span.start_byte ≤ y.1.span.start_byte)
        × (x.1.span.start_byte ≡ y.1.span.start_byte → y.1.span.end_byte ≤ x.1.span.end_byte)
  unfolding compare_items
  NotAfter-ends (x, a) (y, b) h = (ground arith, λ e. ground arith)
