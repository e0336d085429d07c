-- ===== src/Tests/Forests.antt =====
-- A file with nested, doubled, empty and crossing spans.
use go_mutants.Prelude.{ℕ, ◌≡◌, ◌+◌, refl, some, List, [], ◌∷◌, ◌==◌, Bool, All, arith}
use go_mutants.Mutation.Span.{Span, is_empty}
use go_mutants.Interval.{relate}
use go_mutants.Interval.Meaning.{Covers, relate-Covers}
use go_mutants.Interval.Forest.{Item, Node, Nodes, node, nil, cons, build}
use go_mutants.Interval.Forest.Nested.{WellNested, build-WellNested}
use go_mutants.Interval.Forest.Account.{count_nodes, count_conflicts, count_items, count-build}
use go_mutants.Interval.Forest.Conflicts.{Justified, build-Justified}
use go_mutants.Interval.Traverse.{inner_first, postorder}
use go_mutants.Interval.Traverse.InnerFirst.{inner_first-postorder}

abbrev from_to : ℕ → ℕ → Span
from_to start end = record { start_byte = start; end_byte = end }

abbrev item : ℕ → ℕ → ℕ → Item ℕ
item start end payload = record { span = from_to start end; payload = payload }

abbrev items : List (Item ℕ)
items = item 2 5 0 ∷ item 0 10 1 ∷ item 4 8 2 ∷ item 2 5 3 ∷ item 3 3 4 ∷ item 12 15 5 ∷ []

abbrev inner : Node ℕ
inner = node (from_to 2 5) (0 ∷ 3 ∷ []) nil

abbrev forest : Nodes ℕ
forest =
    cons (node (from_to 0 10) (1 ∷ []) (cons inner nil))
      (cons (node (from_to 12 15) (5 ∷ []) nil) nil)

-- The item from 4 to 8 crosses the one from 2 to 5, and that at 3 is empty.
build-items : (build items).0 ≡ forest
unfolding build is_empty
build-items = refl

build-WellNested_example : WellNested (build items).0
build-WellNested_example = build-WellNested items

abbrev late : Item ℕ → Bool
late a = a.span.start_byte == 2

count-build_example :
    count_nodes late (build items).0 + count_conflicts late (build items).1 ≡ count_items late items
count-build_example = count-build late items

build-Justified_example : All Justified (build items).1
build-Justified_example = build-Justified items

relate-Covers_example : Covers (relate (from_to 2 5) (from_to 4 8)) (from_to 2 5) (from_to 4 8)
relate-Covers_example = relate-Covers (from_to 2 5) (from_to 4 8) (omega arith) (omega arith)

inner_first-postorder_example : inner_first forest ≡ some (postorder forest)
inner_first-postorder_example = inner_first-postorder forest
