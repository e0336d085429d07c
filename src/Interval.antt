-- ===== src/Interval.antt =====
-- internal/interval/interval.go: how two spans relate.
use go_mutants.Prelude.{ℕ, ◌&&◌, not, Bool, if◌then◌else◌}
use go_mutants.Mutation.Span.{Span, same, strictly_contains, overlaps}
pub mod Meaning
pub mod Forest
pub mod Traverse

pub data Relation : Type 0 where
  disjoint identical contains contained_by partial_overlap : Relation

unfoldable pub relate : Span → Span → Relation
unfolding strictly_contains overlaps
relate a b =
    if same a b
    then identical
    else if strictly_contains a b
    then contains
    else if strictly_contains b a
    then contained_by
    else if not (overlaps a b)
    then disjoint
    else partial_overlap
