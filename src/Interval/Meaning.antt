-- ===== src/Interval/Meaning.antt =====
-- What the answer of `Relate` says about the bytes that two spans cover.
use go_mutants.Prelude.{ℕ, ◌-◌, ◌≤◌, ◌<◌, ◌≡◌, ◌↔◌, ◌⊎◌, inl, inr, arith}
use go_mutants.Mutation.Span.{Span, In}
use go_mutants.Interval.{
  Relation, disjoint, identical, contains, contained_by, partial_overlap, relate,
}

-- The relation as a statement about covered bytes, for two spans that both cover some.
abbrev pub Covers : Relation → Span → Span → Type 0
Covers disjoint a b = (x : ℕ) → In x a → In x b → ⊥
Covers identical a b = (x : ℕ) → In x a ↔ In x b
Covers contains a b = ((x : ℕ) → In x b → In x a) × ((x : ℕ) × In x a × (In x b → ⊥))
Covers contained_by a b = ((x : ℕ) → In x a → In x b) × ((x : ℕ) × In x b × (In x a → ⊥))
Covers partial_overlap a b =
    ((x : ℕ) × In x a × In x b)
    × ((x : ℕ) × In x a × (In x b → ⊥))
    × ((x : ℕ) × In x b × (In x a → ⊥))

-- The same by the four ends.
abbrev Ends : Relation → Span → Span → Type 0
Ends disjoint a b = (a.end_byte ≤ b.start_byte) ⊎ (b.end_byte ≤ a.start_byte)
Ends identical a b = (a.start_byte ≡ b.start_byte) × (a.end_byte ≡ b.end_byte)
Ends contains a b =
    (a.start_byte ≤ b.start_byte)
    × (b.end_byte ≤ a.end_byte)
    × ((a.start_byte < b.start_byte) ⊎ (b.end_byte < a.end_byte))
Ends contained_by a b =
    (b.start_byte ≤ a.start_byte)
    × (a.end_byte ≤ b.end_byte)
    × ((b.start_byte < a.start_byte) ⊎ (a.end_byte < b.end_byte))
Ends partial_overlap a b =
    ((a.start_byte < b.start_byte) × (b.start_byte < a.end_byte) × (a.end_byte < b.end_byte))
    ⊎ ((b.start_byte < a.start_byte) × (a.start_byte < b.end_byte) × (b.end_byte < a.end_byte))

relate-Ends :
    (a b : Span) → a.start_byte < a.end_byte → b.start_byte < b.end_byte → Ends (relate a b) a b
unfolding relate
relate-Ends a b h k = ground arith

-- A byte of the outer span beyond one end of the inner one.
outside :
    (a b : Span)
    → a.start_byte < a.end_byte
    → (a.start_byte < b.start_byte) ⊎ (b.end_byte < a.end_byte)
    → (x : ℕ) × In x a × (In x b → ⊥)
outside a b h (inl l) = (a.start_byte, omega arith, λ i. omega arith)
outside a b h (inr r) = (a.end_byte - 1, omega arith, λ i. omega arith)

Ends→Covers :
    (r : Relation) (a b : Span)
    → a.start_byte < a.end_byte
    → b.start_byte < b.end_byte
    → Ends r a b
    → Covers r a b
Ends→Covers disjoint a b h k e = λ x i j. omega arith
Ends→Covers identical a b h k e = λ x. (λ i. omega arith, λ i. omega arith)
Ends→Covers contains a b h k e = (λ x i. omega arith, outside a b h e.2)
Ends→Covers contained_by a b h k e = (λ x i. omega arith, outside b a k e.2)
Ends→Covers partial_overlap a b h k (inl e) =
    ((b.start_byte, omega arith, omega arith), outside a b h (inl e.0), outside b a k (inr e.2))
Ends→Covers partial_overlap a b h k (inr e) =
    ((a.start_byte, omega arith, omega arith), outside a b h (inr e.2), outside b a k (inl e.0))

-- The answer of `relate` is true of the bytes that two non-empty spans cover: disjoint spans share
-- none, identical ones share all, a span that contains another has all its bytes and one more, and
-- partly overlapping spans share a byte and have each a byte that the other lacks.
pub relate-Covers :
    (a b : Span) → a.start_byte < a.end_byte → b.start_byte < b.end_byte → Covers (relate a b) a b
relate-Covers a b h k = Ends→Covers (relate a b) a b h k (relate-Ends a b h k)
