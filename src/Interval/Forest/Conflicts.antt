-- ===== src/Interval/Forest/Conflicts.antt =====
-- Why `Build` reports an item as a conflict.
use go_mutants.Prelude.{
  ℕ, ◌≤◌, ◌<◌, ◌≡◌, inl, inr, arith, true, Bool-cases, List, [], ◌∷◌, All, All-map, All-append, leb,
  ltb,
}
use go_mutants.Prelude.Sorting.{sort_by, IsSorted}
use go_mutants.Mutation.Span.{Span, same, is_empty}
use go_mutants.Interval.{relate, partial_overlap}
use go_mutants.Interval.Forest.{
  Item, Nodes, reason_empty_span, reason_partial_overlap, Conflict, Frame, State, add_child,
  number_from, compare_items, pop_from, pop_ended, settle, place, place_all, initial, build,
  overlap_conflict, empty_conflict,
}
use go_mutants.Interval.Forest.Order.{order-IsSorted, NotAfter-ends}

-- An empty span covers nothing; any other conflict is a partial overlap with the span named.
abbrev pub Justified {ℓ} : {T : Type ℓ} → Conflict T → Type 0
Justified c = elim c.reason [
  | reason_empty_span ↦ is_empty c.item.span ≡ true
  | reason_partial_overlap ↦ relate c.item.span c.against ≡ partial_overlap
]

-- The span starts no later than the other, and reaches as far if they start together.
abbrev Leads : Span → Span → Type 0
Leads s t = (s.start_byte ≤ t.start_byte) × (s.start_byte ≡ t.start_byte → t.end_byte ≤ s.end_byte)

relate-partial_overlap :
    (s t : Span)
    → Leads t s
    → s.start_byte < t.end_byte
    → t.end_byte < s.end_byte
    → relate s t ≡ partial_overlap
unfolding relate
relate-partial_overlap s t l h k = ground arith

module _ {T : Type 0} where
  module _ (P : Span → Type 0) where
    abbrev OnSpans : List (Frame T) → Type 0
    OnSpans fs = All (λ f. P f.span) fs

    pop_from-OnSpans :
        (start : ℕ) (f : Frame T) (fs : List (Frame T)) (roots : Nodes T)
        → OnSpans (f ∷ fs)
        → OnSpans (pop_from start f fs roots).0
    unfolding pop_from
    pop_from-OnSpans start f [] roots h = elim (Bool-cases (leb f.span.end_byte start)) [
      | inl e ↦ rw e tt
      | inr e ↦ rw e h
    ]
    pop_from-OnSpans start f (g ∷ fs) roots h = elim (Bool-cases (leb f.span.end_byte start)) [
      | inl e ↦ rw e (pop_from-OnSpans start (add_child f g) fs roots h.1)
      | inr e ↦ rw e h
    ]

    pop_ended-OnSpans :
        (start : ℕ) (fs : List (Frame T)) (roots : Nodes T)
        → OnSpans fs
        → OnSpans (pop_ended start fs roots).0
    unfolding pop_ended
    pop_ended-OnSpans start [] roots h = tt
    pop_ended-OnSpans start (f ∷ fs) roots h = pop_from-OnSpans start f fs roots h

  abbrev Reaches : ℕ → List (Frame T) → Type 0
  Reaches start [] = Unit
  Reaches start (f ∷ _) = start < f.span.end_byte

  pop_from-Reaches :
      (start : ℕ) (f : Frame T) (fs : List (Frame T)) (roots : Nodes T)
      → Reaches start (pop_from start f fs roots).0
  unfolding pop_from
  pop_from-Reaches start f [] roots = elim (Bool-cases (leb f.span.end_byte start)) [
    | inl e ↦ rw e tt
    | inr e ↦ rw e (ground arith)
  ]
  pop_from-Reaches start f (g ∷ fs) roots = elim (Bool-cases (leb f.span.end_byte start)) [
    | inl e ↦ rw e (pop_from-Reaches start (add_child f g) fs roots)
    | inr e ↦ rw e (ground arith)
  ]

  pop_ended-Reaches :
      (start : ℕ) (fs : List (Frame T)) (roots : Nodes T)
      → Reaches start (pop_ended start fs roots).0
  unfolding pop_ended
  pop_ended-Reaches start [] roots = tt
  pop_ended-Reaches start (f ∷ fs) roots = pop_from-Reaches start f fs roots

  -- The conflicts are justified, and the open nodes come before the items that are left.
  record Sound (s : State T) (order : List (ℕ × Item T)) : Type 0 where
    justified : All Justified s.conflicts
    leading : All (λ f. All (λ o. Leads f.span o.1.span) order) s.stack

  module _ (i : ℕ) (a : Item T) (order : List (ℕ × Item T))
      (first : All (λ o. Leads a.span o.1.span) order) where
    settle-Sound :
        (fs : List (Frame T)) (roots : Nodes T) (cs : List (Conflict T))
        → All (λ f. All (λ o. Leads f.span o.1.span) ((i, a) ∷ order)) fs
        → Reaches a.span.start_byte fs
        → All Justified cs
        → Sound (settle a fs roots cs) order
    unfolding settle
    settle-Sound [] roots cs l r j = record { justified = j; leading = (first, tt) }
    settle-Sound (f ∷ fs) roots cs l r j = elim (Bool-cases (ltb f.span.end_byte a.span.end_byte)) [
      | inl over ↦ rw over (record {
        justified =
            All-append Justified cs (overlap_conflict f a ∷ []) j
              (relate-partial_overlap a.span f.span l.0.0 r (ground arith), tt);
        leading = onward;
      })
      | inr inside ↦ rw inside (elim (Bool-cases (same f.span a.span)) [
        | inl eq ↦ rw eq (record { justified = j; leading = onward })
        | inr ne ↦ rw ne (record { justified = j; leading = (first, onward) })
      ])
    ]
      where
        onward : All (λ g. All (λ o. Leads g.span o.1.span) order) (f ∷ fs)
        onward = All-map _ _ (f ∷ fs) (λ g h. h.1) l

    place-Sound : (s : State T) → Sound s ((i, a) ∷ order) → Sound (place s a) order
    unfolding place
    place-Sound s h = elim (Bool-cases (is_empty a.span)) [
      | inl e ↦ rw e (record {
        justified = All-append Justified s.conflicts (empty_conflict a ∷ []) h.justified (e, tt);
        leading = All-map _ _ s.stack (λ g k. k.1) h.leading;
      })
      | inr n ↦
          let start = a.span.start_byte in
          let (stack, roots) = pop_ended start s.stack s.roots in
          rw n (
            settle-Sound stack roots s.conflicts
              (pop_ended-OnSpans (λ t. All (λ o. Leads t o.1.span) ((i, a) ∷ order)) start s.stack
                s.roots h.leading)
              (pop_ended-Reaches start s.stack s.roots) h.justified)
    ]

  place_all-Sound :
      (s : State T) (order : List (ℕ × Item T))
      → IsSorted compare_items order
      → Sound s order
      → Sound (place_all s order) []
  unfolding place_all
  place_all-Sound s [] o h = h
  place_all-Sound s ((i, a) ∷ order) o h =
      place_all-Sound (place s a) order o.1
        (place-Sound i a order (All-map _ _ order (NotAfter-ends (i, a)) o.0) s h)

  -- Every conflict is justified: an item reported as empty has an empty span, and an item
  -- reported as a partial overlap relates to the span named as `relate` says, so that neither can
  -- be nested in the other.
  pub build-Justified : (items : List (Item T)) → All Justified (build items).1
  unfolding build
  build-Justified items =
      let order = sort_by compare_items (number_from 0 items) in
      (place_all-Sound initial order (order-IsSorted items)
        (record { justified = tt; leading = tt })).justified
