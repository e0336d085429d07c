-- ===== src/Interval/Forest/Nested.antt =====
-- `Build` keeps its open nodes nested, so the forest is nested.
use go_mutants.Prelude.{
  ℕ, ◌≤◌, ◌<◌, ◌≡◌, ◌⊎◌, inl, inr, arith, false, Bool-cases, List, [], ◌∷◌, ltb,
}
use go_mutants.Prelude.Sorting.{sort_by, IsSorted}
use go_mutants.Mutation.Span.{Span, same, is_empty}
use go_mutants.Interval.Forest.{
  Item, Nodes, Conflict, Frame, State, add_child, number_from, compare_items, pop_ended, open_frame,
  settle, place, place_all, close_all, forest_of, initial, build,
}
use go_mutants.Interval.Forest.Order.{order-IsSorted, NotAfter-ends}
use go_mutants.Interval.Forest.Shape.{
  Chain, Nested, Chain-mono, Chain-snoc, Nested-snoc, FrameOk, Open, Reaches, close-NodeNested,
  FrameOk-mono, add_child-FrameOk, pop_ended-Open,
}

not_empty : (s : Span) → is_empty s ≡ false → s.start_byte < s.end_byte
unfolding is_empty
not_empty s h = ground arith

module _ {T : Type 0} where
  open_frame-FrameOk :
      (a : Item T) → a.span.start_byte < a.span.end_byte → FrameOk a.span.start_byte (open_frame a)
  open_frame-FrameOk a h = record {
    wide = h;
    begun = omega arith;
    so_far = omega arith;
    within = omega arith;
    narrower = tt;
    nested = tt;
  }

  settle-Open :
      (a : Item T) (fs : List (Frame T)) (roots : Nodes T) (cs : List (Conflict T))
      → a.span.start_byte < a.span.end_byte
      → Open a.span.start_byte roots fs
      → Reaches a.span.start_byte fs
      → let s = settle a fs roots cs in Open a.span.start_byte s.roots s.stack
  unfolding settle
  settle-Open a [] roots cs h o r = (open_frame-FrameOk a h, tt, o)
  settle-Open a (f ∷ fs) roots cs h o r = elim (Bool-cases (ltb f.span.end_byte a.span.end_byte)) [
    | inl over ↦ rw over o
    | inr inside ↦ rw inside (elim (Bool-cases (same f.span a.span)) [
      | inl eq ↦ rw eq (
        record {
          wide = o.0.wide;
          begun = o.0.begun;
          so_far = o.0.so_far;
          within = o.0.within;
          narrower = o.0.narrower;
          nested = o.0.nested;
        },
        o.1,
        o.2,
      )
      | inr ne ↦ rw ne (
        open_frame-FrameOk a h,
        record { from = o.0.begun; to = ground arith; strict = smaller inside ne o.0.begun },
        o,
      )
    ])
  ]
    where
      smaller :
          ltb f.span.end_byte a.span.end_byte ≡ false
          → same f.span a.span ≡ false
          → f.span.start_byte ≤ a.span.start_byte
          → (f.span.start_byte < a.span.start_byte) ⊎ (a.span.end_byte < f.span.end_byte)
      smaller inside ne b = ground arith

  Open-mono :
      {cur cur' : ℕ} (roots : Nodes T) (fs : List (Frame T))
      → cur ≤ cur'
      → Open cur roots fs
      → Open cur' roots fs
  Open-mono roots [] h o = (Chain-mono 0 roots h o.0, o.1)
  Open-mono roots (f ∷ fs) h o = (FrameOk-mono f h o.0, o.1, o.2)

  place-Open :
      {cur : ℕ} (s : State T) (a : Item T)
      → cur ≤ a.span.start_byte
      → Open cur s.roots s.stack
      → Open a.span.start_byte (place s a).roots (place s a).stack
  unfolding place
  place-Open s a h o = elim (Bool-cases (is_empty a.span)) [
    | inl e ↦ rw e (Open-mono s.roots s.stack h o)
    | inr n ↦
        let start = a.span.start_byte in
        let (stack, roots) = pop_ended start s.stack s.roots in
        let (o', r) = pop_ended-Open start s.stack s.roots h o in
        rw n (settle-Open a stack roots s.conflicts (not_empty a.span n) o' r)
  ]

  -- The items come in the order of their starts.
  abbrev Starts : ℕ → List (ℕ × Item T) → Type 0
  Starts cur [] = Unit
  Starts cur ((i, a) ∷ order) = (cur ≤ a.span.start_byte) × Starts a.span.start_byte order

  place_all-Open :
      (s : State T) (order : List (ℕ × Item T)) (cur : ℕ)
      → Starts cur order
      → Open cur s.roots s.stack
      → (end : ℕ) × Open end (place_all s order).roots (place_all s order).stack
  unfolding place_all
  place_all-Open s [] cur h o = (cur, o)
  place_all-Open s ((i, a) ∷ order) cur h o =
      place_all-Open (place s a) order a.span.start_byte h.1 (place-Open s a h.0 o)

  abbrev pub WellNested : Nodes T → Type 0
  WellNested ns = (hi : ℕ) × Chain 0 ns hi × Nested ns

  close_all-WellNested :
      {cur : ℕ} (f : Frame T) (fs : List (Frame T)) (roots : Nodes T)
      → Open cur roots (f ∷ fs)
      → WellNested (close_all f fs roots)
  unfolding close_all
  close_all-WellNested f [] roots (hf, _, (c, n)) = (
    f.span.end_byte,
    Chain-snoc 0 roots f f.span.end_byte c (omega arith),
    Nested-snoc roots f n (close-NodeNested f hf),
  )
  close_all-WellNested f (g ∷ fs) roots (hf, u, o) =
      close_all-WellNested {cur = f.span.end_byte} (add_child f g) fs roots
        (add_child-FrameOk f.span.end_byte f g hf o.0 u (omega arith), o.1, o.2)

  forest_of-WellNested :
      (roots : Nodes T) (cs : List (Conflict T)) (fs : List (Frame T)) (cur : ℕ)
      → Open cur roots fs
      → WellNested (forest_of (record { roots = roots; conflicts = cs; stack = fs }))
  unfolding forest_of
  forest_of-WellNested roots cs [] cur o = (cur, o.0, o.1)
  forest_of-WellNested roots cs (f ∷ fs) cur o = close_all-WellNested f fs roots o

  Starts-cons :
      (o : ℕ × Item T) (order : List (ℕ × Item T)) (cur : ℕ)
      → cur ≤ o.1.span.start_byte
      → IsSorted compare_items (o ∷ order)
      → Starts cur (o ∷ order)
  Starts-cons o [] cur h s = (h, tt)
  Starts-cons o (o' ∷ order) cur h s =
      (h, Starts-cons o' order o.1.span.start_byte (NotAfter-ends o o' s.0.0).0 s.1)

  Starts-order : (order : List (ℕ × Item T)) → IsSorted compare_items order → Starts 0 order
  Starts-order [] s = tt
  Starts-order (o ∷ order) s = Starts-cons o order 0 (omega arith) s

  -- The roots of the forest stand side by side in the order of the file. At every node the span is
  -- not empty, and its children stand side by side inside it, in order, each strictly smaller.
  pub build-WellNested : (items : List (Item T)) → WellNested (build items).0
  unfolding build
  build-WellNested items =
      let order = sort_by compare_items (number_from 0 items) in
      let s = place_all initial order in
      let (cur, o) =
        place_all-Open initial order 0 (Starts-order order (order-IsSorted items)) (omega arith) in
      forest_of-WellNested s.roots s.conflicts s.stack cur o
