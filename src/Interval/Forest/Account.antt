-- ===== src/Interval/Forest/Account.antt =====
-- No item is lost and none is invented: the forest and the conflicts hold the items given.
use go_mutants.Prelude.{
  ℕ, suc, ◌+◌, ◌≡◌, refl, ap, inl, inr, arith, Bool, true, false, Bool-cases, List, [], ◌∷◌, ◌++◌,
}
use go_mutants.Prelude.Sorting.{sort_by, total_by, sort_by-total}
use go_mutants.Mutation.Span.{Span, same, is_empty}
use go_mutants.Interval.Forest.{
  Item, Node, Nodes, node, nil, cons, Conflict, Frame, State, snoc, close, add_child, number_from,
  compare_items, pop_from, pop_ended, open_frame, settle, place, place_all, close_all, forest_of,
  initial, build, add_alternative, overlap_conflict, empty_conflict,
}

abbrev pub tick : Bool → ℕ
tick true = 1
tick false = 0

module _ {T : Type 0} (p : Item T → Bool) where
  -- How many items of a list pass the test `p`.
  abbrev pub count_items : List (Item T) → ℕ
  count_items [] = 0
  count_items (a ∷ items) = tick (p a) + count_items items

  abbrev pub count_alternatives : Span → List T → ℕ
  count_alternatives s [] = 0
  count_alternatives s (t ∷ ts) =
      tick (p (record { span = s; payload = t })) + count_alternatives s ts

  -- The same over the alternatives of a forest's nodes, each with its node's span.
  mutual
    count_node : Node T → ℕ
    count_node (node s alternatives children) =
        count_alternatives s alternatives + count_nodes children

    pub count_nodes : Nodes T → ℕ
    count_nodes nil = 0
    count_nodes (cons n ns) = count_node n + count_nodes ns

  abbrev pub count_conflicts : List (Conflict T) → ℕ
  count_conflicts [] = 0
  count_conflicts (c ∷ cs) = tick (p c.item) + count_conflicts cs

  count_frame : Frame T → ℕ
  count_frame f = count_alternatives f.span f.alternatives + count_nodes f.children

  count_frames : List (Frame T) → ℕ
  count_frames [] = 0
  count_frames (f ∷ fs) = count_frame f + count_frames fs

  count_state : State T → ℕ
  count_state s = count_nodes s.roots + count_frames s.stack + count_conflicts s.conflicts

  count_nodes-snoc :
      (ns : Nodes T) (f : Frame T)
      → count_nodes (snoc ns (close f)) ≡ count_nodes ns + count_frame f
  unfolding count_nodes count_node count_frame
  count_nodes-snoc nil f = omega arith
  count_nodes-snoc (cons n ns) f = omega (arith, count_nodes-snoc ns f)

  count_alternatives-append :
      (s : Span) (ts : List T) (t : T)
      → count_alternatives s (ts ++ t ∷ [])
        ≡ count_alternatives s ts + tick (p (record { span = s; payload = t }))
  count_alternatives-append s [] t = omega arith
  count_alternatives-append s (u ∷ ts) t = omega (arith, count_alternatives-append s ts t)

  count_conflicts-append :
      (cs : List (Conflict T)) (c : Conflict T)
      → count_conflicts (cs ++ c ∷ []) ≡ count_conflicts cs + tick (p c.item)
  count_conflicts-append [] c = omega arith
  count_conflicts-append (d ∷ cs) c = omega (arith, count_conflicts-append cs c)

  count-add_child : (f g : Frame T) → count_frame (add_child f g) ≡ count_frame g + count_frame f
  unfolding count_frame
  count-add_child f g = omega (arith, count_nodes-snoc g.children f)

  count-pop_from :
      (start : ℕ) (f : Frame T) (fs : List (Frame T)) (roots : Nodes T)
      → count_nodes (pop_from start f fs roots).1 + count_frames (pop_from start f fs roots).0
        ≡ count_nodes roots + (count_frame f + count_frames fs)
  unfolding pop_from count_frames
  count-pop_from start f [] roots = ground (arith, count_nodes-snoc roots f)
  count-pop_from start f (g ∷ fs) roots =
      ground (arith, count-pop_from start (add_child f g) fs roots, count-add_child f g)

  count-pop_ended :
      (start : ℕ) (fs : List (Frame T)) (roots : Nodes T)
      → count_nodes (pop_ended start fs roots).1 + count_frames (pop_ended start fs roots).0
        ≡ count_nodes roots + count_frames fs
  unfolding pop_ended count_frames
  count-pop_ended start [] roots = refl
  count-pop_ended start (f ∷ fs) roots = count-pop_from start f fs roots

  count-open_frame : (a : Item T) → count_frame (open_frame a) ≡ tick (p a)
  unfolding count_frame count_nodes
  count-open_frame a = omega arith

  count-add_alternative :
      (f : Frame T) (a : Item T)
      → same f.span a.span ≡ true
      → count_frame (add_alternative f a) ≡ count_frame f + tick (p a)
  unfolding count_frame
  count-add_alternative f a h =
      let e : f.span ≡ a.span = ground arith in
      let q : tick (p (record { span = f.span; payload = a.payload })) ≡ tick (p a) =
        ap (λ s. tick (p (record { span = s; payload = a.payload }))) e in
      omega (arith, count_alternatives-append f.span f.alternatives a.payload, q)

  count-settle :
      (a : Item T) (fs : List (Frame T)) (roots : Nodes T) (cs : List (Conflict T))
      → count_state (settle a fs roots cs)
        ≡ tick (p a) + (count_nodes roots + count_frames fs) + count_conflicts cs
  unfolding settle count_state count_frames
  count-settle a [] roots cs = omega (arith, count-open_frame a)
  count-settle a (f ∷ fs) roots cs = ground (
    arith,
    count_conflicts-append cs (overlap_conflict f a),
    count-add_alternative f a,
    count-open_frame a,
  )

  count-place : (s : State T) (a : Item T) → count_state (place s a) ≡ tick (p a) + count_state s
  unfolding place
  count-place s a = elim (Bool-cases (is_empty a.span)) [
    | inl e ↦
        rw e (
          unfold count_state in
          omega (arith, count_conflicts-append s.conflicts (empty_conflict a)))
    | inr n ↦
        let (stack, roots) = pop_ended a.span.start_byte s.stack s.roots in
        rw n (
          unfold count_state in
          omega (
            arith,
            count-settle a stack roots s.conflicts,
            count-pop_ended a.span.start_byte s.stack s.roots,
          ))
  ]

  count-place_all :
      (s : State T) (order : List (ℕ × Item T))
      → count_state (place_all s order) ≡ total_by (λ o. tick (p o.1)) order + count_state s
  unfolding place_all
  count-place_all s [] = omega arith
  count-place_all s ((i, a) ∷ order) =
      omega (arith, count-place_all (place s a) order, count-place s a)

  count-close_all :
      (f : Frame T) (fs : List (Frame T)) (roots : Nodes T)
      → count_nodes (close_all f fs roots) ≡ count_nodes roots + (count_frame f + count_frames fs)
  unfolding close_all count_frames
  count-close_all f [] roots = omega (arith, count_nodes-snoc roots f)
  count-close_all f (g ∷ fs) roots =
      omega (arith, count-close_all (add_child f g) fs roots, count-add_child f g)

  count-forest_of :
      (roots : Nodes T) (cs : List (Conflict T)) (fs : List (Frame T))
      → count_nodes (forest_of (record { roots = roots; conflicts = cs; stack = fs }))
        ≡ count_nodes roots + count_frames fs
  unfolding forest_of count_frames
  count-forest_of roots cs [] = omega arith
  count-forest_of roots cs (f ∷ fs) = count-close_all f fs roots

  total-number_from :
      (i : ℕ) (items : List (Item T))
      → total_by (λ o. tick (p o.1)) (number_from i items) ≡ count_items items
  total-number_from i [] = refl
  total-number_from i (a ∷ items) = omega (arith, total-number_from (suc i) items)

  -- Whatever test is made of the items: those that pass it are as many among the forest's
  -- alternatives, each taken with the span of its node, and the conflicts together, as among the
  -- items given.
  pub count-build :
      (items : List (Item T))
      → count_nodes (build items).0 + count_conflicts (build items).1 ≡ count_items items
  unfolding build
  count-build items =
      let order = sort_by compare_items (number_from 0 items) in
      let s = place_all initial order in
      unfold count_state count_nodes count_frames in
      omega (
        arith,
        count-place_all initial order,
        count-forest_of s.roots s.conflicts s.stack,
        sort_by-total compare_items (λ o. tick (p o.1)) (number_from 0 items),
        total-number_from 0 items,
      )
