-- ===== src/Interval/Forest.antt =====
-- internal/interval/forest.go: overlapping spans put into a forest of nested sites.
-- The stack of `Build` is the rightmost path of the forest that it grows, and only its last node
-- gets children. The source puts a node under its parent when it opens it; here a frame of the
-- stack holds an open node with its finished children, and the node goes behind its finished
-- siblings when it is popped. In between nothing else goes there, so the children's order is the
-- source's.
use go_mutants.Prelude.{
  ℕ, zero, suc, ◌≤◌, Bool, true, false, compare, Ordering, List, [], ◌∷◌, ◌++◌, map, ltb, leb,
  if◌then◌else◌,
}
use go_mutants.Prelude.Sorting.{sort_by}
use go_mutants.Mutation.Span.{Span, same, is_empty}
mod Order
pub mod Shape
pub mod Nested
pub mod Conflicts
pub mod Account

pub record Item {ℓ} (T : Type ℓ) : Type ℓ where
  pub span : Span
  pub payload : T

mutual
  pub data Node {ℓ} (T : Type ℓ) : Type ℓ where
    node : Span → List T → Nodes T → Node T

  pub data Nodes {ℓ} (T : Type ℓ) : Type ℓ where
    nil : Nodes T
    cons : Node T → Nodes T → Nodes T

pub data Reason : Type 0 where
  reason_partial_overlap reason_empty_span : Reason

pub record Conflict {ℓ} (T : Type ℓ) : Type ℓ where
  pub item : Item T
  pub reason : Reason
  pub against : Span

-- An open node.
pub record Frame {ℓ} (T : Type ℓ) : Type ℓ where
  pub span : Span
  pub alternatives : List T
  pub children : Nodes T

-- The variables of `Build`; the top of the stack comes first.
pub record State {ℓ} (T : Type ℓ) : Type ℓ where
  pub roots : Nodes T
  pub conflicts : List (Conflict T)
  pub stack : List (Frame T)

abbrev pub zero_span : Span
zero_span = record { start_byte = 0; end_byte = 0 }

-- The first comparison that is not zero.
abbrev pub then_compare : Ordering → Ordering → Ordering
then_compare Ordering.lt o = Ordering.lt
then_compare Ordering.gt o = Ordering.gt
then_compare Ordering.eq o = o

module _ {ℓ} {T : Type ℓ} where
  abbrev pub snoc : Nodes T → Node T → Nodes T
  snoc nil n = cons n nil
  snoc (cons m ns) n = cons m (snoc ns n)

  abbrev pub close : Frame T → Node T
  close f = node f.span f.alternatives f.children

  abbrev pub add_child : Frame T → Frame T → Frame T
  add_child f g = record g { children = snoc g.children (close f) }

  -- By start, the wider span first, then by position in the input.
  unfoldable pub compare_items : ℕ × Item T → ℕ × Item T → Ordering
  compare_items (x, a) (y, b) =
      then_compare (compare a.span.start_byte b.span.start_byte)
        (then_compare (compare b.span.end_byte a.span.end_byte) (compare x y))

  abbrev pub number_from : ℕ → List (Item T) → List (ℕ × Item T)
  number_from i [] = []
  number_from i (a ∷ items) = (i, a) ∷ number_from (suc i) items

  -- The loop that pops the nodes which end before `start`, from the top node `f`.
  pub pop_from : ℕ → Frame T → List (Frame T) → Nodes T → List (Frame T) × Nodes T
  pop_from start f [] roots =
      if leb f.span.end_byte start then ([], snoc roots (close f)) else (f ∷ [], roots)
  pop_from start f (g ∷ fs) roots =
      if leb f.span.end_byte start
      then pop_from start (add_child f g) fs roots
      else (f ∷ g ∷ fs, roots)

  pub pop_ended : ℕ → List (Frame T) → Nodes T → List (Frame T) × Nodes T
  pop_ended start [] roots = ([], roots)
  pop_ended start (f ∷ fs) roots = pop_from start f fs roots

  abbrev pub open_frame : Item T → Frame T
  open_frame a = record { span = a.span; alternatives = a.payload ∷ []; children = nil }

  abbrev pub add_alternative : Frame T → Item T → Frame T
  add_alternative f a = record f { alternatives = f.alternatives ++ a.payload ∷ [] }

  abbrev pub overlap_conflict : Frame T → Item T → Conflict T
  overlap_conflict f a = record { item = a; reason = reason_partial_overlap; against = f.span }

  abbrev pub empty_conflict : Item T → Conflict T
  empty_conflict a = record { item = a; reason = reason_empty_span; against = zero_span }

  -- The rest of the loop's body, once the stack's top reaches past the item's start.
  pub settle : Item T → List (Frame T) → Nodes T → List (Conflict T) → State T
  settle a [] roots cs = record { roots = roots; conflicts = cs; stack = open_frame a ∷ [] }
  settle a (f ∷ fs) roots cs =
      if ltb f.span.end_byte a.span.end_byte
      then record { roots = roots; conflicts = cs ++ overlap_conflict f a ∷ []; stack = f ∷ fs }
      else if same f.span a.span
      then record { roots = roots; conflicts = cs; stack = add_alternative f a ∷ fs }
      else record { roots = roots; conflicts = cs; stack = open_frame a ∷ f ∷ fs }

  -- The body of the loop over the sorted items.
  pub place : State T → Item T → State T
  place s a =
      if is_empty a.span
      then record s { conflicts = s.conflicts ++ empty_conflict a ∷ [] }
      else let (stack, roots) = pop_ended a.span.start_byte s.stack s.roots in
        settle a stack roots s.conflicts

  pub place_all : State T → List (ℕ × Item T) → State T
  place_all s [] = s
  place_all s ((i, a) ∷ order) = place_all (place s a) order

  -- What is on the stack at the end is part of the forest.
  pub close_all : Frame T → List (Frame T) → Nodes T → Nodes T
  close_all f [] roots = snoc roots (close f)
  close_all f (g ∷ fs) roots = close_all (add_child f g) fs roots

  pub forest_of : State T → Nodes T
  forest_of s = elim s.stack [ [] ↦ s.roots | f ∷ fs ↦ close_all f fs s.roots ]

  abbrev pub initial : State T
  initial = record { roots = nil; conflicts = []; stack = [] }

  unfoldable pub build : List (Item T) → Nodes T × List (Conflict T)
  unfolding place_all place settle pop_ended pop_from forest_of close_all compare_items sort_by
  build items =
      let s = place_all initial (sort_by compare_items (number_from 0 items)) in
      (forest_of s, s.conflicts)
