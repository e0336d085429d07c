-- ===== src/Interval/Forest/Shape.antt =====
-- The forest is nested: siblings lie side by side and children lie inside their node.
use go_mutants.Prelude.{ℕ, ◌≤◌, ◌<◌, ◌⊎◌, inl, inr, arith, Bool-cases, List, [], ◌∷◌, leb}
use go_mutants.Mutation.Span.{Span}
use go_mutants.Interval.Forest.{
  Node, Nodes, node, nil, cons, Frame, snoc, close, add_child, pop_from, pop_ended,
}

-- The node lies strictly inside the one below it on the stack.
pub record Under (s t : Span) : Type 0 where
  pub from : t.start_byte ≤ s.start_byte
  pub to : s.end_byte ≤ t.end_byte
  pub strict : (t.start_byte < s.start_byte) ⊎ (s.end_byte < t.end_byte)

module _ {T : Type 0} where
  -- The nodes stand side by side, in order, from `lo` up to `hi`.
  abbrev pub Chain : ℕ → Nodes T → ℕ → Type 0
  Chain lo nil hi = lo ≤ hi
  Chain lo (cons (node s _ _) ns) hi = (lo ≤ s.start_byte) × Chain s.end_byte ns hi

  -- None of the nodes has exactly the range from `lo` to `hi`, in which they lie.
  abbrev pub Narrower : Span → Nodes T → Type 0
  Narrower s nil = Unit
  Narrower s (cons (node t _ _) ns) =
      ((s.start_byte < t.start_byte) ⊎ (t.end_byte < s.end_byte)) × Narrower s ns

  -- At every node: the span is not empty, and the children stand side by side in it, each strictly
  -- smaller than it.
  abbrev mutual
    pub NodeNested : Node T → Type 0
    NodeNested (node s _ children) =
        (s.start_byte < s.end_byte)
        × Chain s.start_byte children s.end_byte
        × Narrower s children
        × Nested children

    pub Nested : Nodes T → Type 0
    Nested nil = Unit
    Nested (cons n ns) = NodeNested n × Nested ns

  pub Chain-mono :
      (lo : ℕ) (ns : Nodes T) {hi hi' : ℕ} → hi ≤ hi' → Chain lo ns hi → Chain lo ns hi'
  Chain-mono lo nil h c = omega arith
  Chain-mono lo (cons (node s ts ch) ns) h c = (c.0, Chain-mono s.end_byte ns h c.1)

  pub Chain-snoc :
      (lo : ℕ) (ns : Nodes T) (f : Frame T) (hi : ℕ)
      → Chain lo ns f.span.start_byte
      → f.span.end_byte ≤ hi
      → Chain lo (snoc ns (close f)) hi
  Chain-snoc lo nil f hi c h = (c, h)
  Chain-snoc lo (cons (node s ts ch) ns) f hi c h = (c.0, Chain-snoc s.end_byte ns f hi c.1 h)

  Narrower-snoc :
      (s : Span) (ns : Nodes T) (f : Frame T)
      → Narrower s ns
      → (s.start_byte < f.span.start_byte) ⊎ (f.span.end_byte < s.end_byte)
      → Narrower s (snoc ns (close f))
  Narrower-snoc s nil f n h = (h, tt)
  Narrower-snoc s (cons (node t ts ch) ns) f n h = (n.0, Narrower-snoc s ns f n.1 h)

  pub Nested-snoc :
      (ns : Nodes T) (f : Frame T) → Nested ns → NodeNested (close f) → Nested (snoc ns (close f))
  Nested-snoc nil f n h = (h, tt)
  Nested-snoc (cons m ns) f n h = (n.0, Nested-snoc ns f n.1 h)

  -- An open node whose finished children end by `cur`.
  pub record FrameOk (cur : ℕ) (f : Frame T) : Type 0 where
    pub wide : f.span.start_byte < f.span.end_byte
    pub begun : f.span.start_byte ≤ cur
    pub so_far : Chain f.span.start_byte f.children cur
    pub within : Chain f.span.start_byte f.children f.span.end_byte
    pub narrower : Narrower f.span f.children
    pub nested : Nested f.children

  abbrev pub UnderTop : Span → List (Frame T) → Type 0
  UnderTop s [] = Unit
  UnderTop s (g ∷ _) = Under s g.span

  -- The stack and the finished roots, when everything finished ends by `cur`.
  abbrev pub Open : ℕ → Nodes T → List (Frame T) → Type 0
  Open cur roots [] = Chain 0 roots cur × Nested roots
  Open cur roots (f ∷ fs) = FrameOk cur f × UnderTop f.span fs × Open f.span.start_byte roots fs

  pub close-NodeNested : {cur : ℕ} (f : Frame T) → FrameOk cur f → NodeNested (close f)
  close-NodeNested f h = (h.wide, h.within, h.narrower, h.nested)

  pub FrameOk-mono : {cur cur' : ℕ} (f : Frame T) → cur ≤ cur' → FrameOk cur f → FrameOk cur' f
  FrameOk-mono f h ok = record {
    wide = ok.wide;
    begun = omega arith;
    so_far = Chain-mono f.span.start_byte f.children h ok.so_far;
    within = ok.within;
    narrower = ok.narrower;
    nested = ok.nested;
  }

  pub add_child-FrameOk :
      {cur : ℕ} (start : ℕ) (f g : Frame T)
      → FrameOk cur f
      → FrameOk f.span.start_byte g
      → Under f.span g.span
      → f.span.end_byte ≤ start
      → FrameOk start (add_child f g)
  add_child-FrameOk start f g hf hg u h = record {
    wide = hg.wide;
    begun = omega arith;
    so_far = Chain-snoc g.span.start_byte g.children f start hg.so_far h;
    within = Chain-snoc g.span.start_byte g.children f g.span.end_byte hg.so_far u.to;
    narrower = Narrower-snoc g.span g.children f hg.narrower u.strict;
    nested = Nested-snoc g.children f hg.nested (close-NodeNested f hf);
  }

  -- After the pops every node left on the stack reaches past `start`.
  abbrev pub Reaches : ℕ → List (Frame T) → Type 0
  Reaches start [] = Unit
  Reaches start (f ∷ _) = start < f.span.end_byte

  pop_from-Open :
      {cur : ℕ} (start : ℕ) (f : Frame T) (fs : List (Frame T)) (roots : Nodes T)
      → cur ≤ start
      → Open cur roots (f ∷ fs)
      → let r = pop_from start f fs roots in Open start r.1 r.0 × Reaches start r.0
  unfolding pop_from
  pop_from-Open start f [] roots h (hf, _, (c, n)) = elim (Bool-cases (leb f.span.end_byte start)) [
    | inl e ↦ rw e (
      (Chain-snoc 0 roots f start c (ground arith), Nested-snoc roots f n (close-NodeNested f hf)),
      tt,
    )
    | inr e ↦ rw e ((FrameOk-mono f h hf, tt, (c, n)), ground arith)
  ]
  pop_from-Open {cur} start f (g ∷ fs) roots h (hf, u, o) =
      elim (Bool-cases (leb f.span.end_byte start)) [
        | inl e ↦ rw e (
            pop_from-Open {cur = start} start (add_child f g) fs roots (omega arith)
              (add_child-FrameOk start f g hf o.0 u (ground arith), o.1, o.2))
        | inr e ↦ rw e ((FrameOk-mono f h hf, u, o), ground arith)
      ]

  pub pop_ended-Open :
      {cur : ℕ} (start : ℕ) (fs : List (Frame T)) (roots : Nodes T)
      → cur ≤ start
      → Open cur roots fs
      → let r = pop_ended start fs roots in Open start r.1 r.0 × Reaches start r.0
  unfolding pop_ended
  pop_ended-Open start [] roots h (c, n) = ((Chain-mono 0 roots h c, n), tt)
  pop_ended-Open start (f ∷ fs) roots h o = pop_from-Open start f fs roots h o
