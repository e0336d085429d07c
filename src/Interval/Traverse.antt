-- ===== src/Interval/Traverse.antt =====
-- internal/interval/forest.go, the two traversals: `Walk` and `InnerFirst`, each with its own
-- stack. `visit` is called on the nodes in the order of the result. Every round of a loop takes
-- one of fuel; `none` is its end, which the theorems exclude.
use go_mutants.Prelude.{
  ℕ, zero, suc, ◌+◌, ◌*◌, ◌≤◌, ◌<◌, ◌≡◌, refl, sym, ap, ◌∙◌, arith, Option, none, some, List, [],
  ◌∷◌, ◌++◌, append-nil, append_assoc,
}
use go_mutants.Interval.Forest.{Node, Nodes, node, nil, cons}
pub mod Walks
pub mod InnerFirst

module _ {ℓ} {T : Type ℓ} where
  abbrev pub to_list : Nodes T → List (Node T)
  to_list nil = []
  to_list (cons n ns) = n ∷ to_list ns

  abbrev pub children : Node T → Nodes T
  children (node _ _ ns) = ns

  -- `Children[i]`, if there is one.
  abbrev pub child_at : Nodes T → ℕ → Option (Node T)
  child_at nil i = none
  child_at (cons n ns) zero = some n
  child_at (cons n ns) (suc i) = child_at ns i

  -- The loop of `Walk`; its stack's top comes first, so `push` puts the children in front.
  pub walk_from : ℕ → List (Node T) → List (Node T) → Option (List (Node T))
  walk_from fuel [] seen = some seen
  walk_from zero (n ∷ stack) seen = none
  walk_from (suc fuel) (n ∷ stack) seen =
      walk_from fuel (to_list (children n) ++ stack) (seen ++ n ∷ [])

  -- The loop of `InnerFirst`: a frame is a node and the number of its next child.
  pub inner_from : ℕ → List (Node T × ℕ) → List (Node T) → Option (List (Node T))
  inner_from fuel [] seen = some seen
  inner_from zero (f ∷ stack) seen = none
  inner_from (suc fuel) ((n, i) ∷ stack) seen = elim (child_at (children n) i) [
    | some c ↦ inner_from fuel ((c, 0) ∷ (n, suc i) ∷ stack) seen
    | none ↦ inner_from fuel stack (seen ++ n ∷ [])
  ]

  mutual
    pub size_node : Node T → ℕ
    size_node (node _ _ ns) = suc (size ns)

    pub size : Nodes T → ℕ
    size nil = 0
    size (cons n ns) = size_node n + size ns

  pub inner_roots : List (Node T) → List (Node T) → Option (List (Node T))
  inner_roots [] seen = some seen
  inner_roots (r ∷ rs) seen = elim (inner_from (2 * size_node r) ((r, 0) ∷ []) seen) [
    | none ↦ none
    | some seen' ↦ inner_roots rs seen'
  ]

  -- A node is on the stack of `Walk` once, and is a frame's child or root once and popped once.
  unfoldable pub walk : Nodes T → Option (List (Node T))
  unfolding walk_from size
  walk roots = walk_from (size roots) (to_list roots) []

  unfoldable pub inner_first : Nodes T → Option (List (Node T))
  unfolding inner_roots inner_from size_node
  inner_first roots = inner_roots (to_list roots) []

  -- The specifications: a node before its children, and after them.
  abbrev mutual
    pub preorder_node : Node T → List (Node T)
    preorder_node (node s ts ns) = node s ts ns ∷ preorder ns

    pub preorder : Nodes T → List (Node T)
    preorder nil = []
    preorder (cons n ns) = preorder_node n ++ preorder ns

  abbrev mutual
    pub postorder_node : Node T → List (Node T)
    postorder_node (node s ts ns) = postorder ns ++ node s ts ns ∷ []

    pub postorder : Nodes T → List (Node T)
    postorder nil = []
    postorder (cons n ns) = postorder_node n ++ postorder ns
