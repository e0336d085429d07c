-- ===== src/Interval/Traverse/Walks.antt =====
-- The visits of `Walk`.
use go_mutants.Prelude.{
  ℕ, zero, suc, ◌+◌, ◌≤◌, ◌≡◌, refl, sym, ap, ◌∙◌, arith, some, List, [], ◌∷◌, ◌++◌, append-nil,
  append_assoc,
}
use go_mutants.Interval.Forest.{Node, Nodes, node, nil, cons}
use go_mutants.Interval.Traverse.{
  to_list, walk_from, size_node, size, walk, preorder_node, preorder,
}

module _ {ℓ} {T : Type ℓ} where
  -- The same over a stack.
  abbrev preorders : List (Node T) → List (Node T)
  preorders [] = []
  preorders (n ∷ stack) = preorder_node n ++ preorders stack

  abbrev sizes : List (Node T) → ℕ
  sizes [] = 0
  sizes (n ∷ stack) = size_node n + sizes stack

  preorders-push :
      (ns : Nodes T) (stack : List (Node T))
      → preorders (to_list ns ++ stack) ≡ preorder ns ++ preorders stack
  preorders-push nil stack = refl
  preorders-push (cons n ns) stack =
      rw (preorders-push ns stack)
        (sym (append_assoc (preorder_node n) (preorder ns) (preorders stack)))

  sizes-push :
      (ns : Nodes T) (stack : List (Node T)) → sizes (to_list ns ++ stack) ≡ size ns + sizes stack
  unfolding size
  sizes-push nil stack = omega arith
  sizes-push (cons n ns) stack = omega (arith, sizes-push ns stack)

  walk_from-preorders :
      (fuel : ℕ) (stack seen : List (Node T))
      → sizes stack ≤ fuel
      → walk_from fuel stack seen ≡ some (seen ++ preorders stack)
  unfolding walk_from size_node
  walk_from-preorders fuel [] seen h = rw append-nil
  walk_from-preorders zero (node s ts ns ∷ stack) seen h = absurd (omega arith)
  walk_from-preorders (suc fuel) (node s ts ns ∷ stack) seen h =
      walk_from-preorders fuel (to_list ns ++ stack) (seen ++ node s ts ns ∷ [])
        (omega (arith, sizes-push ns stack))
      ∙ ap some (rw (preorders-push ns stack) (append_assoc seen (node s ts ns ∷ []) _))

  -- `Walk` ends and visits every node once, each before its children, and siblings in order.
  pub walk-preorder : (roots : Nodes T) → walk roots ≡ some (preorder roots)
  unfolding walk
  walk-preorder roots =
      let bound : sizes (to_list roots ++ []) ≤ size roots = omega (arith, sizes-push roots []) in
      walk_from-preorders (size roots) (to_list roots) [] (rw append-nil at bound)
      ∙ ap some (
          ap preorders (sym (append-nil (to_list roots)))
          ∙ (preorders-push roots [] ∙ append-nil (preorder roots)))
