-- ===== src/Interval/Traverse/InnerFirst.antt =====
-- The visits of `InnerFirst`.
use go_mutants.Prelude.{
  ℕ, suc, ◌+◌, ◌*◌, ◌≡◌, refl, ap, ◌∙◌, arith, none, some, List, [], ◌∷◌, ◌++◌, append-nil,
  append_assoc,
}
use go_mutants.Interval.Forest.{Node, Nodes, node, nil, cons}
use go_mutants.Interval.Traverse.{
  to_list, children, child_at, inner_from, size_node, size, inner_roots, inner_first,
  postorder_node, postorder,
}

module _ {ℓ} {T : Type ℓ} where
  inner_from-child :
      (fuel : ℕ) (n c : Node T) (i : ℕ) (stack : List (Node T × ℕ)) (seen : List (Node T))
      → child_at (children n) i ≡ some c
      → inner_from (suc fuel) ((n, i) ∷ stack) seen
        ≡ inner_from fuel ((c, 0) ∷ (n, suc i) ∷ stack) seen
  unfolding inner_from
  inner_from-child fuel n c i stack seen e = rw (e, inner_from) refl

  inner_from-done :
      (fuel : ℕ) (n : Node T) (i : ℕ) (stack : List (Node T × ℕ)) (seen : List (Node T))
      → child_at (children n) i ≡ none
      → inner_from (suc fuel) ((n, i) ∷ stack) seen ≡ inner_from fuel stack (seen ++ n ∷ [])
  unfolding inner_from
  inner_from-done fuel n i stack seen e = rw (e, inner_from) refl

  fuel_eq :
      {f g : ℕ} (stack : List (Node T × ℕ)) (seen : List (Node T))
      → f ≡ g
      → inner_from f stack seen ≡ inner_from g stack seen
  fuel_eq stack seen e = ap (λ f. inner_from f stack seen) e

  mutual
    unfolding size_node

    inner_from-node :
        (n : Node T) (fuel : ℕ) (stack : List (Node T × ℕ)) (seen : List (Node T))
        → inner_from (2 * size_node n + fuel) ((n, 0) ∷ stack) seen
          ≡ inner_from (suc fuel) stack (seen ++ postorder_node n)
    inner_from-node (node s ts ns) fuel stack seen =
        fuel_eq ((node s ts ns, 0) ∷ stack) seen (omega arith)
        ∙ inner_from-nodes ns (node s ts ns) 0 (suc fuel) stack seen
            (λ j. ap (child_at ns) (omega arith))

    inner_from-nodes :
        (rest : Nodes T) (n : Node T) (i fuel : ℕ) (stack : List (Node T × ℕ))
        (seen : List (Node T))
        → ((j : ℕ) → child_at (children n) (i + j) ≡ child_at rest j)
        → inner_from (2 * size rest + suc fuel) ((n, i) ∷ stack) seen
          ≡ inner_from fuel stack (seen ++ (postorder rest ++ n ∷ []))
    inner_from-nodes nil n i fuel stack seen h =
        fuel_eq ((n, i) ∷ stack) seen (omega arith)
        ∙ inner_from-done fuel n i stack seen (ap (child_at (children n)) (omega arith) ∙ h 0)
    inner_from-nodes (cons c rest) n i fuel stack seen h =
        fuel_eq {g = suc (2 * size_node c + (2 * size rest + fuel))} ((n, i) ∷ stack) seen
          (omega arith)
        ∙ (inner_from-child (2 * size_node c + (2 * size rest + fuel)) n c i stack seen
              (ap (child_at (children n)) (omega arith) ∙ h 0)
            ∙ (inner_from-node c (2 * size rest + fuel) ((n, suc i) ∷ stack) seen
                ∙ (fuel_eq {g = 2 * size rest + suc fuel} ((n, suc i) ∷ stack)
                      (seen ++ postorder_node c) (omega arith)
                    ∙ (inner_from-nodes rest n (suc i) fuel stack (seen ++ postorder_node c)
                          (λ j. ap (child_at (children n)) (omega arith) ∙ h (suc j))
                        ∙ ap (inner_from fuel stack) (
                            rw (append_assoc (postorder_node c) (postorder rest) (n ∷ []))
                              (append_assoc seen (postorder_node c) (postorder rest ++ n ∷ [])))))))

  inner_from-end : (seen : List (Node T)) → inner_from 1 [] seen ≡ some seen
  unfolding inner_from
  inner_from-end seen = refl

  inner_roots-postorder :
      (roots : Nodes T) (seen : List (Node T))
      → inner_roots (to_list roots) seen ≡ some (seen ++ postorder roots)
  unfolding inner_roots
  inner_roots-postorder nil seen = rw append-nil
  inner_roots-postorder (cons r rs) seen =
      let e : inner_from (2 * size_node r) ((r, 0) ∷ []) seen ≡ some (seen ++ postorder_node r) =
        fuel_eq ((r, 0) ∷ []) seen (omega arith)
        ∙ inner_from-node r 0 [] seen
        ∙ inner_from-end (seen ++ postorder_node r) in
      rw (e, inner_roots)
        (inner_roots-postorder rs (seen ++ postorder_node r)
          ∙ ap some (append_assoc seen (postorder_node r) (postorder rs)))

  -- `InnerFirst` ends and visits every node once, each after its children, and siblings in order.
  pub inner_first-postorder : (roots : Nodes T) → inner_first roots ≡ some (postorder roots)
  unfolding inner_first
  inner_first-postorder roots = inner_roots-postorder roots []
