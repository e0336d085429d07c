-- ===== src/Instrument/Splice/Order.antt =====
-- What the checks of `validateSplices` establish: the sorted splices lie apart, in the source.
use go_mutants.Prelude.{
  ℕ, suc, ◌≤◌, ◌≡◌, subst, ◌<◌, true, List, [], ◌∷◌, Bytes, leb, ltb, ltb→lt, leb→le, length, All,
  arith, not,
}
use go_mutants.Prelude.Checks.{ok, guard, bind-ok, guard-ok, ok_eq}
use go_mutants.Prelude.Sorting.{sort_by, sort_by-All}
use go_mutants.Mutation.Span.{in_range, same}
use go_mutants.Instrument.Splice.{
  Splice, both_rewrite, crosses, source_too_long, word, check_splice, check_each, number_from,
  check_order, check_sorted, compare_splices, validate_splices,
}

-- The splice's span is not reversed and lies in a source of `n` bytes.
abbrev pub Fits : ℕ → Splice → Type 0
Fits n s = (s.span.start_byte ≤ s.span.end_byte) × (s.span.end_byte ≤ n)

-- The splices follow one another from `c` on, in a source of `n` bytes.
abbrev pub InOrder : ℕ → ℕ → List (ℕ × Splice) → Type 0
InOrder c n [] = c ≤ n
InOrder c n ((i, s) ∷ order) = (c ≤ s.span.start_byte) × Fits n s × InOrder s.span.end_byte n order

check_splice-Fits :
    (src : Bytes) (i : ℕ) (s : Splice) {u : Unit {0}}
    → check_splice src i s ≡ ok u
    → Fits (length src) s
unfolding check_splice in_range
check_splice-Fits src i s h = ground arith

check_each-Fits :
    (src : Bytes) (i : ℕ) (ss : List Splice) {u : Unit {0}}
    → check_each src i ss ≡ ok u
    → All (Fits (length src)) ss
unfolding check_each
check_each-Fits src i [] h = tt
check_each-Fits src i (s ∷ ss) h =
    let (_, e, h₁) = bind-ok (check_splice src i s) _ h in
    (check_splice-Fits src i s e, check_each-Fits src (suc i) ss h₁)

number_from-Fits :
    (n i : ℕ) (ss : List Splice) → All (Fits n) ss → All (λ p. Fits n p.1) (number_from i ss)
number_from-Fits n i [] h = tt
number_from-Fits n i (s ∷ ss) h = (h.0, number_from-Fits n (suc i) ss h.1)

check_order-InOrder :
    (n : ℕ) (prev : ℕ × Splice) (reach at : ℕ) (order : List (ℕ × Splice)) {u : Unit {0}}
    → reach ≤ n
    → All (λ p. Fits n p.1) order
    → check_order prev reach at order ≡ ok u
    → InOrder reach n order
unfolding check_order
check_order-InOrder n prev reach at [] r f h = r
check_order-InOrder n (p, prev) reach at ((i, s) ∷ order) r f h =
    let (_, _, h₁) = bind-ok (guard (not (same s.span prev.span)) (both_rewrite p i)) _ h in
    let (_, e, h₂) = bind-ok (guard (leb reach s.span.start_byte) (crosses i at)) _ h₁ in
    let start = leb→le reach s.span.start_byte (guard-ok _ _ e) in
    let further : leb reach s.span.end_byte ≡ true = ground arith in
    (start, f.0, check_order-InOrder n (i, s) s.span.end_byte i order f.0.1 f.1 (rw further at h₂))

check_sorted-InOrder :
    (n : ℕ) (order : List (ℕ × Splice)) {u : Unit {0}}
    → All (λ p. Fits n p.1) order
    → check_sorted order ≡ ok u
    → InOrder 0 n order
check_sorted-InOrder n [] f h = omega arith
check_sorted-InOrder n ((i, s) ∷ order) f h =
    (omega arith, f.0, check_order-InOrder n (i, s) s.span.end_byte i order f.0.1 f.1 h)

-- The order that passed the checks is the sorted one, and its splices lie apart in the source.
pub validate_splices-InOrder :
    (src : Bytes) (splices : List Splice) (order : List (ℕ × Splice))
    → validate_splices src splices ≡ ok order
    → (length src < word)
      × (sort_by compare_splices (number_from 0 splices) ≡ order)
      × InOrder 0 (length src) order
unfolding validate_splices
validate_splices-InOrder src splices order h =
    let (_, g, h₁) = bind-ok (guard (ltb (length src) word) source_too_long) _ h in
    let (_, e, h₂) = bind-ok (check_each src 0 splices) _ h₁ in
    let sorted = sort_by compare_splices (number_from 0 splices) in
    let (_, c, h₃) = bind-ok (check_sorted sorted) _ h₂ in
    let fits =
      sort_by-All compare_splices (λ p. Fits (length src) p.1) (number_from 0 splices)
        (number_from-Fits (length src) 0 splices (check_each-Fits src 0 splices e)) in
    (
      ltb→lt _ _ (guard-ok _ _ g),
      ok_eq h₃,
      subst (InOrder 0 (length src)) (ok_eq h₃) (check_sorted-InOrder (length src) sorted fits c),
    )
