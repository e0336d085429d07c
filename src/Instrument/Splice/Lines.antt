-- ===== src/Instrument/Splice/Lines.antt =====
-- Splices that keep their line feeds keep the lines of the file.
use go_mutants.Prelude.{
  ℕ, zero, suc, ◌+◌, ◌-◌, ◌≤◌, ◌≡◌, refl, sym, ap, ◌∙◌, subst, inl, inr, Bool, true, false, ◌&&◌,
  Bool-cases, List, [], ◌∷◌, ◌++◌, Bytes, length, take, drop, All, arith, ltb, ◌==◌, str_eq,
  str_eq→≡,
}
use go_mutants.Prelude.Checks.{ok, guard, bind-ok, guard-ok, ok_eq}
use go_mutants.Prelude.Sorting.{sort_by-All}
use go_mutants.Mutation.Span.{in_range}
use go_mutants.Instrument.Splice.{
  Splice, source_too_long, output_too_long, mismatch, word, Edit, OffsetMap, check_splice,
  check_each, number_from, compare_splices, validate_splices, total_replaced, total_covered,
  apply_from, apply, count_lines, line_preserving,
}
use go_mutants.Instrument.Splice.Order.{InOrder, validate_splices-InOrder}

-- The bytes of the source that the splice replaces.
abbrev covered : Bytes → Splice → Bytes
covered src s = take (s.span.end_byte - s.span.start_byte) (drop s.span.start_byte src)

abbrev Original : Bytes → Splice → Type 0
Original src s = covered src s ≡ s.original

check_splice-covered :
    (src : Bytes) (i : ℕ) (s : Splice) {u : Unit {0}}
    → check_splice src i s ≡ ok u
    → str_eq (covered src s) s.original ≡ true
unfolding check_splice in_range
check_splice-covered src i s h = elim (Bool-cases (ltb s.span.end_byte s.span.start_byte)) [
  | inl t ↦ absurd (cc (rw (t, check_splice) at h))
  | inr t ↦ elim (Bool-cases (ltb (length src) s.span.end_byte)) [
    | inl r ↦ absurd (cc (rw (t, r, check_splice, in_range) at h))
    | inr r ↦
        guard-ok (str_eq (covered src s) s.original) (mismatch i)
          (rw (t, r, check_splice, in_range) at h)
  ]
]

check_each-Original :
    (src : Bytes) (i : ℕ) (ss : List Splice) {u : Unit {0}}
    → check_each src i ss ≡ ok u
    → All (Original src) ss
unfolding check_each
check_each-Original src i [] h = tt
check_each-Original src i (s ∷ ss) h =
    let (_, e, h₁) = bind-ok (check_splice src i s) _ h in
    (
      str_eq→≡ (covered src s) s.original (check_splice-covered src i s e),
      check_each-Original src (suc i) ss h₁,
    )

-- The splice writes as many line feeds as it covers.
abbrev Keeps : Bytes → Splice → Type 0
Keeps src s = count_lines s.replacement ≡ count_lines (covered src s)

number_from-Keeps :
    (src : Bytes) (i : ℕ) (ss : List Splice)
    → All (Original src) ss
    → line_preserving ss ≡ true
    → All (λ p. Keeps src p.1) (number_from i ss)
unfolding line_preserving
number_from-Keeps src i [] o h = tt
number_from-Keeps src i (s ∷ ss) o h = (
  kept (count_lines s.original) (count_lines s.replacement) _ h ∙ sym (ap count_lines o.0),
  number_from-Keeps src (suc i) ss o.1 (rest _ _ h),
)
  where
    kept : (a b : ℕ) (t : Bool) → (a == b && t) ≡ true → b ≡ a
    kept a b t e = ground arith

    rest : (a t : Bool) → (a && t) ≡ true → t ≡ true
    rest true t e = e
    rest false t e = absurd (cc)

count_lines-append : (s t : Bytes) → count_lines (s ++ t) ≡ count_lines s + count_lines t
count_lines-append [] t = omega arith
count_lines-append (c ∷ s) t = omega (arith, count_lines-append s t)

count_lines-split :
    (n : ℕ) (s : Bytes) → count_lines (take n s) + count_lines (drop n s) ≡ count_lines s
count_lines-split zero s = omega arith
count_lines-split (suc n) [] = refl
count_lines-split (suc n) (c ∷ s) = omega (arith, count_lines-split n s)

drop-drop : (a b : ℕ) (s : Bytes) → a ≤ b → drop (b - a) (drop a s) ≡ drop b s
drop-drop zero b s h = ap (λ n. drop n s) (omega arith)
drop-drop (suc a) zero s h = absurd (omega arith)
drop-drop (suc a) (suc b) [] h = drop-nil (suc b - suc a)
  where
    drop-nil : (n : ℕ) → drop {A = ℕ} n [] ≡ []
    drop-nil zero = refl
    drop-nil (suc n) = refl
drop-drop (suc a) (suc b) (c ∷ s) h =
    ap (λ n. drop n (drop a s)) (omega arith) ∙ drop-drop a b s (omega arith)

count_lines-apply_from :
    (src : Bytes) (c : ℕ) (out : Bytes) (edits : List Edit) (order : List (ℕ × Splice))
    → InOrder c (length src) order
    → All (λ p. Keeps src p.1) order
    → count_lines (apply_from src c out edits order).0 ≡ count_lines out + count_lines (drop c src)
unfolding apply_from
count_lines-apply_from src c out edits [] h k = count_lines-append out (drop c src)
count_lines-apply_from src c out edits ((i, s) ∷ order) h k =
    let start = s.span.start_byte in
    let end = s.span.end_byte in
    let kept = out ++ take (start - c) (drop c src) in
    omega (
      arith,
      count_lines-apply_from src end (kept ++ s.replacement) _ order h.2 k.1,
      count_lines-append kept s.replacement,
      count_lines-append out (take (start - c) (drop c src)),
      count_lines-split (start - c) (drop c src),
      ap count_lines (drop-drop c start src h.0),
      count_lines-split (end - start) (drop start src),
      ap count_lines (drop-drop start end src h.1.0),
      k.0,
    )

-- If `LinePreserving` holds of splices that `Apply` accepts, the output has as many line feeds as the
-- source.
pub count_lines-apply :
    (src : Bytes) (splices : List Splice) (out : Bytes) (m : OffsetMap)
    → apply src splices ≡ ok (out, m)
    → line_preserving splices ≡ true
    → count_lines out ≡ count_lines src
unfolding apply validate_splices
count_lines-apply src splices out m h l =
    let (order, v, h₁) = bind-ok (validate_splices src splices) _ h in
    let (_, _, h₂) =
      bind-ok
        (guard (ltb (length src + total_replaced splices) (word + total_covered splices))
          output_too_long)
        _ h₁ in
    let (_, sorted, apart) = validate_splices-InOrder src splices order v in
    let (_, _, v₁) = bind-ok (guard (ltb (length src) word) source_too_long) _ v in
    let (_, each, _) = bind-ok (check_each src 0 splices) _ v₁ in
    let keeps =
      sort_by-All compare_splices (λ p. Keeps src p.1) (number_from 0 splices)
        (number_from-Keeps src 0 splices (check_each-Original src 0 splices each) l) in
    ap count_lines (sym (ap (λ r. r.0) (ok_eq h₂)))
    ∙ (count_lines-apply_from src 0 [] [] order apart
          (subst (All (λ p. Keeps src p.1)) sorted keeps)
        ∙ omega arith)
