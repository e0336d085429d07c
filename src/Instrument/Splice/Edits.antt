-- ===== src/Instrument/Splice/Edits.antt =====
-- The edits that `Apply` records, in order, with the offsets of source and output that they share.
use go_mutants.Prelude.{
  ℕ, suc, ◌+◌, ◌-◌, ◌≤◌, ◌<◌, ◌≡◌, sym, ap, ◌∙◌, subst, List, [], ◌∷◌, ◌++◌, append_assoc,
  append-nil, Bytes, length, take, drop, All, arith, length-append, ltb, length-take,
}
use go_mutants.Prelude.Checks.{ok, guard, bind-ok, ok_eq}
use go_mutants.Prelude.Sorting.{sort_by-All}
use go_mutants.Instrument.Splice.{
  Splice, output_too_long, word, Edit, OffsetMap, number_from, compare_splices, validate_splices,
  total_replaced, total_covered, apply_from, apply, uint32,
}
use go_mutants.Instrument.Splice.Order.{InOrder, validate_splices-InOrder}
use go_mutants.Instrument.Splice.Rewriting.{apply-Rewrites, length-drop}

-- The edits follow one another from the offsets `a` and `b` of source and output on, to their ends
-- `n` and `l`, and what stands between two edits is as long on both sides.
abbrev pub Chain : ℕ → ℕ → List Edit → ℕ → ℕ → Type 0
Chain a b [] n l = (a ≤ n) × (n + b ≡ l + a)
Chain a b (e ∷ es) n l =
    (a ≤ e.orig_start)
    × (e.out_start + a ≡ b + e.orig_start)
    × (e.orig_start ≤ e.orig_end)
    × (e.out_start ≤ e.out_end)
    × Chain e.orig_end e.out_end es n l

pub Chain-ends : (a b : ℕ) (es : List Edit) (n l : ℕ) → Chain a b es n l → (a ≤ n) × (b ≤ l)
Chain-ends a b [] n l c = omega (arith, c)
Chain-ends a b (e ∷ es) n l c =
    omega (arith, c.0, c.1, c.2, c.3, Chain-ends e.orig_end e.out_end es n l c.4)

-- The edit writes something.
abbrev pub Writes : Edit → Type 0
Writes e = e.out_start < e.out_end

-- Every splice writes something.
abbrev Fills : ℕ × Splice → Type 0
Fills p = 0 < length p.1.replacement

apply_from-Chain :
    (src : Bytes) (c : ℕ) (out : Bytes) (edits : List Edit) (order : List (ℕ × Splice))
    → InOrder c (length src) order
    → length (apply_from src c out edits order).0 < word
    → (es : List Edit) × ((apply_from src c out edits order).1 ≡ edits ++ es)
      × Chain c (length out) es (length src) (length (apply_from src c out edits order).0)
      × (All Fills order → All Writes es)
unfolding apply_from
apply_from-Chain src c out edits [] h f = (
  [],
  sym (append-nil edits),
  (h, omega (arith, length-append out (drop c src), length-drop c src h)),
  λ _. tt,
)
apply_from-Chain src c out edits ((i, s) ∷ order) h f =
    let start = s.span.start_byte in
    let kept = out ++ take (start - c) (drop c src) in
    let written = kept ++ s.replacement in
    let edit : Edit = record {
      orig_start = start;
      orig_end = s.span.end_byte;
      out_start = uint32 (length kept);
      out_end = uint32 (length written);
    } in
    let final = (apply_from src s.span.end_byte written (edits ++ edit ∷ []) order).0 in
    let (es, same, chain, writes) =
      apply_from-Chain src s.span.end_byte written (edits ++ edit ∷ []) order h.2 f in
    let before : length kept + c ≡ length out + start = omega (
      arith,
      h.0,
      h.1,
      length-append out (take (start - c) (drop c src)),
      length-drop c src (omega (arith, h.0, h.1)),
      length-take (start - c) (drop c src)
          (omega (arith, h.0, h.1, length-drop c src (omega (arith, h.0, h.1)))),
    ) in
    let more : length written ≡ length kept + length s.replacement =
      length-append kept s.replacement in
    let room = Chain-ends s.span.end_byte (length written) es (length src) (length final) chain in
    let at_start : uint32 (length kept) ≡ length kept = omega (arith, more, room, f) in
    let at_end : uint32 (length written) ≡ length written = omega (arith, room, f) in
    (
      edit ∷ es,
      same ∙ append_assoc edits (edit ∷ []) es,
      (
        h.0,
        omega (arith, before, at_start),
        h.1.0,
        omega (arith, more, at_start, at_end),
        subst (λ b. Chain s.span.end_byte b es (length src) (length final)) (sym at_end) chain,
      ),
      λ fills. (omega (arith, more, at_start, at_end, fills.0), writes fills.1),
    )

number_from-Fills :
    (i : ℕ) (ss : List Splice)
    → All (λ s. 0 < length s.replacement) ss
    → All Fills (number_from i ss)
number_from-Fills i [] h = tt
number_from-Fills i (s ∷ ss) h = (h.0, number_from-Fills (suc i) ss h.1)

pub apply-Chain :
    (src : Bytes) (splices : List Splice) (out : Bytes) (m : OffsetMap)
    → apply src splices ≡ ok (out, m)
    → Chain 0 0 m.edits m.src_len m.out_len
      × (All (λ s. 0 < length s.replacement) splices → All Writes m.edits)
unfolding apply
apply-Chain src splices out m h =
    let (order, v, h₁) = bind-ok (validate_splices src splices) _ h in
    let (_, _, h₂) =
      bind-ok
        (guard (ltb (length src + total_replaced splices) (word + total_covered splices))
          output_too_long)
        _ h₁ in
    let (_, sorted, apart) = validate_splices-InOrder src splices order v in
    let r = apply-Rewrites src splices out m h in
    let same = ok_eq h₂ in
    let size : length (apply_from src 0 [] [] order).0 ≡ m.out_len =
      ap (λ r. length r.0) same ∙ sym r.lengths.1 in
    let (es, edits, chain, writes) =
      apply_from-Chain src 0 [] [] order apart (omega (arith, size, r.lengths.1, r.fits)) in
    let found : es ≡ m.edits = sym edits ∙ ap (λ r. r.1.edits) same in
    (
      subst (λ e. Chain 0 0 e m.src_len m.out_len) found
          (subst (λ n. Chain 0 0 es n m.out_len) (sym r.lengths.0)
            (subst (Chain 0 0 es (length src)) size chain)),
      λ fills. subst (All Writes) found (
          writes (
            subst (All Fills) sorted (
              sort_by-All compare_splices Fills (number_from 0 splices)
                (number_from-Fills 0 splices fills)))),
    )
