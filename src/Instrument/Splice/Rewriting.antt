-- ===== src/Instrument/Splice/Rewriting.antt =====
-- `Apply` writes what replacing the spans one by one, from the last to the first, would give.
use go_mutants.Prelude.{
  ℕ, zero, suc, ◌+◌, ◌-◌, ◌≤◌, ◌<◌, ◌≡◌, refl, sym, ap, ◌∙◌, List, [], ◌∷◌, ◌++◌, append_assoc,
  Bytes, length, take, drop, arith, length-append, ltb, ltb→lt, length-take,
}
use go_mutants.Prelude.Checks.{ok, guard, bind-ok, guard-ok, ok_eq}
use go_mutants.Prelude.Sorting.{sort_by, sort_by-total, total_by}
use go_mutants.Mutation.Span.{len}
use go_mutants.Instrument.Splice.{
  Splice, output_too_long, word, Edit, OffsetMap, number_from, compare_splices, validate_splices,
  total_replaced, total_covered, apply_from, apply, uint32,
}
use go_mutants.Instrument.Splice.Order.{InOrder, validate_splices-InOrder}

-- One splice, written into a text.
abbrev pub replace_one : Splice → Bytes → Bytes
replace_one s text = take s.span.start_byte text ++ (s.replacement ++ drop s.span.end_byte text)

-- The last splice first, so that the spans of those before it stay where they are.
abbrev pub rewrite : List (ℕ × Splice) → Bytes → Bytes
rewrite [] text = text
rewrite ((i, s) ∷ order) text = replace_one s (rewrite order text)

module _ {ℓ} {A : Type ℓ} where
  pub take-append_le : (n : ℕ) (xs ys : List A) → n ≤ length xs → take n (xs ++ ys) ≡ take n xs
  take-append_le zero xs ys h = refl
  take-append_le (suc n) [] ys h = absurd (omega arith)
  take-append_le (suc n) (x ∷ xs) ys h = ap (λ l. x ∷ l) (take-append_le n xs ys (omega arith))

  take-take : (n m : ℕ) (xs : List A) → n ≤ m → take n (take m xs) ≡ take n xs
  take-take zero m xs h = refl
  take-take (suc n) zero xs h = absurd (omega arith)
  take-take (suc n) (suc m) [] h = refl
  take-take (suc n) (suc m) (x ∷ xs) h = ap (λ l. x ∷ l) (take-take n m xs (omega arith))

  pub drop-append_le :
      (n : ℕ) (xs ys : List A) → n ≤ length xs → drop n (xs ++ ys) ≡ drop n xs ++ ys
  drop-append_le zero xs ys h = refl
  drop-append_le (suc n) [] ys h = absurd (omega arith)
  drop-append_le (suc n) (x ∷ xs) ys h = drop-append_le n xs ys (omega arith)

  take-nil : (n : ℕ) → take {A = A} n [] ≡ []
  take-nil zero = refl
  take-nil (suc n) = refl

  drop-take : (c n : ℕ) (xs : List A) → c ≤ n → drop c (take n xs) ≡ take (n - c) (drop c xs)
  drop-take zero n xs h = ap (λ k. take k xs) (omega arith)
  drop-take (suc c) zero xs h = absurd (omega arith)
  drop-take (suc c) (suc n) [] h = sym (take-nil (suc n - suc c))
  drop-take (suc c) (suc n) (x ∷ xs) h =
      drop-take c n xs (omega arith) ∙ ap (λ k. take k (drop c xs)) (omega arith)

pub length-drop : (c : ℕ) (xs : Bytes) → c ≤ length xs → length (drop c xs) + c ≡ length xs
length-drop zero xs h = omega arith
length-drop (suc c) [] h = absurd (omega arith)
length-drop (suc c) (x ∷ xs) h = omega (arith, length-drop c xs)

length-rewrite :
    (c : ℕ) (order : List (ℕ × Splice)) (src : Bytes)
    → InOrder c (length src) order
    → c ≤ length (rewrite order src)
length-rewrite c [] src h = h
length-rewrite c ((i, s) ∷ order) src h =
    let rest = rewrite order src in
    let long : s.span.end_byte ≤ length rest = length-rewrite s.span.end_byte order src h.2 in
    omega (
      arith,
      h.0,
      h.1,
      length-append (take s.span.start_byte rest) (s.replacement ++ drop s.span.end_byte rest),
      length-take s.span.start_byte rest (omega (arith, h.1, long)),
    )

take_shorter : (a b : ℕ) (xs ys : Bytes) → a ≤ b → take b xs ≡ take b ys → take a xs ≡ take a ys
take_shorter a b xs ys h e = sym (take-take a b xs h) ∙ (ap (take a) e ∙ take-take a b ys h)

-- In front of the first splice nothing is rewritten.
rewrite-take :
    (c : ℕ) (order : List (ℕ × Splice)) (src : Bytes)
    → InOrder c (length src) order
    → take c (rewrite order src) ≡ take c src
rewrite-take c [] src h = refl
rewrite-take c ((i, s) ∷ order) src h =
    let start = s.span.start_byte in
    let rest = rewrite order src in
    let long : start ≤ length rest =
      omega (arith, h.1, length-rewrite s.span.end_byte order src h.2) in
    take-append_le c (take start rest) (s.replacement ++ drop s.span.end_byte rest)
      (omega (arith, h.0, length-take start rest long))
    ∙ (take-take c start rest h.0
        ∙ take_shorter c s.span.end_byte rest src (omega (arith, h.0, h.1))
            (rewrite-take s.span.end_byte order src h.2))

pub apply_from-rewrite :
    (src : Bytes) (c : ℕ) (out : Bytes) (edits : List Edit) (order : List (ℕ × Splice))
    → InOrder c (length src) order
    → (apply_from src c out edits order).0 ≡ out ++ drop c (rewrite order src)
unfolding apply_from
apply_from-rewrite src c out edits [] h = refl
apply_from-rewrite src c out edits ((i, s) ∷ order) h =
    let start = s.span.start_byte in
    let rest = rewrite order src in
    let kept = take (start - c) (drop c src) in
    let tail = s.replacement ++ drop s.span.end_byte rest in
    let long : start ≤ length rest =
      omega (arith, h.1, length-rewrite s.span.end_byte order src h.2) in
    let front : drop c (take start rest) ≡ kept =
      ap (drop c) (
        take_shorter start s.span.end_byte rest src h.1.0
          (rewrite-take s.span.end_byte order src h.2))
      ∙ drop-take c start src h.0 in
    let all : drop c (take start rest ++ tail) ≡ kept ++ tail =
      drop-append_le c (take start rest) tail (omega (arith, h.0, length-take start rest long))
      ∙ ap (λ l. l ++ tail) front in
    apply_from-rewrite src s.span.end_byte ((out ++ kept) ++ s.replacement) _ order h.2
    ∙ (append_assoc (out ++ kept) s.replacement (drop s.span.end_byte rest)
        ∙ (append_assoc out kept tail ∙ ap (λ l. out ++ l) (sym all)))

len_of_span :
    (s : Splice)
    → s.span.start_byte ≤ s.span.end_byte
    → len s.span + s.span.start_byte ≡ s.span.end_byte
unfolding len
len_of_span s h = ground arith

length-apply_from :
    (src : Bytes) (c : ℕ) (out : Bytes) (edits : List Edit) (order : List (ℕ × Splice))
    → InOrder c (length src) order
    → length (apply_from src c out edits order).0 + (c + total_by (λ p. len p.1.span) order)
      ≡ length out + (length src + total_by (λ p. length p.1.replacement) order)
unfolding apply_from
length-apply_from src c out edits [] h =
    omega (arith, length-append out (drop c src), length-drop c src h)
length-apply_from src c out edits ((i, s) ∷ order) h =
    let start = s.span.start_byte in
    let kept = take (start - c) (drop c src) in
    let reached = length-drop c src (omega (arith, h.0, h.1)) in
    let exactly : len s.span + start ≡ s.span.end_byte = len_of_span s (h.1.0) in
    omega (
      arith,
      exactly,
      h.0,
      h.1.0,
      h.1.1,
      reached,
      length-append out kept,
      length-append (out ++ kept) s.replacement,
      length-take (start - c) (drop c src) (omega (arith, h.0, h.1, reached)),
      length-apply_from src s.span.end_byte ((out ++ kept) ++ s.replacement) _ order h.2,
    )

total_replaced-number_from :
    (i : ℕ) (ss : List Splice)
    → total_by (λ p. length p.1.replacement) (number_from i ss) ≡ total_replaced ss
total_replaced-number_from i [] = refl
total_replaced-number_from i (s ∷ ss) = omega (arith, total_replaced-number_from (suc i) ss)

total_covered-number_from :
    (i : ℕ) (ss : List Splice) → total_by (λ p. len p.1.span) (number_from i ss) ≡ total_covered ss
total_covered-number_from i [] = refl
total_covered-number_from i (s ∷ ss) = omega (arith, total_covered-number_from (suc i) ss)

pub record Rewrites (src : Bytes) (splices : List Splice) (out : Bytes) (m : OffsetMap)
    : Type 0 where
  pub text : out ≡ rewrite (sort_by compare_splices (number_from 0 splices)) src
  pub size : length out + total_covered splices ≡ length src + total_replaced splices
  pub lengths : (m.src_len ≡ length src) × (m.out_len ≡ length out)
  pub small : length src < word
  pub fits : length out < word

-- What `Apply` returns is the source with the spans replaced one by one, the last first; it has the
-- bytes of the source less those covered and with those written; both have fewer than 2 ^ 32 bytes; and
-- the offset map has their lengths, not wrapped.
pub apply-Rewrites :
    (src : Bytes) (splices : List Splice) (out : Bytes) (m : OffsetMap)
    → apply src splices ≡ ok (out, m)
    → Rewrites src splices out m
unfolding apply
apply-Rewrites src splices out m h =
    let (order, v, h₁) = bind-ok (validate_splices src splices) _ h in
    let (_, g, h₂) =
      bind-ok
        (guard (ltb (length src + total_replaced splices) (word + total_covered splices))
          output_too_long)
        _ h₁ in
    let (small, sorted, apart) = validate_splices-InOrder src splices order v in
    let result = apply_from src 0 [] [] order in
    let same = ok_eq h₂ in
    let text : out ≡ result.0 = sym (ap (λ r. r.0) same) in
    let bytes = length-apply_from src 0 [] [] order apart in
    let covered : total_by (λ p. len p.1.span) order ≡ total_covered splices =
      ap (total_by (λ p. len p.1.span)) (sym sorted)
      ∙ (sort_by-total compare_splices (λ p. len p.1.span) (number_from 0 splices)
          ∙ total_covered-number_from 0 splices) in
    let replaced : total_by (λ p. length p.1.replacement) order ≡ total_replaced splices =
      ap (total_by (λ p. length p.1.replacement)) (sym sorted)
      ∙ (sort_by-total compare_splices (λ p. length p.1.replacement) (number_from 0 splices)
          ∙ total_replaced-number_from 0 splices) in
    let size : length out + total_covered splices ≡ length src + total_replaced splices =
      omega (arith, ap length text, bytes, covered, replaced) in
    let fits : length out < word = omega (arith, size, ltb→lt _ _ (guard-ok _ _ g)) in
    record {
      text =
          text
          ∙ (apply_from-rewrite src 0 [] [] order apart ∙ ap (λ l. rewrite l src) (sym sorted));
      size = size;
      lengths = (
        sym (ap (λ r. r.1.src_len) same) ∙ omega (arith, small),
        sym (ap (λ r. r.1.out_len) same)
            ∙ (ap (λ l. uint32 (length l)) (sym text) ∙ omega (arith, fits)),
      );
      small = small;
      fits = fits;
    }
