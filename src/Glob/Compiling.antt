-- ===== src/Glob/Compiling.antt =====
-- Which patterns `Compile` accepts.
use go_mutants.Prelude.{
  ℕ, ◌+◌, ◌≡◌, ◌↔◌, refl, ap, ◌∙◌, inl, inr, true, false, List, [], ◌∷◌, Bytes, ◌==◌, Bool-cases,
  any, arith, map, length, if◌then◌else◌,
}
use go_mutants.Prelude.Split.{split}
use go_mutants.Glob.{
  Pattern, ok, slash, is_empty, is_byte, first_byte, last_byte, classify, elements, empty_at,
  classify_all, compile,
}

split-leading :
    (s : Bytes) → is_byte slash (first_byte s) ≡ true → any is_empty (split slash s) ≡ true
unfolding split
split-leading [] h = cc
split-leading (c ∷ s) h = rw h

split-step :
    (c : ℕ) (s part : Bytes) (parts : List Bytes)
    → split slash s ≡ part ∷ parts
    → split slash (c ∷ s) ≡ (if c == slash then [] ∷ part ∷ parts else (c ∷ part) ∷ parts)
unfolding split
split-step c s part parts q = rw q refl

-- The part behind a last slash is empty and is not the first.
split-trailing :
    (c : ℕ) (s : Bytes)
    → is_byte slash (last_byte (c ∷ s)) ≡ true
    → (part : Bytes) × (parts : List Bytes) × (split slash (c ∷ s) ≡ part ∷ parts)
      × (any is_empty parts ≡ true)
split-trailing c [] h =
    ([], [] ∷ [], split-step c [] [] [] (unfold split in refl) ∙ rw h refl, refl)
split-trailing c (d ∷ s) h =
    let (part, parts, q, e) = split-trailing d s h in
    elim (Bool-cases (c == slash)) [
      | inl t ↦ ([], part ∷ parts, split-step c (d ∷ s) part parts q ∙ rw t refl, ground arith)
      | inr t ↦ (c ∷ part, parts, split-step c (d ∷ s) part parts q ∙ rw t refl, e)
    ]

classify_all-elements :
    (column : ℕ) (parts : List Bytes)
    → any is_empty parts ≡ false
    → classify_all column parts ≡ elements (map classify parts)
unfolding classify_all
classify_all-elements column [] h = refl
classify_all-elements column (part ∷ parts) h =
    ground (arith, classify_all-elements (column + (length part + 1)) parts)

classify_all-empty_at :
    (column : ℕ) (parts : List Bytes)
    → any is_empty parts ≡ true
    → (at : ℕ) × (classify_all column parts ≡ empty_at at)
unfolding classify_all
classify_all-empty_at column [] h = cc
classify_all-empty_at column (part ∷ parts) h = elim (Bool-cases (is_empty part)) [
  | inl e ↦ (column, rw e)
  | inr e ↦
      let (at, q) = classify_all-empty_at (column + (length part + 1)) parts (rw e at h) in
      (at, rw (e, q))
]

abbrev pub accepted : Bytes → Pattern
accepted pattern = record { source = pattern; elements = map classify (split slash pattern) }

any-trailing :
    (c : ℕ) (s : Bytes)
    → is_byte slash (last_byte (c ∷ s)) ≡ true
    → any is_empty (split slash (c ∷ s)) ≡ true
any-trailing c s h = let (part, parts, q, e) = split-trailing c s h in rw q (ground arith)

compile-accepted :
    (pattern : Bytes)
    → any is_empty (split slash pattern) ≡ false
    → compile pattern ≡ ok (accepted pattern)
unfolding compile
compile-accepted [] h = absurd (unfold split in cc)
compile-accepted (c ∷ s) h = elim (Bool-cases (c == slash)) [
  | inl e ↦ absurd (clash (split-leading (c ∷ s) e))
  | inr e ↦ rw e (elim (Bool-cases (is_byte slash (last_byte (c ∷ s)))) [
    | inl t ↦ absurd (clash (any-trailing c s t))
    | inr t ↦ rw t (rw (classify_all-elements 1 (split slash (c ∷ s)) h))
  ])
]
  where
    clash : any is_empty (split slash (c ∷ s)) ≡ true → ⊥
    clash k = cc

compile-refused :
    (pattern : Bytes) {p : Pattern}
    → any is_empty (split slash pattern) ≡ true
    → compile pattern ≡ ok p
    → ⊥
unfolding compile
compile-refused [] h = λ e. cc
compile-refused (c ∷ s) h = elim (Bool-cases (c == slash)) [
  | inl e ↦ rw e (λ k. cc)
  | inr e ↦ rw e (elim (Bool-cases (is_byte slash (last_byte (c ∷ s)))) [
    | inl t ↦ rw t (λ k. cc)
    | inr t ↦ let (at, q) = classify_all-empty_at 1 (split slash (c ∷ s)) h in rw (t, q) (λ k. cc)
  ])
]

-- A pattern compiles exactly if none of its parts between slashes is empty, and then to the kinds
-- of its parts in order: the checks for an empty pattern and for slashes at the ends refuse nothing
-- more.
pub compile_iff :
    (pattern : Bytes) (p : Pattern)
    → (compile pattern ≡ ok p)
      ↔ ((any is_empty (split slash pattern) ≡ false) × (accepted pattern ≡ p))
compile_iff pattern p = elim (Bool-cases (any is_empty (split slash pattern))) [
  | inl bad ↦ (λ e. absurd (compile-refused pattern bad e), λ h. absurd (cc))
  | inr good ↦ let e = compile-accepted pattern good in (λ k. (good, cc), λ h. e ∙ ap ok h.1)
]
