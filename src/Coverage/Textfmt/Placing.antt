-- ===== src/Coverage/Textfmt/Placing.antt =====
-- What holds of a coverage profile that could be parsed.
use go_mutants.Prelude.{
  some-inj, ℕ, suc, ◌≤◌, ◌≡◌, ◌≢◌, refl, Bool, true, false, not, Bool-cases, inl, inr, Option, none,
  some, List, [], ◌∷◌, ◌++◌, Bytes, codes, leb, ltb, leb→le, arith, All, All-append, ap, subst,
}
use go_mutants.Prelude.Checks.{ok, guard, bind-ok, guard-ok, ok_eq}
use go_mutants.Prelude.Fields.{
  is_empty, fields, trim_space, trim_right, cut, cut_last, atoi_natural,
}
use go_mutants.Coverage.{Block, Profile}
use go_mutants.Coverage.Textfmt.{
  ProfileError, no_comma, ends_early, bad_position, bad_line, bad_column, unreadable, empty_profile,
  or_fail, positive, parse_position, parse_count, separated, three_fields, parse_block, header_mode,
  parse_lines, parse_textfmt,
}

-- What every block of a parsed profile is.
pub record WellPlaced (b : Block) : Type 0 where
  pub named : b.file ≢ []
  pub lines : 1 ≤ b.start_line
  pub columns : (1 ≤ b.start_col) × (1 ≤ b.end_col)
  pub order : b.start_line ≤ b.end_line

or_fail-ok {ℓ} :
    {A : Type ℓ} (e : ProfileError) (o : Option A) {a : A} → or_fail e o ≡ ok a → o ≡ some a
or_fail-ok e none h = absurd (cc)
or_fail-ok e (some a) h = ap some (ok_eq h)

positive-lower : (o : Option ℕ) (n : ℕ) → positive o ≡ some n → 1 ≤ n
positive-lower none n h = absurd (cc)
positive-lower (some m) n h = elim (Bool-cases (ltb m 1)) [
  | inl e ↦ absurd (cc (rw e at h))
  | inr e ↦ subst (λ k. 1 ≤ k) (some-inj (rw e at h)) (ground (arith, e))
]

parse_position-lower :
    (number : ℕ) (position : Bytes) (line col : ℕ)
    → parse_position number position ≡ ok (line, col)
    → (1 ≤ line) × (1 ≤ col)
unfolding parse_position
parse_position-lower number position line col h =
    let ((text, column), _, h₁) =
      bind-ok (or_fail (bad_position number position) (cut (codes ".") position)) _ h in
    let (l, e, h₂) = bind-ok (or_fail (bad_line number text) (positive (atoi_natural text))) _ h₁ in
    let (c, f, h₃) =
      bind-ok (or_fail (bad_column number column) (positive (atoi_natural column))) _ h₂ in
    let same = ok_eq h₃ in
    (
      subst (λ k. 1 ≤ k) (ap (λ p. p.0) same)
          (positive-lower (atoi_natural text) l (or_fail-ok _ _ e)),
      subst (λ k. 1 ≤ k) (ap (λ p. p.1) same)
          (positive-lower (atoi_natural column) c (or_fail-ok _ _ f)),
    )

separated-named :
    (number : ℕ) (o : Option (Bytes × Bytes)) (file rest : Bytes)
    → separated number o ≡ ok (file, rest)
    → file ≢ []
separated-named number none file rest h = absurd (cc)
separated-named number (some ([], r)) file rest h = absurd (cc)
separated-named number (some (c ∷ f, [])) file rest h = absurd (cc)
separated-named number (some (c ∷ f, d ∷ r)) file rest h =
    λ e. absurd (cc (ap (λ p. p.0) (ok_eq h), e))

parse_block-WellPlaced :
    (number : ℕ) (line : Bytes) (b : Block) → parse_block number line ≡ ok b → WellPlaced b
unfolding parse_block
parse_block-WellPlaced number line b h =
    let ((file, rest), named, h₁) = bind-ok (separated number (cut_last b':' line)) _ h in
    let ((range, statements, executions), _, h₂) =
      bind-ok (three_fields number (fields rest)) _ h₁ in
    let ((start, end), _, h₃) = bind-ok (or_fail (no_comma number) (cut (codes ",") range)) _ h₂ in
    let ((start_line, start_col), s, h₄) = bind-ok (parse_position number start) _ h₃ in
    let ((end_line, end_col), e, h₅) = bind-ok (parse_position number end) _ h₄ in
    let (_, _, h₆) = bind-ok (parse_count number statements) _ h₅ in
    let (_, _, h₇) = bind-ok (parse_count number executions) _ h₆ in
    let (_, g, h₈) = bind-ok (guard (leb start_line end_line) (ends_early number)) _ h₇ in
    let first = parse_position-lower number start start_line start_col s in
    let last = parse_position-lower number end end_line end_col e in
    subst WellPlaced (ok_eq h₈) (record {
      named = separated-named number _ file rest named;
      lines = first.0;
      columns = (first.1, last.1);
      order = leb→le start_line end_line (guard-ok _ _ g);
    })

parse_lines-WellPlaced :
    (number : ℕ) (p : Profile) (lines : List Bytes) (q : Profile)
    → All WellPlaced p.blocks
    → parse_lines number p lines ≡ ok q
    → All WellPlaced q.blocks
unfolding parse_lines
parse_lines-WellPlaced number p [] q w h = subst (λ r. All WellPlaced r.blocks) (ok_eq h) w
parse_lines-WellPlaced number p (raw ∷ lines) q w h =
    let line = trim_right 13 raw in
    elim (Bool-cases (is_empty (trim_space line))) [
      | inl e ↦ parse_lines-WellPlaced (suc number) p lines q w (rw (e, parse_lines) at h)
      | inr e ↦ elim (Bool-cases (is_empty p.mode)) [
        | inl f ↦
            let (mode, _, h₁) =
              bind-ok (header_mode (suc number) line) _ (rw (e, f, parse_lines) at h) in
            parse_lines-WellPlaced (suc number) (record p { mode = mode }) lines q w h₁
        | inr f ↦
            let (b, parsed, h₁) =
              bind-ok (parse_block (suc number) line) _ (rw (e, f, parse_lines) at h) in
            parse_lines-WellPlaced (suc number) (record p { blocks = p.blocks ++ b ∷ [] }) lines q
              (All-append WellPlaced p.blocks (b ∷ []) w
                (parse_block-WellPlaced (suc number) line b parsed, tt))
              h₁
      ]
    ]

is_empty-false : (s : Bytes) → not (is_empty s) ≡ true → s ≢ []
is_empty-false [] h = absurd (cc)
is_empty-false (c ∷ s) h = λ e. absurd (cc)

-- A profile is only parsed if its scanner ended without an error. Then it has a mode, and every block
-- names a file, counts lines and columns from one, and does not end on a line before its first.
pub parse_textfmt-WellPlaced :
    (lines : List Bytes) (failed : Bool) (p : Profile)
    → parse_textfmt lines failed ≡ ok p
    → (failed ≡ false) × (p.mode ≢ []) × All WellPlaced p.blocks
unfolding parse_textfmt
parse_textfmt-WellPlaced lines failed p h =
    let (q, parsed, h₁) = bind-ok (parse_lines 0 (record { mode = []; blocks = [] }) lines) _ h in
    let (_, read, h₂) = bind-ok (guard (not failed) unreadable) _ h₁ in
    let (_, moded, h₃) = bind-ok (guard (not (is_empty q.mode)) empty_profile) _ h₂ in
    let same = ok_eq h₃ in
    (
      not_true failed (guard-ok _ _ read),
      subst (λ r. r.mode ≢ []) same (is_empty-false q.mode (guard-ok _ _ moded)),
      subst (λ r. All WellPlaced r.blocks) same (parse_lines-WellPlaced 0 _ lines q tt parsed),
    )
  where
    not_true : (b : Bool) → not b ≡ true → b ≡ false
    not_true true e = absurd (cc)
    not_true false e = refl
