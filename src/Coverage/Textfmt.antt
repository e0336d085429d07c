-- ===== src/Coverage/Textfmt.antt =====
-- internal/coverage/textfmt.go: parsing a coverage profile. The scanner of the standard library is
-- given by the lines that it yields and by whether it ended with an error.
use go_mutants.Prelude.{
  some-inj, ℕ, suc, ◌+◌, ◌≤◌, ◌≡◌, ◌≢◌, refl, Bool, true, false, not, Bool-cases, inl, inr, ◌&&◌,
  ◌||◌, Option, none, some, Option-cases, List, [], ◌∷◌, ◌++◌, Bytes, codes, leb, ltb, leb→le,
  if◌then◌else◌, arith, All, All-append, ap, sym, ◌∙◌, subst,
}
use go_mutants.Prelude.Checks.{Checks, ok, err, ◌>>=◌, ◌>>◌, guard, bind-ok, guard-ok, ok_eq}
use go_mutants.Prelude.Fields.{
  is_empty, fields, trim_space, trim_right, cut, cut_last, cut_prefix, atoi_natural,
}
use go_mutants.Coverage.{Block, Profile}
pub mod Placing

-- The number of a line comes with each error about one.
pub data ProfileError : Type 0 where
  no_header no_separator field_count no_comma ends_early : ℕ → ProfileError
  bad_position bad_line bad_column bad_count : ℕ → Bytes → ProfileError
  empty_profile unreadable : ProfileError

abbrev or_fail {ℓ} : {A : Type ℓ} → ProfileError → Option A → Checks ProfileError A
or_fail e none = err e
or_fail e (some a) = ok a

-- A number that is at least one.
abbrev positive : Option ℕ → Option ℕ
positive none = none
positive (some n) = if ltb n 1 then none else some n

pub parse_position : ℕ → Bytes → Checks ProfileError (ℕ × ℕ)
unfolding atoi_natural
parse_position number position = do
  (text, column) ← or_fail (bad_position number position) (cut (codes ".") position)
  line ← or_fail (bad_line number text) (positive (atoi_natural text))
  col ← or_fail (bad_column number column) (positive (atoi_natural column))
  ok (line, col)

abbrev parse_count : ℕ → Bytes → Checks ProfileError ℕ
parse_count number text = or_fail (bad_count number text) (atoi_natural text)

-- `colon <= 0 || colon == len(line)-1`
abbrev separated : ℕ → Option (Bytes × Bytes) → Checks ProfileError (Bytes × Bytes)
separated number none = err (no_separator number)
separated number (some (file, rest)) =
    if is_empty file || is_empty rest then err (no_separator number) else ok (file, rest)

abbrev three_fields : ℕ → List Bytes → Checks ProfileError (Bytes × Bytes × Bytes)
three_fields number (a ∷ b ∷ c ∷ []) = ok (a, b, c)
three_fields number _ = err (field_count number)

pub parse_block : ℕ → Bytes → Checks ProfileError Block
unfolding parse_position cut_last fields cut
parse_block number line = do
  (file, rest) ← separated number (cut_last b':' line)
  (range, statements, executions) ← three_fields number (fields rest)
  (start, end) ← or_fail (no_comma number) (cut (codes ",") range)
  (start_line, start_col) ← parse_position number start
  (end_line, end_col) ← parse_position number end
  num_stmt ← parse_count number statements
  count ← parse_count number executions
  guard (leb start_line end_line) (ends_early number)
  ok (record {
    file = file;
    start_line = start_line;
    start_col = start_col;
    end_line = end_line;
    end_col = end_col;
    num_stmt = num_stmt;
    count = count;
  })

-- The mode of a header line, which is not empty.
abbrev header_mode : ℕ → Bytes → Checks ProfileError Bytes
header_mode number line = elim (cut_prefix (codes "mode: ") line) [
  | none ↦ err (no_header number)
  | some mode ↦ if is_empty (trim_space mode) then err (no_header number) else ok (trim_space mode)
]

-- The loop over the lines, from the number of the one before and with the profile so far.
pub parse_lines : ℕ → Profile → List Bytes → Checks ProfileError Profile
unfolding parse_block trim_right trim_space
parse_lines number p [] = ok p
parse_lines number p (raw ∷ lines) =
    let line = trim_right 13 raw in
    elim (is_empty (trim_space line)) [
      | true ↦ parse_lines (suc number) p lines
      | false ↦ elim (is_empty p.mode) [
        | true ↦ header_mode (suc number) line >>= λ mode.
            parse_lines (suc number) (record p { mode = mode }) lines
        | false ↦ parse_block (suc number) line >>= λ b.
            parse_lines (suc number) (record p { blocks = p.blocks ++ b ∷ [] }) lines
      ]
    ]

unfoldable pub parse_textfmt : List Bytes → Bool → Checks ProfileError Profile
unfolding parse_lines
parse_textfmt lines failed = do
  p ← parse_lines 0 (record { mode = []; blocks = [] }) lines
  guard (not failed) unreadable
  guard (not (is_empty p.mode)) empty_profile
  ok p
