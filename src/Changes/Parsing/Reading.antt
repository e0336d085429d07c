-- ===== src/Changes/Parsing/Reading.antt =====
-- What holds of the files that `parseDiff` returns.
use go_mutants.Prelude.{
  ℕ, ◌≤◌, ◌≡◌, ◌≢◌, true, false, not, Bool-cases, inl, inr, ◌&&◌, ◌||◌, List, [], ◌∷◌, Bytes, codes,
  ltb, leb, str_eq, arith, All, All-append, ap, subst,
}
use go_mutants.Prelude.Checks.{ok, guard, bind-ok, guard-ok, ok_eq}
use go_mutants.Prelude.Fields.{is_empty, fields, trim_right, cut, trim_prefix, atoi_natural}
use go_mutants.Prelude.Maps.{Map, get_list}
use go_mutants.Prelude.Split.{split}
use go_mutants.Prelude.Text.{has_prefix}
use go_mutants.Prelude.Ints.{pos, wrapped}
use go_mutants.Changes.Signed.{IntRange, ApartInts, Counted, merge_ints-Apart}
use go_mutants.Changes.Parsing.{
  malformed_hunk, or_malformed, spec_parts, count_of, plus_field, hunk_lines, target_path, Loop,
  add_hunk, read_line, read_lines, merge_files, parse_diff,
}

wrapped-pos : (n l : ℕ) → wrapped n ≡ pos l → n ≡ l
unfolding wrapped
wrapped-pos n l e = ground arith

least_line :
    (f c first count : ℕ)
    → (ltb c 1 || leb 1 f) ≡ true
    → f ≡ first
    → c ≡ count
    → 1 ≤ count
    → 1 ≤ first
least_line f c first count test e g h = ground arith

-- A hunk that adds lines.
hunk_lines-first :
    (line : Bytes) (first count : ℕ) → hunk_lines line ≡ ok (first, count) → 1 ≤ count → 1 ≤ first
unfolding hunk_lines
hunk_lines-first line first count h some_line =
    let ((ranges, rest), _, h₁) =
      bind-ok (or_malformed line (cut (codes " @@") (trim_prefix (codes "@@ ") line))) _ h in
    let spec = plus_field (fields ranges) in
    let (_, _, h₂) = bind-ok (guard (not (is_empty spec)) (malformed_hunk line)) _ h₁ in
    let (f, _, h₃) = bind-ok (or_malformed line (atoi_natural (spec_parts spec).0)) _ h₂ in
    let (c, _, h₄) = bind-ok (count_of line (spec_parts spec).1) _ h₃ in
    let (_, g, h₅) = bind-ok (guard (ltb c 1 || leb 1 f) (malformed_hunk line)) _ h₄ in
    let test : (ltb c 1 || leb 1 f) ≡ true = guard-ok _ _ g in
    let one : f ≡ first = ap (λ p. p.0) (ok_eq h₅) in
    let two : c ≡ count = ap (λ p. p.1) (ok_eq h₅) in
    least_line f c first count test one two some_line

-- The entry has a path, and its ranges count lines.
abbrev Entry : Bytes × List IntRange → Type 0
Entry e = (is_empty e.0 ≡ false) × All Counted e.1

get_list-Counted :
    (path : Bytes) (files : Map (List IntRange))
    → All Entry files
    → All Counted (get_list path files)
get_list-Counted path [] h = tt
get_list-Counted path ((p, ranges) ∷ files) h = elim (Bool-cases (str_eq p path)) [
  | inl e ↦ rw (e, get_list) h.0.1
  | inr e ↦ rw (e, get_list) (get_list-Counted path files h.1)
]

add_hunk-Entry :
    (r : Loop) (first count : ℕ)
    → (1 ≤ count → 1 ≤ first)
    → All Entry r.files
    → All Entry (add_hunk r (first, count)).files
add_hunk-Entry r first count low h = elim (Bool-cases (is_empty r.path)) [
  | inl e ↦ rw (e, add_hunk) h
  | inr e ↦ elim (Bool-cases (ltb count 1)) [
    | inl f ↦ rw (e, f, add_hunk) h
    | inr f ↦
        let least : 1 ≤ count = ground (arith, f) in
        let one = low least in
        rw (e, f, add_hunk)
          (
            (
              e,
              All-append Counted (get_list r.path r.files) _ (get_list-Counted r.path r.files h) (
                record {
                  from_one = one;
                  not_empty = λ l e. omega (arith, one, least, wrapped-pos _ l e);
                },
                tt,
              ),
            ),
            h,
          )
  ]
]

read_line-Entry :
    (prefix : Bytes) (r : Loop) (raw : Bytes) (r' : Loop)
    → All Entry r.files
    → read_line prefix r raw ≡ ok r'
    → All Entry r'.files
unfolding read_line
read_line-Entry prefix r raw r' h e =
    let line = trim_right 13 raw in
    elim (Bool-cases (has_prefix (codes "diff --git ") line)) [
      | inl a ↦ subst (λ s. All Entry s.files) (ok_eq (rw (a, read_line) at e)) h
      | inr a ↦ elim (Bool-cases (not r.in_hunks && has_prefix (codes "+++ ") line)) [
        | inl b ↦
            let (name, _, f) = bind-ok (target_path line) _ (rw (a, b, read_line) at e) in
            subst (λ s. All Entry s.files) (ok_eq f) h
        | inr b ↦ elim (Bool-cases (has_prefix (codes "@@ ") line)) [
          | inl c ↦
              let ((first, count), found, f) =
                bind-ok (hunk_lines line) _ (rw (a, b, c, read_line) at e) in
              subst (λ s. All Entry s.files) (ok_eq f)
                (add_hunk-Entry r first count (hunk_lines-first line first count found) h)
          | inr c ↦ subst (λ s. All Entry s.files) (ok_eq (rw (a, b, c, read_line) at e)) h
        ]
      ]
    ]

read_lines-Entry :
    (prefix : Bytes) (r : Loop) (lines : List Bytes) (r' : Loop)
    → All Entry r.files
    → read_lines prefix r lines ≡ ok r'
    → All Entry r'.files
unfolding read_lines
read_lines-Entry prefix r [] r' h e = subst (λ s. All Entry s.files) (ok_eq e) h
read_lines-Entry prefix r (raw ∷ lines) r' h e =
    let (s, read, f) = bind-ok (read_line prefix r raw) _ e in
    read_lines-Entry prefix s lines r' (read_line-Entry prefix r raw s h read) f

-- A file with its merged ranges.
abbrev pub Clean : Bytes × List IntRange → Type 0
Clean e = (e.0 ≢ []) × ApartInts e.1 × All Counted e.1

not_empty : (s : Bytes) → is_empty s ≡ false → s ≢ []
not_empty [] h = absurd (cc)
not_empty (c ∷ s) h = λ e. absurd (cc)

merge_files-Clean : (files : Map (List IntRange)) → All Entry files → All Clean (merge_files files)
merge_files-Clean [] h = tt
merge_files-Clean ((path, ranges) ∷ files) h = (
  (not_empty path h.0.0, (merge_ints-Apart ranges h.0.1).0, (merge_ints-Apart ranges h.0.1).1),
  merge_files-Clean files h.1,
)

-- Every file that `parseDiff` returns has a path, and its ranges are in the order of their first lines,
-- which count from one. A range whose last line is not negative, as it is where the sum of a hunk
-- wraps, is not empty, and at least one line lies between it and every range behind it.
pub parse_diff-Clean :
    (out prefix : Bytes) (files : Map (List IntRange))
    → parse_diff out prefix ≡ ok files
    → All Clean files
unfolding parse_diff
parse_diff-Clean out prefix files h =
    let start : Loop = record { files = []; path = []; in_hunks = false } in
    let (r, read, h₁) = bind-ok (read_lines prefix start (split 10 out)) _ h in
    subst (All Clean) (ok_eq h₁)
      (merge_files-Clean r.files (read_lines-Entry prefix start (split 10 out) r tt read))
