-- ===== src/Changes/Parsing.antt =====
-- internal/gitdiff/parse.go: the changed lines that a unified diff names. The last line of a hunk is
-- an int of 64 bits, which wraps.
use go_mutants.Prelude.{
  ℕ, zero, suc, ◌+◌, ◌-◌, ◌≤◌, ◌≡◌, ◌≢◌, refl, Bool, true, false, not, Bool-cases, inl, inr, ◌&&◌,
  ◌||◌, Option, none, some, Option-cases, List, [], ◌∷◌, ◌++◌, Bytes, codes, ltb, leb, str_eq,
  if◌then◌else◌, arith, All, All-append, ap, sym, ◌∙◌, subst, length, take, drop, get_elem?,
  some-inj, ◌==◌,
}
use go_mutants.Prelude.Checks.{Checks, ok, err, ◌>>=◌, ◌>>◌, guard, bind-ok, guard-ok, ok_eq}
use go_mutants.Prelude.Fields.{
  is_empty, fields, trim_right, cut, cut_prefix, trim_prefix, atoi_natural, parse_octal_byte,
}
use go_mutants.Prelude.Maps.{Map, get, put, get_list}
use go_mutants.Prelude.Split.{split}
use go_mutants.Prelude.Text.{has_prefix}
use go_mutants.Prelude.Ints.{wrapped}
use go_mutants.Changes.Signed.{IntRange, merge_ints}
pub mod Reading

pub data DiffError : Type 0 where
  no_destination malformed_hunk : Bytes → DiffError

-- The letter after a backslash that stands for a control character.
abbrev control : ℕ → Option ℕ
control c =
    if c == b'a'
    then some 7
    else if c == b'b'
    then some 8
    else if c == b'f'
    then some 12
    else if c == b'n'
    then some 10
    else if c == b'r'
    then some 13
    else if c == b't'
    then some 9
    else if c == b'v'
    then some 11
    else none

abbrev is_octal : ℕ → Bool
is_octal c = leb 48 c && leb c 55

abbrev octal : Bytes → Option ℕ
octal s = elim s [ c ∷ d ∷ e ∷ r ↦ parse_octal_byte (c ∷ d ∷ e ∷ []) | _ ↦ none ]

-- What a backslash and the text after it stand for: a byte, and how many bytes past the next one it
-- takes.
abbrev escaped : ℕ → Bytes → ℕ × ℕ
escaped c s = elim (control c) [
  | some d ↦ (d, 0)
  | none ↦ if is_octal c then (elim (octal (c ∷ s)) [ some v ↦ (v, 2) | none ↦ (c, 0) ]) else (c, 0)
]

-- The loop of `unquote`, with the bytes to pass over.
unquote_from : ℕ → Bytes → Bytes
unfolding parse_octal_byte
unquote_from skip [] = []
unquote_from (suc skip) (c ∷ s) = unquote_from skip s
unquote_from zero (c ∷ []) = c ∷ []
unquote_from zero (c ∷ d ∷ s) = elim (c == 92) [
  | false ↦ c ∷ unquote_from zero (d ∷ s)
  | true ↦ (escaped d s).0 ∷ unquote_from (suc (escaped d s).1) (d ∷ s)
]

abbrev ends_with_quote : Bytes → Bool
ends_with_quote s = elim (get_elem? s (length s - 1)) [ none ↦ false | some c ↦ c == 34 ]

pub unquote : Bytes → Bytes
unfolding unquote_from
unquote path =
    if ltb (length path) 2 || (not (has_prefix (34 ∷ []) path) || not (ends_with_quote path))
    then path
    else unquote_from 0 (take (length path - 2) (drop 1 path))

abbrev target_path : Bytes → Checks DiffError Bytes
target_path line =
    let name = trim_prefix (codes "+++ ") line in
    if str_eq name (codes "/dev/null")
    then ok []
    else if has_prefix (codes "b/") name
    then ok (unquote (trim_prefix (codes "b/") name))
    else err (no_destination line)

-- The first field that begins with a plus, without it.
abbrev plus_field : List Bytes → Bytes
plus_field [] = []
plus_field (f ∷ fs) = elim (cut_prefix (codes "+") f) [ some spec ↦ spec | none ↦ plus_field fs ]

abbrev or_malformed {ℓ} : {A : Type ℓ} → Bytes → Option A → Checks DiffError A
or_malformed line none = err (malformed_hunk line)
or_malformed line (some a) = ok a

-- The texts of the first line and of the count.
abbrev spec_parts : Bytes → Bytes × Option Bytes
spec_parts spec = elim (cut (codes ",") spec) [
  | none ↦ (spec, none)
  | some (start, count) ↦ (start, some count)
]

abbrev count_of : Bytes → Option Bytes → Checks DiffError ℕ
count_of line none = ok 1
count_of line (some text) = or_malformed line (atoi_natural text)

pub hunk_lines : Bytes → Checks DiffError (ℕ × ℕ)
unfolding fields cut atoi_natural
hunk_lines line = do
  (ranges, rest) ← or_malformed line (cut (codes " @@") (trim_prefix (codes "@@ ") line))
  let spec = plus_field (fields ranges)
  guard (not (is_empty spec)) (malformed_hunk line)
  first ← or_malformed line (atoi_natural (spec_parts spec).0)
  count ← count_of line (spec_parts spec).1
  guard (ltb count 1 || leb 1 first) (malformed_hunk line)
  ok (first, count)

abbrev relative : Bytes → Bytes → Bytes
relative path prefix = elim (cut_prefix prefix path) [ none ↦ [] | some rest ↦ rest ]

-- The variables of the loop of `parseDiff`.
pub record Loop : Type 0 where
  pub files : Map (List IntRange)
  pub path : Bytes
  pub in_hunks : Bool

abbrev add_hunk : Loop → ℕ × ℕ → Loop
add_hunk r (first, count) =
    if is_empty r.path || ltb count 1 then record r { in_hunks = true } else record r {
      in_hunks = true;
      files =
          put r.path
            (get_list r.path r.files
              ++ record { first = first; last = wrapped (first + count - 1) } ∷ [])
            r.files;
    }

pub read_line : Bytes → Loop → Bytes → Checks DiffError Loop
unfolding hunk_lines unquote trim_right
read_line prefix r raw =
    let line = trim_right 13 raw in
    elim (has_prefix (codes "diff --git ") line) [
      | true ↦ ok (record r { path = []; in_hunks = false })
      | false ↦ elim (not r.in_hunks && has_prefix (codes "+++ ") line) [
        | true ↦ target_path line >>= λ name. ok (record r { path = relative name prefix })
        | false ↦ elim (has_prefix (codes "@@ ") line) [
          | true ↦ hunk_lines line >>= λ lines. ok (add_hunk r lines)
          | false ↦ ok r
        ]
      ]
    ]

pub read_lines : Bytes → Loop → List Bytes → Checks DiffError Loop
read_lines prefix r [] = ok r
read_lines prefix r (raw ∷ lines) = do r' ← read_line prefix r raw; read_lines prefix r' lines

abbrev merge_files : Map (List IntRange) → Map (List IntRange)
merge_files [] = []
merge_files ((path, ranges) ∷ files) = (path, merge_ints ranges) ∷ merge_files files

unfoldable pub parse_diff : Bytes → Bytes → Checks DiffError (Map (List IntRange))
unfolding wrapped read_lines read_line
parse_diff out prefix = do
  r ← read_lines prefix (record { files = []; path = []; in_hunks = false }) (split 10 out)
  ok (merge_files r.files)
