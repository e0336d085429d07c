-- ===== src/Prelude/Fields.antt =====
-- What the parsers use of the packages strings, unicode and strconv, on byte strings in UTF-8.
use Prim.Native.Nat.{ℕ, zero, suc, ◌+◌, ◌-◌, ◌*◌}
use mathlib.Core.Bool.{Bool, true, false, ◌&&◌, ◌||◌}
use mathlib.Core.List.{List, [], ◌∷◌, ◌++◌}
use mathlib.Core.Option.{Option, none, some}
use go_mutants.Prelude.Tests.{Bytes, ltb, leb, ◌==◌, if◌then◌else◌}
use go_mutants.Prelude.Lists.{length, drop}
use go_mutants.Prelude.Text.{has_prefix}

-- `unicode.IsSpace` of the first rune: how many bytes it has if it is white space, else none.
abbrev space_triple : ℕ → ℕ → ℕ → Bool
space_triple a b c =
    (a == 225 && (b == 154 && c == 128))
    || ((a == 226
          && (b == 128 && ((leb 128 c && leb c 138) || (c == 168 || (c == 169 || c == 175)))))
        || ((a == 226 && (b == 129 && c == 159)) || (a == 227 && (b == 128 && c == 128))))

abbrev space_of_three : ℕ → ℕ → Bytes → ℕ
space_of_three a b [] = 0
space_of_three a b (c ∷ s) = if space_triple a b c then 3 else 0

abbrev space_of_two : ℕ → Bytes → ℕ
space_of_two a [] = 0
space_of_two a (b ∷ s) = if a == 194 && (b == 133 || b == 160) then 2 else space_of_three a b s

abbrev space_length : ℕ → Bytes → ℕ
space_length a s = if a == 32 || (leb 9 a && leb a 13) then 1 else space_of_two a s

abbrev pub is_empty : Bytes → Bool
is_empty [] = true
is_empty (c ∷ s) = false

abbrev flush : Bytes → List Bytes → List Bytes
flush [] fs = fs
flush (c ∷ w) fs = (c ∷ w) ∷ fs

-- How many bytes of a white space rune are left, and the word so far.
fields_from : ℕ → Bytes → Bytes → List Bytes
fields_from left word [] = flush word []
fields_from (suc left) word (c ∷ s) = fields_from left word s
fields_from zero word (c ∷ s) = elim (space_length c s) [
  | zero ↦ fields_from zero (word ++ c ∷ []) s
  | suc left ↦ flush word (fields_from left [] s)
]

-- `strings.Fields`
unfoldable pub fields : Bytes → List Bytes
unfolding fields_from
fields s = fields_from 0 [] s

abbrev is_blank : Bytes → Bool
is_blank s = elim (fields s) [ [] ↦ true | w ∷ ws ↦ false ]

trim_start : ℕ → Bytes → Bytes
trim_start left [] = []
trim_start (suc left) (c ∷ s) = trim_start left s
trim_start zero (c ∷ s) = elim (space_length c s) [ zero ↦ c ∷ s | suc left ↦ trim_start left s ]

trim_end : Bytes → Bytes
unfolding fields
trim_end [] = []
trim_end (c ∷ s) = if is_blank (c ∷ s) then [] else c ∷ trim_end s

-- `strings.TrimSpace`
unfoldable pub trim_space : Bytes → Bytes
unfolding trim_start trim_end
trim_space s = trim_end (trim_start 0 s)

-- `strings.TrimRight` of one byte.
unfoldable pub trim_right : ℕ → Bytes → Bytes
trim_right byte [] = []
trim_right byte (c ∷ s) =
    let rest = trim_right byte s in if is_empty rest && c == byte then [] else c ∷ rest

abbrev before : ℕ → Option (Bytes × Bytes) → Option (Bytes × Bytes)
before c none = none
before c (some (s, t)) = some (c ∷ s, t)

-- `strings.Cut(s, sep)` for a separator that is not empty, the separator first.
unfoldable pub cut : Bytes → Bytes → Option (Bytes × Bytes)
cut sep [] = none
cut sep (c ∷ s) =
    let rest = before c (cut sep s) in
    if has_prefix sep (c ∷ s) then some ([], drop (length sep) (c ∷ s)) else rest

-- What stands before and after the last such byte, as by `strings.LastIndexByte`.
unfoldable pub cut_last : ℕ → Bytes → Option (Bytes × Bytes)
cut_last byte [] = none
cut_last byte (c ∷ s) = elim (cut_last byte s) [
  | some (t, u) ↦ some (c ∷ t, u)
  | none ↦ if c == byte then some ([], s) else none
]

-- `strings.CutPrefix`, and what `strings.TrimPrefix` leaves, the prefix first.
abbrev pub cut_prefix : Bytes → Bytes → Option Bytes
cut_prefix prefix s = if has_prefix prefix s then some (drop (length prefix) s) else none

abbrev pub trim_prefix : Bytes → Bytes → Bytes
trim_prefix prefix s = if has_prefix prefix s then drop (length prefix) s else s

-- The value of digits in a base, after those before.
unfoldable pub digits_value : ℕ → ℕ → Bytes → Option ℕ
digits_value base v [] = some v
digits_value base v (c ∷ s) =
    let rest = digits_value base (v * base + (c - 48)) s in
    if leb 48 c && ltb c (48 + base) then rest else none

abbrev in_digits : ℕ → ℕ → Bytes → Option ℕ
in_digits base limit [] = none
in_digits base limit (c ∷ s) = elim (digits_value base 0 (c ∷ s)) [
  | none ↦ none
  | some v ↦ if ltb v limit then some v else none
]

-- `strconv.Atoi`, of 64 bits, where the caller refuses a number below zero: no number in the cases of
-- an error and of such a number.
unfoldable pub atoi_natural : Bytes → Option ℕ
unfolding digits_value
atoi_natural [] = none
atoi_natural (c ∷ s) =
    if c == b'-'
    then (elim (in_digits 10 9223372036854775809 s) [
      | some zero ↦ some 0
      | some (suc v) ↦ none
      | none ↦ none
    ])
    else if c == b'+'
    then in_digits 10 9223372036854775808 s
    else in_digits 10 9223372036854775808 (c ∷ s)

-- `strconv.ParseUint(s, 8, 8)`
unfoldable pub parse_octal_byte : Bytes → Option ℕ
unfolding digits_value
parse_octal_byte s = in_digits 8 256 s
