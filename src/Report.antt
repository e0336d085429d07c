-- ===== src/Report.antt =====
-- internal/report/utf16.go: lines and columns of a source text, the columns in UTF-16 code units. An
-- offset, a line and a column are natural numbers here; the source takes a negative one for the least.
use go_mutants.Prelude.{
  ℕ, zero, suc, ◌+◌, ◌-◌, Bool, true, false, not, ◌&&◌, ◌||◌, Option, none, some, List, [], ◌∷◌,
  Bytes, leb, ltb, ◌==◌, length, take, drop, get_elem?, if◌then◌else◌,
}
use go_mutants.Prelude.Search.{search_list}
pub mod Locating
pub mod Sharded
pub mod Merging

pub record Position : Type 0 where
  pub line : ℕ
  pub column : ℕ

pub record SourceIndex : Type 0 where
  pub src : Bytes
  pub line_starts : List ℕ

-- The loop of `newSourceIndex` from offset `i` on.
abbrev pub starts_from : ℕ → Bytes → List ℕ
starts_from i [] = []
starts_from i (c ∷ s) = if c == 10 then suc i ∷ starts_from (suc i) s else starts_from (suc i) s

abbrev pub new_source_index : Bytes → SourceIndex
new_source_index src = record { src = src; line_starts = 0 ∷ starts_from 0 src }

-- The bytes of a rune after its first, as `range` decodes UTF-8; an invalid byte is a rune by itself.
abbrev within : ℕ → ℕ → ℕ → Bool
within lo hi c = leb lo c && leb c hi

abbrev follows : ℕ → Bytes → ℕ → Bool
follows lo s hi = elim s [ [] ↦ false | c ∷ r ↦ within lo hi c ]

abbrev continued : ℕ → Bytes → Bool
continued zero s = true
continued (suc n) [] = false
continued (suc n) (c ∷ s) = within 128 191 c && continued n s

-- The range of the second byte, by the first.
abbrev second_from : ℕ → ℕ
second_from a = if a == 224 then 160 else if a == 240 then 144 else 128

abbrev second_to : ℕ → ℕ
second_to a = if a == 237 then 159 else if a == 244 then 143 else 191

abbrev trailing : ℕ → ℕ
trailing a =
    if within 194 223 a
    then 1
    else if within 224 239 a
    then 2
    else if within 240 244 a
    then 3
    else 0

abbrev pub rune_tail : ℕ → Bytes → ℕ
rune_tail a s =
    if follows (second_from a) s (second_to a) && continued (trailing a - 1) (drop 1 s)
    then trailing a
    else 0

-- `utf16Length`: only runes of four bytes lie above 0xFFFF.
abbrev utf16_length : ℕ → ℕ
utf16_length tail = if tail == 3 then 2 else 1

units_from : ℕ → Bytes → ℕ
units_from left [] = 0
units_from (suc left) (c ∷ s) = units_from left s
units_from zero (c ∷ s) = utf16_length (rune_tail c s) + units_from (rune_tail c s) s

unfoldable pub utf16_units : Bytes → ℕ
unfolding units_from
utf16_units s = units_from 0 s

-- `sort.SearchInts(x.lineStarts, offset+1)`
unfoldable pub line_at : SourceIndex → ℕ → ℕ
line_at x offset =
    let next = search_list (λ start. leb (suc offset) start) x.line_starts in
    if leb next 0 then 0 else next - 1

abbrev pub start_of : SourceIndex → ℕ → ℕ
start_of x line = elim (get_elem? x.line_starts line) [ none ↦ 0 | some start ↦ start ]

abbrev pub clamp : ℕ → ℕ → ℕ
clamp offset size = if ltb size offset then size else offset

unfoldable pub position : SourceIndex → ℕ → Position
unfolding line_at utf16_units
position x offset =
    let at = clamp offset (length x.src) in
    let line = line_at x at in
    record { line = line + 1; column = 1 + utf16_units (drop (start_of x line) (take at x.src)) }

unfoldable pub offset_at : SourceIndex → ℕ → ℕ → ℕ
offset_at x line byte_column =
    let index =
      if leb (length x.line_starts) (line - 1) then length x.line_starts - 1 else line - 1 in
    clamp (start_of x index + (byte_column - 1)) (length x.src)
