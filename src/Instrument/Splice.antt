-- ===== src/Instrument/Splice.antt =====
-- internal/instrument/splice.go: replacing spans of a source file, and the map of its offsets. A
-- uint32 is a number below 2 ^ 32; every conversion to one wraps.
use go_mutants.Prelude.{
  ℕ, zero, suc, ◌+◌, ◌-◌, ◌%◌, Bool, true, false, not, ◌&&◌, Option, none, some, List, [], ◌∷◌,
  ◌++◌, map, Bytes, leb, ltb, ◌==◌, str_eq, length, take, drop, get_elem?, if◌then◌else◌, Ordering,
}
use go_mutants.Prelude.Checks.{Checks, ok, err, ◌>>=◌, ◌>>◌, guard}
use go_mutants.Prelude.Search.{search_list}
use go_mutants.Prelude.Sorting.{sort_by}
use go_mutants.Mutation.Span.{Span, SpanError, SpanResult, validate, slice, len, same, span_compare}
use go_mutants.Mutation.Span
mod Order
pub mod Rewriting
pub mod Edits
pub mod Offsets
pub mod Lines

pub record Splice : Type 0 where
  pub span : Span
  pub original : Bytes
  pub replacement : Bytes
  pub origin : Bytes

-- The numbers are positions in the list of splices.
pub data SpliceError : Type 0 where
  source_too_long output_too_long : SpliceError
  invalid_span not_in_source : ℕ → SpanError → SpliceError
  mismatch : ℕ → SpliceError
  both_rewrite crosses : ℕ → ℕ → SpliceError
  span_invalid : SpanError → SpliceError
  span_out_of_map starts_inside ends_inside : SpliceError

abbrev pub word : ℕ
word = 4294967296

abbrev pub uint32 : ℕ → ℕ
uint32 n = n % word

abbrev pub or_fail {ℓ} :
    {A : Type ℓ} → (SpanError → SpliceError) → SpanResult A → Checks SpliceError A
or_fail f (Span.ok a) = ok a
or_fail f (Span.err e) = err (f e)

-- The checks of the splice at position `i` by itself.
unfoldable pub check_splice : Bytes → ℕ → Splice → Checks SpliceError (Unit {0})
unfolding validate slice
check_splice src i s = do
  or_fail (invalid_span i) (validate s.span)
  covered ← or_fail (not_in_source i) (slice s.span src)
  guard (str_eq covered s.original) (mismatch i)

pub check_each : Bytes → ℕ → List Splice → Checks SpliceError (Unit {0})
check_each src i [] = ok tt
check_each src i (s ∷ ss) = do check_splice src i s; check_each src (suc i) ss

abbrev pub number_from : ℕ → List Splice → List (ℕ × Splice)
number_from i [] = []
number_from i (s ∷ ss) = (i, s) ∷ number_from (suc i) ss

unfoldable pub compare_splices : ℕ × Splice → ℕ × Splice → Ordering
unfolding span_compare
compare_splices (i, s) (j, t) = span_compare s.span t.span

-- The loop over the sorted splices, from the second on: the one before, how far the ones before
-- reach, and which of them reaches that far.
pub check_order : ℕ × Splice → ℕ → ℕ → List (ℕ × Splice) → Checks SpliceError (Unit {0})
check_order prev reach at [] = ok tt
check_order (p, prev) reach at ((i, s) ∷ order) = do
  guard (not (same s.span prev.span)) (both_rewrite p i)
  guard (leb reach s.span.start_byte) (crosses i at)
  let further = leb reach s.span.end_byte
  check_order (i, s) (if further then s.span.end_byte else reach) (if further then i else at) order

abbrev pub check_sorted : List (ℕ × Splice) → Checks SpliceError (Unit {0})
check_sorted [] = ok tt
check_sorted ((i, s) ∷ order) = check_order (i, s) s.span.end_byte i order

unfoldable pub validate_splices : Bytes → List Splice → Checks SpliceError (List (ℕ × Splice))
unfolding check_each check_splice check_order compare_splices
validate_splices src splices = do
  guard (ltb (length src) word) source_too_long
  check_each src 0 splices
  let order = sort_by compare_splices (number_from 0 splices)
  check_sorted order
  ok order

pub record Edit : Type 0 where
  pub orig_start : ℕ
  pub orig_end : ℕ
  pub out_start : ℕ
  pub out_end : ℕ

pub record OffsetMap : Type 0 where
  pub edits : List Edit
  pub src_len : ℕ
  pub out_len : ℕ

abbrev pub total_replaced : List Splice → ℕ
total_replaced [] = 0
total_replaced (s ∷ ss) = length s.replacement + total_replaced ss

abbrev pub total_covered : List Splice → ℕ
total_covered [] = 0
total_covered (s ∷ ss) = len s.span + total_covered ss

-- The loop of `Apply` over the sorted splices, from the cursor, the output and the edits so far.
pub apply_from : Bytes → ℕ → Bytes → List Edit → List (ℕ × Splice) → Bytes × List Edit
apply_from src cursor out edits [] = (out ++ drop cursor src, edits)
apply_from src cursor out edits ((i, s) ∷ order) =
    let kept = out ++ take (s.span.start_byte - cursor) (drop cursor src) in
    let written = kept ++ s.replacement in
    apply_from src s.span.end_byte written
      (edits
        ++ record {
          orig_start = s.span.start_byte;
          orig_end = s.span.end_byte;
          out_start = uint32 (length kept);
          out_end = uint32 (length written);
        }
          ∷ [])
      order

abbrev pub map_of : Bytes → Bytes × List Edit → Bytes × OffsetMap
map_of src (out, edits) =
    (out, record { edits = edits; src_len = uint32 (length src); out_len = uint32 (length out) })

-- `grown > math.MaxUint32`, with what is subtracted on the other side.
unfoldable pub apply : Bytes → List Splice → Checks SpliceError (Bytes × OffsetMap)
unfolding validate_splices apply_from len
apply src splices = do
  order ← validate_splices src splices
  guard (ltb (length src + total_replaced splices) (word + total_covered splices)) output_too_long
  ok (map_of src (apply_from src 0 [] [] order))

-- `shift(off, a - b)`: int64 arithmetic, and the conversion back, which wraps.
abbrev pub shift : ℕ → ℕ → ℕ → ℕ
shift off a b = uint32 (off + a + (word - b))

-- The edit that the search of `ToOutput` and of `ToOriginal` stops at, if there is one.
abbrev pub edit_past : (Edit → ℕ) → ℕ → List Edit → Option Edit
edit_past end off edits = get_elem? edits (search_list (λ e. ltb off (end e)) edits)

abbrev pub output_at : OffsetMap → ℕ → Option Edit → ℕ × Bool
output_at m off none = (shift off m.out_len m.src_len, true)
output_at m off (some e) =
    if ltb e.orig_start off
    then (e.out_start, false)
    else (shift off e.out_start e.orig_start, true)

unfoldable pub to_output : OffsetMap → ℕ → ℕ × Bool
to_output m off =
    if ltb m.src_len off
    then (m.out_len, false)
    else output_at m off (edit_past (λ e. e.orig_end) off m.edits)

abbrev pub original_at : OffsetMap → ℕ → Option Edit → ℕ × Bool
original_at m off none = (shift off m.src_len m.out_len, true)
original_at m off (some e) =
    if ltb e.out_start off
    then (e.orig_start, false)
    else (shift off e.orig_start e.out_start, true)

unfoldable pub to_original : OffsetMap → ℕ → ℕ × Bool
to_original m off =
    if ltb m.out_len off
    then (m.src_len, false)
    else original_at m off (edit_past (λ e. e.out_end) off m.edits)

abbrev pub exact : SpliceError → ℕ × Bool → Checks SpliceError ℕ
exact e (off, true) = ok off
exact e (off, false) = err e

unfoldable pub map_span : OffsetMap → Span → Checks SpliceError Span
unfolding validate to_output
map_span m s = do
  or_fail span_invalid (validate s)
  guard (leb s.end_byte m.src_len) span_out_of_map
  start ← exact starts_inside (to_output m s.start_byte)
  end ← exact ends_inside (to_output m s.end_byte)
  ok (record { start_byte = start; end_byte = end })

-- `bytes.Count(b, "\n")`
abbrev pub count_lines : Bytes → ℕ
count_lines [] = 0
count_lines (c ∷ s) = (if c == 10 then 1 else 0) + count_lines s

unfoldable pub line_preserving : List Splice → Bool
line_preserving [] = true
line_preserving (s ∷ ss) = count_lines s.original == count_lines s.replacement && line_preserving ss
