-- ===== src/Tests/Splices.antt =====
-- Two splices into a line of Go, given in the wrong order.
use go_mutants.Prelude.{ℕ, ◌≡◌, refl, true, List, [], ◌∷◌, Bytes, codes, arith}
use go_mutants.Prelude.Checks.{ok}
use go_mutants.Prelude.Search.{search_index}
use go_mutants.Prelude.Sorting.{sort_by}
use go_mutants.Instrument.Splice.{Splice, OffsetMap, apply, to_output, to_original}
use go_mutants.Instrument.Splice.{count_lines, line_preserving}
use go_mutants.Instrument.Splice.Lines.{count_lines-apply}
use go_mutants.Instrument.Splice.Rewriting.{Rewrites, apply-Rewrites}
use go_mutants.Instrument.Splice.Offsets.{to_original-to_output}

abbrev splice_at : ℕ → ℕ → Bytes → Bytes → Splice
splice_at start end original replacement = record {
  span = record { start_byte = start; end_byte = end };
  original = original;
  replacement = replacement;
  origin = [];
}

abbrev source : Bytes
source = codes "a + b > c"

abbrev splices : List Splice
splices = splice_at 6 7 (codes ">") (codes ">=") ∷ splice_at 2 3 (codes "+") (codes "-") ∷ []

abbrev offset_map : OffsetMap
offset_map = record {
  edits =
      record { orig_start = 2; orig_end = 3; out_start = 2; out_end = 3 }
      ∷ record { orig_start = 6; orig_end = 7; out_start = 6; out_end = 8 }
      ∷ [];
  src_len = 9;
  out_len = 10;
}

apply-source : apply source splices ≡ ok (codes "a - b >= c", offset_map)
unfolding apply sort_by
apply-source = refl

to_output-map : to_output offset_map 8 ≡ (9, true)
unfolding to_output search_index
to_output-map = refl

apply-Rewrites_example : Rewrites source splices (codes "a - b >= c") offset_map
apply-Rewrites_example = apply-Rewrites source splices (codes "a - b >= c") offset_map apply-source

to_original-to_output_example : to_original offset_map 9 ≡ (8, true)
to_original-to_output_example =
    to_original-to_output source splices (codes "a - b >= c") offset_map 8 9 apply-source
      (omega arith) to_output-map

splices-line_preserving : line_preserving splices ≡ true
unfolding line_preserving
splices-line_preserving = refl

count_lines-apply_example : count_lines (codes "a - b >= c") ≡ count_lines source
count_lines-apply_example =
    count_lines-apply source splices (codes "a - b >= c") offset_map apply-source
      splices-line_preserving
