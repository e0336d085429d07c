-- ===== src/Tests/Positions.antt =====
-- A text of two lines, of which the second has a rune of four bytes.
use go_mutants.Prelude.{◌≡◌, refl, ◌∷◌, ◌++◌, ◌+◌, ◌-◌, Bytes, codes, length, take, arith}
use go_mutants.Prelude.Search.{search_index}
use go_mutants.Report.{new_source_index, position, line_at, start_of, offset_at, clamp}
use go_mutants.Report.Locating.{position_behind, position-Counts, offset_at-line_at}

abbrev text : Bytes
text = codes "ab" ++ (10 ∷ 240 ∷ 159 ∷ 152 ∷ 128 ∷ codes "cd")

position-text : position (new_source_index text) 8 ≡ record { line = 2; column = 4 }
unfolding position search_index
position-text = refl

position-Counts_example :
    position (new_source_index text) 8 ≡ position_behind (take (clamp 8 (length text)) text)
position-Counts_example = position-Counts text 8

offset_at-line_at_example :
    offset_at
      (new_source_index text)
      (line_at (new_source_index text) 8 + 1)
      (8 - start_of (new_source_index text) (line_at (new_source_index text) 8) + 1)
    ≡ 8
offset_at-line_at_example = offset_at-line_at text 8 (omega arith)
