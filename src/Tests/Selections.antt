-- ===== src/Tests/Selections.antt =====
-- Two spellings of one path, whose ranges are merged.
use go_mutants.Prelude.{◌≡◌, refl, false, some, List, [], ◌∷◌, codes, ◌||◌, ltb}
use go_mutants.Prelude.Maps.{Map}
use go_mutants.Prelude.Text.{clean_relative}
use go_mutants.Prelude.Fields.{is_empty}
use go_mutants.Prelude.Sorting.{sort_by, compare_bytes}
use go_mutants.Prelude.Checks.{ok}
use go_mutants.Changes.{Range, merge, max, min}
use go_mutants.Changes.Touching.{meets}
use go_mutants.Changes.Selecting.{
  Mutant, selection_path, check_line_range, append_ranges, clean_paths, normalise_selection,
  select_mutant, sorted_paths,
}
use go_mutants.Changes.Selecting.Meeting.{given_for, normalise_selection-Selects}

abbrev selected : Map (List Range)
selected =
    (codes "./a.go", record { first = 5; last = 6 } ∷ [])
    ∷ (codes "a.go", record { first = 2; last = 4 } ∷ [])
    ∷ []

abbrev normal : Map (List Range)
normal =
    (codes "a.go", record { first = 2; last = 6 } ∷ [])
    ∷ (codes "a.go", record { first = 5; last = 6 } ∷ [])
    ∷ []

normalised : normalise_selection (some selected) ≡ ok (some normal)
unfolding normalise_selection clean_paths append_ranges check_line_range selection_path
    clean_relative sort_by compare_bytes merge
normalised = refl

abbrev mutant : Mutant
mutant = record { path = codes "a.go"; line = 6; end_line = 8; selected = false }

normalise_selection-Selects_example : (select_mutant (some normal) mutant).selected ≡ (
    is_empty mutant.path
    || (ltb mutant.line 1
        || meets
            (min mutant.line mutant.end_line)
            (max mutant.line mutant.end_line)
            (given_for mutant.path selected (sorted_paths selected))))
normalise_selection-Selects_example =
    normalise_selection-Selects selected (some normal) mutant normalised
