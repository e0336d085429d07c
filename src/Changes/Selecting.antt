-- ===== src/Changes/Selecting.antt =====
-- selection.go of the root package: the lines that a caller selects, cleaned and merged, and the
-- mutants that they select. A line below zero is refused as zero is.
use go_mutants.Prelude.{
  ℕ, ◌+◌, Bool, true, ◌||◌, Option, none, some, List, [], ◌∷◌, ◌++◌, map, Bytes, codes, ltb, str_eq,
  if◌then◌else◌,
}
use go_mutants.Prelude.Maps.{Map, put, get_list}
use go_mutants.Prelude.Text.{has_prefix, contains_any, clean_relative}
use go_mutants.Prelude.Fields.{is_empty}
use go_mutants.Prelude.Sorting.{sort_by, compare_bytes}
use go_mutants.Prelude.Checks.{Checks, ok, err, ◌>>=◌, ◌>>◌}
use go_mutants.Changes.{Range, merge, touches}
pub mod Meeting

pub data SelectionError : Type 0 where
  invalid_path invalid_range : Bytes → SelectionError

-- `selectionPath`
unfoldable pub selection_path : Bytes → Checks SelectionError Bytes
selection_path raw =
    if is_empty raw
    then err (SelectionError.invalid_path raw)
    else if contains_any (codes "\\") raw
    then err (SelectionError.invalid_path raw)
    else if has_prefix (codes "/") raw
    then err (SelectionError.invalid_path raw)
    else if str_eq (clean_relative raw) (codes ".")
    then err (SelectionError.invalid_path raw)
    else if str_eq (clean_relative raw) (codes "..")
        || has_prefix (codes "../") (clean_relative raw)
    then err (SelectionError.invalid_path raw)
    else ok (clean_relative raw)

-- `checkLineRange`
unfoldable pub check_line_range : Bytes → Range → Checks SelectionError (Unit {0})
check_line_range raw r =
    if ltb r.first 1
    then err (SelectionError.invalid_range raw)
    else if ltb r.last r.first
    then err (SelectionError.invalid_range raw)
    else ok tt

-- The inner loop of `normaliseSelection`.
unfoldable pub append_ranges :
    Bytes → Bytes → List Range → Map (List Range) → Checks SelectionError (Map (List Range))
append_ranges raw cleaned [] lines = ok lines
append_ranges raw cleaned (r ∷ rs) lines =
    check_line_range raw r
    >> append_ranges raw cleaned rs (put cleaned (get_list cleaned lines ++ r ∷ []) lines)

-- Its outer loop over the paths.
unfoldable pub clean_paths :
    Map (List Range) → List Bytes → Map (List Range) → Checks SelectionError (Map (List Range))
clean_paths selected [] lines = ok lines
clean_paths selected (raw ∷ raws) lines = do
  cleaned ← selection_path raw
  lines' ← append_ranges raw cleaned (get_list raw selected) lines
  clean_paths selected raws lines'

abbrev pub merge_lines : Map (List Range) → Map (List Range)
merge_lines lines = map (λ entry. (entry.0, merge entry.1)) lines

-- `slices.Sorted(maps.Keys(selection.Lines))`
abbrev pub sorted_paths : Map (List Range) → List Bytes
sorted_paths selected = sort_by compare_bytes (map (λ entry. entry.0) selected)

-- `normaliseSelection`; none is a nil selection.
unfoldable pub normalise_selection :
    Option (Map (List Range)) → Checks SelectionError (Option (Map (List Range)))
normalise_selection none = ok none
normalise_selection (some selected) = do
  lines ← clean_paths selected (sorted_paths selected) []
  ok (some (merge_lines lines))

pub record Mutant : Type 0 where
  pub path : Bytes
  pub line : ℕ
  pub end_line : ℕ
  pub selected : Bool

-- `applySelection`, of one mutant.
unfoldable pub select_mutant : Option (Map (List Range)) → Mutant → Mutant
select_mutant none m = record m { selected = true }
select_mutant (some lines) m = record m {
  selected = is_empty m.path || (ltb m.line 1 || touches (get_list m.path lines) m.line m.end_line);
}

unfoldable pub apply_selection : Option (Map (List Range)) → List Mutant → List Mutant
unfolding select_mutant
apply_selection selection mutants = map (select_mutant selection) mutants
