-- ===== src/Tests/Reaches.antt =====
-- Two binaries with profiles of one file, and two mutants of it.
use go_mutants.Prelude.{ℕ, ◌≡◌, refl, false, [], ◌∷◌, Bytes, codes, arith}
use go_mutants.Prelude.Sorting.{sort_by, compare_bytes}
use go_mutants.Prelude.Search.{search_index}
use go_mutants.Changes.{compare_ranges}
use go_mutants.Coverage.{
  Mutant, Block, Options, map_coverage, covering_of, merge, join_from, profile_of, max_int,
  overlaps,
}
use go_mutants.Coverage.Grouping.{TestKey, TestOptions, map_tests}
use go_mutants.Coverage.Indexing.{InLine}
use go_mutants.Coverage.Covering.{Reached, map_coverage-Reached}
use go_mutants.Prelude.{All, Bool-cases, inl, inr, str_eq}

abbrev block : ℕ → ℕ → ℕ → Block
block first last count = record {
  file = codes "m/a.go";
  start_line = first;
  start_col = 1;
  end_line = last;
  end_col = 2;
  num_stmt = 1;
  count = count;
}

abbrev mutant : Bytes → ℕ → Mutant
mutant id line = record {
  id = id;
  path = codes "a.go";
  module_path = [];
  start_line = line;
  end_line = line;
}

abbrev options : Options
options = record {
  module_path = codes "m";
  mutants = mutant (codes "x") 4 ∷ mutant (codes "y") 9 ∷ [];
  profiles =
      (
        codes "q",
        record { mode = codes "set"; blocks = block 8 12 0 ∷ block 3 5 1 ∷ block 5 6 1 ∷ [] },
      )
      ∷ (codes "p", record { mode = codes "set"; blocks = block 1 4 2 ∷ [] })
      ∷ [];
}

covering-x : covering_of (map_coverage options) (codes "x") ≡ codes "p" ∷ codes "q" ∷ []
unfolding map_coverage sort_by compare_bytes search_index merge join_from compare_ranges
covering-x = refl

uncovered-y : (map_coverage options).uncovered ≡ codes "y" ∷ []
unfolding map_coverage sort_by compare_bytes search_index merge join_from compare_ranges
uncovered-y = refl

blocks-InLine : (b : Bytes) → All InLine (profile_of options.profiles b).blocks
unfolding max_int
blocks-InLine b = elim (Bool-cases (str_eq (codes "q") b)) [
  | inl e ↦ rw (e, profile_of) (omega arith)
  | inr e ↦ elim (Bool-cases (str_eq (codes "p") b)) [
    | inl f ↦ rw (e, f, profile_of) (omega arith)
    | inr f ↦ rw (e, f, profile_of) tt
  ]
]

map_coverage-Reached_example : Reached options (map_coverage options)
map_coverage-Reached_example =
    map_coverage-Reached options ((refl, tt), (tt, tt)) (omega arith) blocks-InLine

-- A block that ends on the line of the largest int does not take in the next one, and hides its own
-- lines from the search.
overlaps-wrapped :
    overlaps
      (merge (record { first = 1; last = max_int } ∷ record { first = 5; last = 6 } ∷ []))
      10
      10
    ≡ false
unfolding overlaps merge join_from compare_ranges sort_by search_index max_int
overlaps-wrapped = refl

abbrev key : Bytes → TestKey
key name = record { import_path = codes "m"; name = name }

abbrev test_options : TestOptions
test_options = record {
  module_path = codes "m";
  mutants = options.mutants;
  profiles =
      (key (codes "TestB"), record { mode = codes "set"; blocks = block 3 5 1 ∷ [] })
      ∷ (
        key (codes "TestA"),
        record { mode = codes "set"; blocks = block 1 4 2 ∷ block 9 9 1 ∷ [] },
      )
      ∷ [];
}

map_tests-uncovered : (map_tests test_options).uncovered ≡ []
unfolding map_tests sort_by compare_bytes search_index merge join_from compare_ranges
map_tests-uncovered = refl
