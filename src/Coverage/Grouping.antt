-- ===== src/Coverage/Grouping.antt =====
-- internal/coverage/tests.go: which tests reach the lines of a mutant. The mutants are grouped by file,
-- and the index of each test is asked once for each group.
use go_mutants.Prelude.{
  ℕ, suc, ◌+◌, Bool, true, false, ◌&&◌, Option, none, some, List, [], ◌∷◌, ◌++◌, Bytes, map, leb,
  str_eq, length, Ordering, if◌then◌else◌,
}
use go_mutants.Prelude.Arrays.{modify}
use go_mutants.Prelude.Maps.{Map, get, put, get_by, get_list}
use go_mutants.Prelude.Sorting.{sort_by, compare_bytes, then_by}
use go_mutants.Coverage.{
  Mutant, Profile, Interval, FileIndex, overlaps, new_file_index, modules_of, profile_path,
}
pub mod Entries
pub mod Joining
pub mod Sharing
pub mod Answering

pub record TestKey : Type 0 where
  pub import_path : Bytes
  pub name : Bytes

abbrev pub key_eq : TestKey → TestKey → Bool
key_eq a b = str_eq a.import_path b.import_path && str_eq a.name b.name

unfoldable pub compare_test_keys : TestKey → TestKey → Ordering
unfolding compare_bytes
compare_test_keys a b =
    then_by (compare_bytes a.import_path b.import_path) (compare_bytes a.name b.name)

pub record TestOptions : Type 0 where
  pub module_path : Bytes
  pub mutants : List Mutant
  pub profiles : List (TestKey × Profile)

pub record TestResult : Type 0 where
  pub covering : Map (List TestKey)
  pub uncovered : List Bytes
  pub tests : List TestKey
  pub matched : ℕ

pub record PlacedMutant : Type 0 where
  pub at : ℕ
  pub start : ℕ
  pub end : ℕ

pub record FileGroup : Type 0 where
  pub path : Bytes
  pub mutants : List PlacedMutant

abbrev pub Groups : Type 0
Groups = List FileGroup × Map ℕ

abbrev pub join_group : PlacedMutant → FileGroup → FileGroup
join_group p g = record g { mutants = g.mutants ++ p ∷ [] }

-- One round of `groupByFile`, with its slice and its map.
abbrev pub add_placed : Bytes → PlacedMutant → Groups → Groups
add_placed path p (groups, at) = elim (get path at) [
  | none ↦ (groups ++ record { path = path; mutants = p ∷ [] } ∷ [], put path (length groups) at)
  | some index ↦ (modify groups index (join_group p), at)
]

abbrev pub placed_at : ℕ → Mutant → PlacedMutant
placed_at i m = record { at = i; start = m.start_line; end = m.end_line }

unfoldable pub group_from : Bytes → ℕ → List Mutant → Groups → Groups
group_from module_path i [] acc = acc
group_from module_path i (m ∷ ms) acc =
    group_from module_path (suc i) ms (add_placed (profile_path module_path m) (placed_at i m) acc)

abbrev pub group_by_file : Bytes → List Mutant → List FileGroup
group_by_file module_path ms = (group_from module_path 0 ms ([], [])).0

abbrev pub profile_of_test : List (TestKey × Profile) → TestKey → Profile
profile_of_test profiles key = elim (get_by key_eq key profiles) [
  | none ↦ record { mode = []; blocks = [] }
  | some p ↦ p
]

-- `indexes`, each with its test, and `matched`.
unfoldable pub index_tests :
    List (TestKey × Profile)
    → List Bytes
    → List TestKey
    → List Bytes
    → List (TestKey × FileIndex) × List Bytes
unfolding new_file_index
index_tests profiles modules [] matched = ([], matched)
index_tests profiles modules (key ∷ keys) matched =
    let (index, matched') = new_file_index (profile_of_test profiles key) modules matched in
    let (indexes, all) = index_tests profiles modules keys matched' in ((key, index) ∷ indexes, all)

-- The three loops over `covering`, the inner one first.
abbrev pub cover_mutants :
    TestKey → List Interval → List PlacedMutant → List (List TestKey) → List (List TestKey)
cover_mutants key intervals [] covering = covering
cover_mutants key intervals (p ∷ ps) covering = cover_mutants key intervals ps (
    if overlaps intervals p.start p.end
    then modify covering p.at (λ keys. keys ++ key ∷ [])
    else covering)

abbrev pub cover_tests :
    List (TestKey × FileIndex) → FileGroup → List (List TestKey) → List (List TestKey)
cover_tests [] g covering = covering
cover_tests ((key, index) ∷ tests) g covering = cover_tests tests g (
    if leb (length (get_list g.path index)) 0
    then covering
    else cover_mutants key (get_list g.path index) g.mutants covering)

abbrev pub cover_groups :
    List (TestKey × FileIndex) → List FileGroup → List (List TestKey) → List (List TestKey)
cover_groups tests [] covering = covering
cover_groups tests (g ∷ gs) covering = cover_groups tests gs (cover_tests tests g covering)

abbrev pub nothing_covering : List Mutant → List (List TestKey)
nothing_covering [] = []
nothing_covering (m ∷ ms) = [] ∷ nothing_covering ms

abbrev pub sorted_tests : TestOptions → List TestKey
sorted_tests opts = sort_by compare_test_keys (map (λ p. p.0) opts.profiles)

abbrev pub indexed_tests : TestOptions → List (TestKey × FileIndex) × List Bytes
indexed_tests opts =
    index_tests opts.profiles (modules_of opts.module_path opts.mutants) (sorted_tests opts) []

-- The slice `covering` after the loops.
unfoldable pub covering_tests : TestOptions → List (List TestKey)
unfolding index_tests group_from overlaps
covering_tests opts =
    cover_groups (indexed_tests opts).0 (group_by_file opts.module_path opts.mutants)
      (nothing_covering opts.mutants)

abbrev note_tests :
    List Mutant
    → List (List TestKey)
    → Map (List TestKey) × List Bytes
    → Map (List TestKey) × List Bytes
note_tests (m ∷ ms) ([] ∷ rest) (covering, uncovered) =
    note_tests ms rest (covering, uncovered ++ m.id ∷ [])
note_tests (m ∷ ms) ((k ∷ ks) ∷ rest) (covering, uncovered) =
    note_tests ms rest (put m.id (k ∷ ks) covering, uncovered)
note_tests _ _ acc = acc

-- `MapTests`
unfoldable pub map_tests : TestOptions → TestResult
unfolding covering_tests compare_test_keys
map_tests opts =
    let (covering, uncovered) = note_tests opts.mutants (covering_tests opts) ([], []) in
    record {
      covering = covering;
      uncovered = uncovered;
      tests = sorted_tests opts;
      matched = length (indexed_tests opts).1;
    }
