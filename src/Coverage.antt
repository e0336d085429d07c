-- ===== src/Coverage.antt =====
-- internal/coverage/map.go: which test binaries reach the lines of a mutant, from their coverage
-- profiles. A line number is a natural number, at most the largest int.
use go_mutants.Prelude.{
  ℕ, ◌+◌, Bool, true, false, not, ◌&&◌, ◌||◌, Option, none, some, List, [], ◌∷◌, ◌++◌, Bytes, codes,
  map, ltb, leb, str_eq, any, keep, ◌==◌, length, get_elem?, if◌then◌else◌,
}
use go_mutants.Prelude.Maps.{Map, get, put, get_list}
use go_mutants.Prelude.Search.{search_list}
use go_mutants.Prelude.Sorting.{sort_by, compare_bytes}
use go_mutants.Prelude.Text.{has_prefix}
use go_mutants.Instrument.Splice.{count_lines}
use go_mutants.Changes.{Range, max, compare_ranges}
pub mod Overlapping
pub mod Indexing
pub mod Covering
pub mod Grouping
pub mod Textfmt

pub record Mutant : Type 0 where
  pub id : Bytes
  pub path : Bytes
  pub module_path : Bytes
  pub start_line : ℕ
  pub end_line : ℕ

pub record Block : Type 0 where
  pub file : Bytes
  pub start_line : ℕ
  pub start_col : ℕ
  pub end_line : ℕ
  pub end_col : ℕ
  pub num_stmt : ℕ
  pub count : ℕ

pub record Profile : Type 0 where
  pub mode : Bytes
  pub blocks : List Block

abbrev pub is_covered : Block → Bool
is_covered b = ltb 0 b.count

-- The function `EndLine`.
abbrev pub end_line_of : ℕ → Bytes → ℕ
end_line_of start_line original = start_line + count_lines original

-- The struct `interval` has an int for each end, as a range of changed lines does.
abbrev pub Interval : Type 0
Interval = Range

abbrev pub FileIndex : Type 0
FileIndex = Map (List Interval)

-- The largest int.
unfoldable pub max_int : ℕ
max_int = 9223372036854775807

-- `a <= b + 1` on ints: behind the largest int the sum is negative.
unfoldable pub le_next : ℕ → ℕ → Bool
unfolding max_int
le_next a b = not (b == max_int) && leb a (b + 1)

-- The loop of `merge`, with the last interval of `merged`.
unfoldable pub join_from : Interval → List Interval → List Interval
unfolding le_next
join_from last [] = last ∷ []
join_from last (next ∷ rest) =
    let joined = join_from (record last { last = max last.last next.last }) rest in
    let apart = last ∷ join_from next rest in if le_next next.first last.last then joined else apart

abbrev join_sorted : List Interval → List Interval
join_sorted [] = []
join_sorted (i ∷ is) = join_from i is

unfoldable pub merge : List Interval → List Interval
unfolding join_from
merge [] = []
merge (i ∷ []) = i ∷ []
merge (i ∷ j ∷ is) = join_sorted (sort_by compare_ranges (i ∷ j ∷ is))

-- The test is of the interval that the search stops at.
unfoldable pub overlaps : List Interval → ℕ → ℕ → Bool
overlaps intervals start end =
    if leb (length intervals) 0 || ltb end start
    then false
    else (elim (get_elem? intervals (search_list (λ i. leb start i.last) intervals)) [
      | none ↦ false
      | some i ↦ leb i.first end
    ])

unfoldable pub covers : FileIndex → Bytes → ℕ → ℕ → Bool
unfolding overlaps
covers index path start end = overlaps (get_list path index) start end

abbrev pub under_module : Bytes → List Bytes → Bool
under_module file [] = true
under_module file (m ∷ ms) = any (λ mod'. has_prefix (mod' ++ codes "/") file) (m ∷ ms)

-- A set of strings: `set[key] = true`.
abbrev pub add_key : Bytes → List Bytes → List Bytes
add_key key set = if any (str_eq key) set then set else key ∷ set

abbrev pub covered_interval : Block → Interval
covered_interval b = record { first = b.start_line; last = b.end_line }

-- What the loop of `newFileIndex` makes of a block of a named file in the index.
abbrev pub place_block : Block → FileIndex → FileIndex
place_block b index =
    if is_covered b
    then put b.file (get_list b.file index ++ covered_interval b ∷ []) index
    else (elim (get b.file index) [ none ↦ put b.file [] index | some intervals ↦ index ])

unfoldable pub index_blocks :
    List Bytes → List Block → FileIndex × List Bytes → FileIndex × List Bytes
index_blocks modules [] acc = acc
index_blocks modules (b ∷ bs) (index, matched) = index_blocks modules bs (
    if str_eq b.file [] then (index, matched) else (
      place_block b index,
      if under_module b.file modules then add_key b.file matched else matched,
    ))

abbrev pub merge_all : FileIndex → FileIndex
merge_all [] = []
merge_all ((path, intervals) ∷ index) = (path, merge intervals) ∷ merge_all index

unfoldable pub new_file_index : Profile → List Bytes → List Bytes → FileIndex × List Bytes
unfolding index_blocks
new_file_index profile modules matched =
    let (index, matched') = index_blocks modules profile.blocks ([], matched) in
    (merge_all index, matched')

abbrev pub modules_from : List Bytes → List Mutant → List Bytes
modules_from modules [] = modules
modules_from modules (m ∷ ms) =
    modules_from
      (if not (str_eq m.module_path []) && not (any (str_eq m.module_path) modules)
        then modules ++ m.module_path ∷ []
        else modules)
      ms

abbrev pub modules_of : Bytes → List Mutant → List Bytes
modules_of run_module mutants =
    modules_from (if str_eq run_module [] then [] else run_module ∷ []) mutants

abbrev pub profile_path : Bytes → Mutant → Bytes
profile_path run_module m =
    let mod' = if str_eq m.module_path [] then run_module else m.module_path in
    if str_eq mod' [] then m.path else mod' ++ codes "/" ++ m.path

pub record Options : Type 0 where
  pub module_path : Bytes
  pub mutants : List Mutant
  pub profiles : Map Profile

pub record Result : Type 0 where
  pub covering : Map (List Bytes)
  pub uncovered : List Bytes
  pub binaries : List Bytes
  pub matched : ℕ

-- `opts.Profiles[importPath]`
abbrev pub profile_of : Map Profile → Bytes → Profile
profile_of profiles path = elim (get path profiles) [
  | none ↦ record { mode = []; blocks = [] }
  | some p ↦ p
]

-- The loop over the binaries that fills `indexes`.
unfoldable pub index_all :
    Map Profile → List Bytes → List Bytes → Map FileIndex × List Bytes → Map FileIndex × List Bytes
unfolding new_file_index
index_all profiles modules [] acc = acc
index_all profiles modules (b ∷ bs) (indexes, matched) =
    let (index, matched') = new_file_index (profile_of profiles b) modules matched in
    index_all profiles modules bs (put b index indexes, matched')

abbrev pub covering_binaries : Bytes → List Bytes → Map FileIndex → Mutant → List Bytes
covering_binaries module_path binaries indexes m =
    keep (λ b. covers (get_list b indexes) (profile_path module_path m) m.start_line m.end_line)
      binaries

-- What a mutant adds to `Covering` and `Uncovered`.
abbrev pub note :
    Mutant → List Bytes → Map (List Bytes) × List Bytes → Map (List Bytes) × List Bytes
note m [] (covering, uncovered) = (covering, uncovered ++ m.id ∷ [])
note m (b ∷ bs) (covering, uncovered) = (put m.id (b ∷ bs) covering, uncovered)

abbrev pub note_all :
    (Mutant → List Bytes)
    → List Mutant
    → Map (List Bytes) × List Bytes
    → Map (List Bytes) × List Bytes
note_all of [] acc = acc
note_all of (m ∷ ms) acc = note_all of ms (note m (of m) acc)

-- `Map`
unfoldable pub map_coverage : Options → Result
unfolding index_all covers
map_coverage opts =
    let binaries = sort_by compare_bytes (map (λ p. p.0) opts.profiles) in
    let modules = modules_of opts.module_path opts.mutants in
    let (indexes, matched) = index_all opts.profiles modules binaries ([], []) in
    let (covering, uncovered) =
      note_all (covering_binaries opts.module_path binaries indexes) opts.mutants ([], []) in
    record {
      covering = covering;
      uncovered = uncovered;
      binaries = binaries;
      matched = length matched;
    }

-- `Result.CoveringOf`
abbrev pub covering_of : Result → Bytes → List Bytes
covering_of r id = get_list id r.covering
