-- ===== src/Tests/Parses.antt =====
-- A diff with a quoted path and two hunks, and a coverage profile of two blocks.
use go_mutants.Prelude.{ℕ, ◌≡◌, ◌≢◌, refl, false, List, [], ◌∷◌, ◌++◌, Bytes, codes, All}
use go_mutants.Prelude.Checks.{ok}
use go_mutants.Prelude.Maps.{Map}
use go_mutants.Prelude.Sorting.{sort_by}
use go_mutants.Prelude.Split.{split}
use go_mutants.Prelude.Ints.{pos, negsuc}
use go_mutants.Changes.Signed.{IntRange, merge_ints}
use go_mutants.Changes.Parsing.{parse_diff}
use go_mutants.Changes.Parsing.Reading.{Clean, parse_diff-Clean}
use go_mutants.Coverage.{Block, Profile}
use go_mutants.Coverage.Textfmt.{parse_textfmt}
use go_mutants.Coverage.Textfmt.Placing.{WellPlaced, parse_textfmt-WellPlaced}

abbrev text_of : List Bytes → Bytes
text_of [] = []
text_of (line ∷ rest) = line ++ (10 ∷ text_of rest)

abbrev diff : Bytes
diff = text_of (
    codes "diff --git a/m/x.go b/m/x.go"
    ∷ codes "+++ b/m/x.go"
    ∷ codes "@@ -1,2 +7,3 @@ func f()"
    ∷ codes "@@ -9 +2 @@"
    ∷ codes "@@ -20,4 +19,0 @@"
    ∷ [])

abbrev changed : Map (List IntRange)
changed =
    (codes "x.go", record { first = 2; last = pos 2 } ∷ record { first = 7; last = pos 9 } ∷ [])
    ∷ (codes "x.go", record { first = 7; last = pos 9 } ∷ [])
    ∷ []

parse_diff-diff : parse_diff diff (codes "m/") ≡ ok changed
unfolding parse_diff split merge_ints sort_by
parse_diff-diff = refl

abbrev overlong : Bytes
overlong = text_of (
    codes "diff --git a/m/x.go b/m/x.go"
    ∷ codes "+++ b/m/x.go"
    ∷ codes "@@ -0,0 +9223372036854775807,2 @@"
    ∷ [])

-- The last line of a hunk that ends behind the largest int is the least one.
parse_diff-wraps :
    parse_diff overlong (codes "m/")
    ≡ ok (
        (
          codes "x.go",
          record { first = 9223372036854775807; last = negsuc 9223372036854775807 } ∷ [],
        )
        ∷ [])
unfolding parse_diff split merge_ints sort_by
parse_diff-wraps = refl

parse_diff-Clean_example : All Clean changed
parse_diff-Clean_example = parse_diff-Clean diff (codes "m/") changed parse_diff-diff

abbrev lines : List Bytes
lines = codes "mode: set" ∷ [] ∷ codes "m/a.go:3.2,5.10 2 1" ∷ codes "m/a.go:7.1,7.4 1 0" ∷ []

abbrev block : ℕ → ℕ → ℕ → ℕ → ℕ → ℕ → Block
block sl sc el ec n c = record {
  file = codes "m/a.go";
  start_line = sl;
  start_col = sc;
  end_line = el;
  end_col = ec;
  num_stmt = n;
  count = c;
}

abbrev profile : Profile
profile = record { mode = codes "set"; blocks = block 3 2 5 10 2 1 ∷ block 7 1 7 4 1 0 ∷ [] }

parse_textfmt-lines : parse_textfmt lines false ≡ ok profile
unfolding parse_textfmt
parse_textfmt-lines = refl

parse_textfmt-WellPlaced_example :
    (false ≡ false) × (profile.mode ≢ []) × All WellPlaced profile.blocks
parse_textfmt-WellPlaced_example = parse_textfmt-WellPlaced lines false profile parse_textfmt-lines
