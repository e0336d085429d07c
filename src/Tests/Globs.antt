-- ===== src/Tests/Globs.antt =====
-- Patterns as users write them.
use go_mutants.Prelude.{◌≡◌, ◌↔◌, refl, true, false, any, codes, Bytes}
use go_mutants.Prelude.Split.{split}
use go_mutants.Glob.{match, match_wildcard, is_empty, slash, classify}
use go_mutants.Glob.Wildcard.{Wild, match_wildcard_iff}
use go_mutants.Glob.Segments.{Covers, match_iff}
use go_mutants.Glob.Compiling.{accepted}

abbrev internal_tests : Bytes
internal_tests = codes "internal/**/*_test.go"

abbrev a_test : Bytes
a_test = codes "internal/a/b/x_test.go"

match-a_test : match (accepted internal_tests) a_test ≡ true
unfolding match classify
match-a_test = refl

match_iff_example : (match (accepted internal_tests) a_test ≡ true) ↔ (
    (any is_empty (split slash a_test) ≡ false)
    × Covers (accepted internal_tests).elements (split slash a_test))
match_iff_example = match_iff (accepted internal_tests) a_test

match_wildcard_iff_example :
    (match_wildcard (codes "*_test.g?") (codes "x_test.go") ≡ true)
    ↔ Wild (codes "*_test.g?") (codes "x_test.go")
match_wildcard_iff_example = match_wildcard_iff (codes "*_test.g?") (codes "x_test.go")
