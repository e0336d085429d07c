-- ===== src/Coverage/Grouping/Answering.antt =====
-- The tests that `MapTests` gives a mutant are those that it would give it by itself.
use go_mutants.Prelude.{List, keep}
use go_mutants.Coverage.{Mutant, profile_path}
use go_mutants.Coverage.Grouping.{TestKey, TestOptions, sorted_tests}
use go_mutants.Coverage.Indexing.{reaches}
use go_mutants.Coverage.Grouping.{profile_of_test}

-- The tests of which a block that ran has one of the mutant's lines.
abbrev pub reaching_tests : TestOptions → Mutant → List TestKey
reaching_tests opts m =
    keep
      (λ key.
        reaches (profile_of_test opts.profiles key) (profile_path opts.module_path m) m.start_line
          m.end_line)
      (sorted_tests opts)
