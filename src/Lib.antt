-- ===== src/Lib.antt =====
-- go-mutants: mutation testing for Go. The program finds places to mutate in a module, gives each
-- mutant an identity, compiles batches of mutants into one binary, runs the tests with one mutant
-- switched on at a time, and scores the outcomes.
--
-- Parts and files. Each function is named as in the source, in this library's spelling.
--   Prelude: lists, sorting, Booleans and byte strings, with the functions of Go's packages
--     strings, strconv, path and encoding that the code uses.
--   Mutation/Span: internal/mutation/span.go, half-open byte ranges.
--   Mutation/Identity: internal/mutation/id.go. NormalizePath, Identity.Validate, Identity.ID
--     and WriteLengthPrefixed; SHA-256 is a parameter, a function on byte strings.
--   Mutation/Rule: internal/mutation/rule.go. The registry of rules and the canonical table.
--   Mutation/Candidate, Mutation/Catalog: internal/mutation/catalog.go. The builder that candidates
--     are added to, and the catalogue of mutants that it builds.
--   Mutation/Outcome, Mutation/Score, Mutation/Policy: internal/mutation/outcome.go, score.go and
--     exitpolicy.go, from an outcome's name to the exit code; float64 is a record of operations.
--   Interval: internal/interval/interval.go and forest.go. Overlapping mutants of a file become a
--     forest of nested sites, which the instrumentation writes from the inside out.
--   Validate/Bisect: internal/validate/bisect.go. Which mutants of a batch break the build; the
--     compilation is a parameter.
--   Glob: internal/glob/glob.go. The patterns that choose files.
--   Instrument/Splice: internal/instrument/splice.go. Spans of a file are replaced, with the map from
--     the offsets of the file to those of the result.
--   Execute/Schedule, Execute/Retry: internal/execute/schedule.go. Workers run the mutants, as a step
--     relation in which a claim of an index and the end of a run are one step each; then one worker
--     runs again what timed out. What a run answers and when the context is cancelled are free.
--   Execute/Running: internal/execute/run.go, RunOne. The binaries of one mutant are started in turn,
--     and again as a whole when named tests let it survive. A World is what happens outside: the
--     process that each start makes, the context, files, directories and the tree. Execute/Processes
--     has what a binary is started with and the test log it leaves (testlog.go), Execute/Attempts
--     the data of a run and the tail of an output (errors.go), Execute/Narrowing the tests that are named
--     and the environment (narrow.go, env.go, internal/testflag), Execute/Testlog the action log of a
--     test binary (internal/testlog). Execute/Retry/Surviving puts RunOne under the schedule.
--   Probe: internal/probe/settle.go. Which mutants a probed run settles without running them.
--   Operators: internal/operatorselect/operatorselect.go. The rules that a user's choice names.
--   Changes, Changes/Signed, Changes/Parsing: internal/gitdiff/parse.go and gitdiff.go. The
--     changed line ranges that a unified diff names, and their merging: in Changes where no end is
--     negative, in Changes/Signed also where the last line of a hunk has wrapped. Changes/Selecting:
--     selection.go of the root package, the lines that a caller selects.
--   Coverage, Coverage/Grouping, Coverage/Textfmt: internal/coverage/map.go, tests.go and textfmt.go.
--     Profiles are parsed, indexed by file and searched for the lines of a mutant.
--   Report: internal/report/utf16.go. Lines and columns of the source that a report shows.
--   Mutation/Shard, Report/Sharded, Report/Merging: internal/mutation/shard.go and internal/report/merge.go. The
--     shard of a mutant, and the merge of the reports of a run's shards; SHA-256 and the reading of a time
--     are parameters.
--   Drift: internal/drift/drift.go. Changes to a snapshot that instrumentation does not explain.
--   Tests: runs at concrete inputs.
-- A registry gives rules their order, spans and identities make candidates, the forest and the
-- bisection work on spans and mutants, splices write them into the files, profiles and a probed run
-- narrow what has to be run, the schedule runs it, and outcomes are tallied into a verdict.
--
-- Conventions. Strings are lists of bytes, integers that the code never makes negative are natural
-- numbers, Go maps are association lists of which the newest entry counts, and errors are results;
-- the text of an error is kept where it is data. An integer that must be at least 1 and is refused
-- below that is a natural number too, zero standing for all that is refused. Where the code adds to an
-- int that its input can make as large as it likes, the sum wraps at 2 ^ 63: the last line of a hunk
-- (Prelude/Ints) and the line behind a covered interval (Coverage.le_next). How many texts a slice can
-- have room for is a parameter of the merge of reports, which panics above it.
--
-- Fuel. The bisection halves its batch and gets one more than the batch's length; Walk gets one
-- round for each node; InnerFirst two for each node; decimal digits one for each unit and one
-- more; the binary search one for each element. The theorems exclude that it runs out.
--
-- Not modelled: processes, files, time, the Go compiler, syntax trees, terminals and JSON; the blocks
-- of a report that internal/report/build.go builds; the sessions of the root package and
-- internal/engine, which put the parts together; and the second program under goatest.
pub mod Prelude
pub mod Mutation
pub mod Interval
pub mod Validate
pub mod Glob
pub mod Operators
pub mod Changes
pub mod Drift
pub mod Coverage
pub mod Probe
pub mod Instrument
pub mod Execute
pub mod Report
pub mod Tests
