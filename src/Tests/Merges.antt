-- ===== src/Tests/Merges.antt =====
-- A run of two mutants in two shards, merged with the second shard's report first. The first byte of
-- an id stands for its hash.
use go_mutants.Prelude.{
  arith, ℕ, ◌≡◌, refl, true, false, none, some, List, [], ◌∷◌, Bytes, Option, codes,
}
use go_mutants.Prelude.Checks.{ok, err}
use go_mutants.Prelude.Decimal.{itoa}
use go_mutants.Mutation.Shard.{shard_index, big_endian, shard_assignment}
use go_mutants.Report.Merging.{
  Mutant, Report, Merged, completed, cleared, merge_shards, merge_parts, merge_owned, build_merged,
  congruent, same_catalog, complete_set, collect, missing, ownership, owns_rows, owns_row,
  merge_rows, span_from, is_run_id, tallied, MergeError, merged_status, merged_selection,
  merged_warnings,
}
use go_mutants.Report.Merging.Whole.{Merges, merge_shards-Merges}
use go_mutants.Report.Merging.Calm.{IsCalm, merge_shards-IsCalm}

abbrev hash : Bytes → Bytes
hash id = id

abbrev moment : Bytes → Option ℕ
moment s = elim s [ [] ↦ none | c ∷ t ↦ some c ]

abbrev run : Bytes
run = codes "20260218T091500Z-3f9c"

abbrev row : Bytes → Bytes → Option Bytes → Mutant
row id outcome reason = record {
  id = id;
  outcome = outcome;
  not_run_reason = reason;
  duration_ms = 5;
  killed_by = none;
  attempts = 1;
  executions = 3 ∷ [];
  uncovered = false;
  cached = false;
  memory_exceeded = true;
  peak_memory_bytes = 9;
}

abbrev elsewhere : Bytes → Mutant
elsewhere id = row id (codes "not-run") (some (codes "other-shard"))

abbrev report : ℕ → List Mutant → Report
report index mutants = record {
  tool_version = codes "1";
  run_id = codes "r";
  status = completed;
  started_at = codes "3";
  finished_at = codes "4";
  workspace_digest = codes "w";
  module_path = codes "m";
  selection = record { mode = codes "shard"; changed_ref = none; selected = 1 };
  shard = some (record { index = index; total = 2; assignment = shard_assignment });
  merge = none;
  mutants = mutants;
  rejected = [];
  warnings = [];
}

abbrev shards : List (Option Report)
shards =
    some (report 2 (elsewhere (codes "b") ∷ row (codes "a") (codes "survived") none ∷ []))
    ∷ some (report 1 (row (codes "b") (codes "killed") none ∷ elsewhere (codes "a") ∷ []))
    ∷ []

abbrev merged : Merged
merged = record {
  run_id = run;
  tool_version = codes "1";
  status = completed;
  started = 51;
  finished = 52;
  selection = record { mode = codes "all"; changed_ref = none; selected = 2 };
  shards = 2;
  mutants =
      cleared (row (codes "b") (codes "killed") none)
      ∷ cleared (row (codes "a") (codes "survived") none)
      ∷ [];
  rejected = [];
  warnings = [];
}

merges : merge_shards hash moment 16 run shards ≡ ok merged
unfolding merge_shards merge_parts merge_owned build_merged congruent same_catalog complete_set
    collect missing ownership owns_rows owns_row merge_rows span_from merged_status merged_selection
    merged_warnings is_run_id tallied shard_index big_endian itoa
merges = refl

merge_shards-Merges_example : Merges hash shards merged
merge_shards-Merges_example = merge_shards-Merges hash moment 16 run shards merged merges

merge_shards-IsCalm_example : IsCalm (merge_shards hash moment 16 run shards)
merge_shards-IsCalm_example = merge_shards-IsCalm hash moment 16 run shards (omega arith)

-- A report that names more shards than there is room for stops the merge by a panic.
merge_shards-panics : merge_shards hash moment 1 run shards ≡ err MergeError.panicked
unfolding merge_shards merge_parts congruent same_catalog complete_set collect itoa
merge_shards-panics = refl
