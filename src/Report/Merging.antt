-- ===== src/Report/Merging.antt =====
-- internal/report/merge.go: the merge of the reports of all shards of a run. The coverage, cache and
-- summary blocks of a report are not built again here. A time is counted from Go's zero time, and
-- reading one is a parameter; so is `room`, the largest capacity of a slice of strings that Go makes.
use go_mutants.Prelude.{
  ℕ, zero, suc, ◌+◌, Bool, true, false, not, ◌&&◌, ◌||◌, Option, none, some, List, [], ◌∷◌, ◌++◌,
  map, Bytes, codes, leb, ltb, ◌==◌, str_eq, get_elem?, any, if◌then◌else◌, compare,
}
use go_mutants.Prelude.Maps.{get_by}
use go_mutants.Prelude.Checks.{Checks, ok, err, ◌>>=◌, ◌>>◌, guard}
use go_mutants.Prelude.Decimal.{itoa}
use go_mutants.Prelude.Sorting.{sort_by}
use go_mutants.Mutation.Shard.{shard_index}
pub use go_mutants.Report.Sharded.{
  Shard, Mutant, Status, completed, interrupted, failed, Warning, Selection, Report, MergeError,
  Part,
}
unfoldable pub use go_mutants.Report.Sharded.{part_of, parts_of, is_run_id, tallied}
pub mod Owning
pub mod Agreeing
pub mod Rows
pub mod Whole
pub mod Calm

-- `refText`
abbrev pub ref_text : Option Bytes → Bytes
ref_text none = []
ref_text (some ref) = ref

-- What `congruent` compares, but for the catalogue.
abbrev comparison : Part → List Bytes
comparison p =
    p.report.tool_version
    ∷ p.report.workspace_digest
    ∷ p.report.module_path
    ∷ itoa p.shard.total
    ∷ p.shard.assignment
    ∷ ref_text p.report.selection.changed_ref
    ∷ p.report.selection.mode
    ∷ []

-- `firstMismatch`, whose text is left out.
abbrev all_equal : List Bytes → List Bytes → Bool
all_equal [] ys = true
all_equal (x ∷ xs) [] = true
all_equal (x ∷ xs) (y ∷ ys) = str_eq x y && all_equal xs ys

abbrev same_length {ℓ} : {A : Type ℓ} → List A → List A → Bool
same_length [] [] = true
same_length [] (y ∷ ys) = false
same_length (x ∷ xs) [] = false
same_length (x ∷ xs) (y ∷ ys) = same_length xs ys

abbrev pub ids : Part → List Bytes
ids p = map (λ (m : Mutant). m.id) p.report.mutants

-- `sameCatalog`
unfoldable pub same_catalog : Part → Part → Checks MergeError (Unit {0})
same_catalog first p = do
  guard (same_length (ids first) (ids p) && same_length first.report.rejected p.report.rejected)
      MergeError.incongruent_shards
  guard (all_equal (ids first) (ids p)) MergeError.incongruent_shards
  guard (all_equal first.report.rejected p.report.rejected) MergeError.incongruent_shards

-- `congruent`, of the parts behind the first.
unfoldable pub congruent : Part → List Part → Checks MergeError (Unit {0})
congruent first [] = ok tt
congruent first (p ∷ ps) =
    let rest = congruent first ps in
    do
      guard (all_equal (comparison first) (comparison p)) MergeError.incongruent_shards
      same_catalog first p
      rest

abbrev pub Owners : Type 0
Owners = List (ℕ × Part)

abbrev pub owner : ℕ → Owners → Option Part
owner index owners = get_by (λ j k. j == k) index owners

abbrev is_absent {ℓ} : {A : Type ℓ} → Option A → Bool
is_absent none = true
is_absent (some a) = false

-- The first loop of `completeSet`.
unfoldable pub collect : ℕ → Owners → List Part → Checks MergeError Owners
collect total owners [] = ok owners
collect total owners (p ∷ ps) =
    let rest = collect total ((p.shard.index, p) ∷ owners) ps in
    do
      guard (leb 1 p.shard.index && leb p.shard.index total) MergeError.incomplete_shard_set
      guard (is_absent (owner p.shard.index owners)) MergeError.incomplete_shard_set
      rest

-- The indices from 1 on that nobody owns.
unfoldable pub missing : Owners → ℕ → List ℕ
missing owners zero = []
missing owners (suc n) =
    missing owners n ++ (if is_absent (owner (suc n) owners) then suc n ∷ [] else [])

abbrev is_nil {ℓ} : {A : Type ℓ} → List A → Bool
is_nil [] = true
is_nil (x ∷ xs) = false

-- `completeSet`
unfoldable pub complete_set : ℕ → List Part → ℕ → Checks MergeError Owners
complete_set room parts total = do
  owners ← collect total [] parts
  guard (leb total room) MergeError.panicked
  guard (is_nil (missing owners total)) MergeError.incomplete_shard_set
  ok owners

-- Whether a row says that another shard runs the mutant.
abbrev pub disclaimed : Mutant → Bool
disclaimed m =
    str_eq m.outcome (codes "not-run")
    && (elim m.not_run_reason [ none ↦ false | some why ↦ str_eq why (codes "other-shard") ])

-- What the merge clears in a row.
abbrev pub cleared : Mutant → Mutant
cleared m = record m { executions = []; peak_memory_bytes = 0; memory_exceeded = false }

module _ (sha256 : Bytes → Bytes) where
  unfoldable pub owns_row : Shard → Mutant → Checks MergeError (Unit {0})
  owns_row s m =
      if (shard_index sha256 m.id s.total == s.index) && disclaimed m
      then err MergeError.shard_ownership_mismatch
      else if not (shard_index sha256 m.id s.total == s.index) && not (disclaimed m)
      then err MergeError.shard_ownership_mismatch
      else ok tt

  unfoldable pub owns_rows : Shard → List Mutant → Checks MergeError (Unit {0})
  owns_rows s [] = ok tt
  owns_rows s (m ∷ ms) = let rest = owns_rows s ms in do owns_row s m; rest

  -- `ownership`
  unfoldable pub ownership : List Part → Checks MergeError (Unit {0})
  ownership [] = ok tt
  ownership (p ∷ ps) = let rest = ownership ps in do owns_rows p.shard p.report.mutants; rest

  -- `owners[mutation.ShardIndex(m.ID, total)].Mutants[i]`
  abbrev row_at : Owners → ℕ → ℕ → Mutant → Option Mutant
  row_at owners total i m = elim (owner (shard_index sha256 m.id total) owners) [
    | none ↦ none
    | some p ↦ get_elem? p.report.mutants i
  ]

  -- The loop over the rows of the first report, the first of them at index `i`.
  unfoldable pub merge_rows : Owners → ℕ → ℕ → List Mutant → Checks MergeError (List Mutant)
  merge_rows owners total i [] = ok []
  merge_rows owners total i (m ∷ ms) =
      let rest = merge_rows owners total (suc i) ms in
      elim (row_at owners total i m) [
        | none ↦ err MergeError.panicked
        | some row ↦ rest >>= λ rows. ok (cleared row ∷ rows)
      ]

abbrev rank : Status → ℕ
rank completed = 0
rank interrupted = 1
rank failed = 2

-- `mergedStatus`
abbrev worse : Status → Status → Status
worse worst s = if ltb (rank worst) (rank s) then s else worst

unfoldable pub merged_status : Status → List Part → Status
merged_status worst [] = worst
merged_status worst (p ∷ ps) = merged_status (worse worst p.report.status) ps

abbrev selected_in : List Part → ℕ
selected_in [] = 0
selected_in (p ∷ ps) = p.report.selection.selected + selected_in ps

-- `mergedSelection`
unfoldable pub merged_selection : Part → List Part → Selection
merged_selection first parts = record first.report.selection {
  mode = elim first.report.selection.changed_ref [
    | none ↦ codes "all"
    | some ref ↦ codes "changed"
  ];
  selected = selected_in parts;
}

abbrev same_warning : Warning → Warning → Bool
same_warning a b = str_eq a.code b.code && str_eq a.message b.message

unfoldable pub unseen : List Warning → List Warning → List Warning
unseen seen [] = []
unseen seen (w ∷ ws) =
    let rest = unseen (seen ++ w ∷ []) ws in
    let skipped = unseen seen ws in
    elim (any (λ s. same_warning s w) seen) [ true ↦ skipped | false ↦ w ∷ rest ]

pub all_warnings : List Part → List Warning
all_warnings [] = []
all_warnings (p ∷ ps) = p.report.warnings ++ all_warnings ps

-- `mergedWarnings`
unfoldable pub merged_warnings : List Part → List Warning
unfolding unseen all_warnings sort_by
merged_warnings parts =
    unseen [] (all_warnings (sort_by (λ (x y : Part). compare x.shard.index y.shard.index) parts))

module _ (parse_time : Bytes → Option ℕ) where
  abbrev timestamp : Bytes → Checks MergeError ℕ
  timestamp value = elim (parse_time value) [
    | none ↦ err MergeError.invalid_timestamps
    | some moment ↦ ok moment
  ]

  abbrev earlier : ℕ → ℕ → ℕ
  earlier started from = if started == 0 || ltb from started then from else started

  abbrev later : ℕ → ℕ → ℕ
  later finished to = if ltb finished to then to else finished

  -- The loop of `span`.
  unfoldable pub span_from : ℕ → ℕ → List Part → Checks MergeError (ℕ × ℕ)
  span_from started finished [] = ok (started, if ltb finished started then started else finished)
  span_from started finished (p ∷ ps) = do
    from ← timestamp p.report.started_at
    to ← timestamp p.report.finished_at
    span_from (earlier started from) (later finished to) ps

-- What is built of the merged report.
pub record Merged : Type 0 where
  pub run_id : Bytes
  pub tool_version : Bytes
  pub status : Status
  pub started : ℕ
  pub finished : ℕ
  pub selection : Selection
  pub shards : ℕ
  pub mutants : List Mutant
  pub rejected : List Bytes
  pub warnings : List Warning

-- The report that is built of the merged rows.
abbrev pub merged_report : Bytes → Part → List Part → List Mutant → ℕ × ℕ → Merged
merged_report run_id first others rows times = record {
  run_id = run_id;
  tool_version = first.report.tool_version;
  status = merged_status completed (first ∷ others);
  started = times.0;
  finished = times.1;
  selection = merged_selection first (first ∷ others);
  shards = first.shard.total;
  mutants = rows;
  rejected = first.report.rejected;
  warnings = merged_warnings (first ∷ others);
}

module _ (sha256 : Bytes → Bytes) (parse_time : Bytes → Option ℕ) (room : ℕ) (run_id : Bytes) where
  unfoldable pub build_merged : Part → List Part → List Mutant → Checks MergeError Merged
  unfolding is_run_id tallied
  build_merged first others rows = do
    times ← span_from parse_time 0 0 (first ∷ others)
    guard (is_run_id run_id) MergeError.invalid_run_id
    tallied rows
    ok (merged_report run_id first others rows times)

  -- What follows `completeSet`.
  unfoldable pub merge_owned : Part → List Part → Owners → Checks MergeError Merged
  merge_owned first others owners = do
    ownership sha256 (first ∷ others)
    rows ← merge_rows sha256 owners first.shard.total 0 first.report.mutants
    build_merged first others rows

  -- `MergeShards` from `congruent` on.
  unfoldable pub merge_parts : Part → List Part → Checks MergeError Merged
  merge_parts first others = do
    congruent first others
    owners ← complete_set room (first ∷ others) first.shard.total
    merge_owned first others owners

  -- `MergeShards`
  unfoldable pub merge_shards : List (Option Report) → Checks MergeError Merged
  unfolding parts_of
  merge_shards shards = parts_of shards >>= λ parts. elim parts [
    | [] ↦ err MergeError.no_shard_reports
    | first ∷ others ↦ merge_parts first others
  ]
