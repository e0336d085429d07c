-- ===== src/Report/Sharded.antt =====
-- What internal/report/merge.go reads of the report of a shard, and ParseShard, the shard of a command
-- line. Of a report the model has what the merge reads or changes. Numbers of shards are natural: a
-- negative one is refused as zero is.
use go_mutants.Prelude.{
  ℕ, zero, suc, Bool, true, false, ◌&&◌, ◌||◌, Option, none, some, List, [], ◌∷◌, Bytes, codes, ltb,
  leb, ◌==◌, str_eq, any, if◌then◌else◌,
}
use go_mutants.Prelude.Checks.{Checks, ok, err, ◌>>=◌, ◌>>◌, guard}
use go_mutants.Prelude.Fields.{trim_space, cut, atoi_natural}
use go_mutants.Mutation.Shard.{shard_assignment}

pub record Shard : Type 0 where
  pub index : ℕ
  pub total : ℕ
  pub assignment : Bytes

pub data ShardSpecError : Type 0 where
  invalid_shard_spec : ShardSpecError

abbrev pub shard_of : Option ℕ → Option ℕ → Checks ShardSpecError Shard
shard_of (some index) (some total) =
    if ltb total 1
    then err invalid_shard_spec
    else if ltb index 1 || ltb total index
    then err invalid_shard_spec
    else ok (record { index = index; total = total; assignment = shard_assignment })
shard_of (some index) none = err invalid_shard_spec
shard_of none total = err invalid_shard_spec

-- `ParseShard`
unfoldable pub parse_shard : Bytes → Checks ShardSpecError Shard
unfolding cut trim_space atoi_natural
parse_shard spec = elim (cut (codes "/") (trim_space spec)) [
  | none ↦ err invalid_shard_spec
  | some (index, total) ↦
      shard_of (atoi_natural (trim_space index)) (atoi_natural (trim_space total))
]

-- A row of a report. What the merge carries over unread is left out.
pub record Mutant : Type 0 where
  pub id : Bytes
  pub outcome : Bytes
  pub not_run_reason : Option Bytes
  pub duration_ms : ℕ
  pub killed_by : Option Bytes
  pub attempts : ℕ
  pub executions : List ℕ
  pub uncovered : Bool
  pub cached : Bool
  pub memory_exceeded : Bool
  pub peak_memory_bytes : ℕ

pub data Status : Type 0 where
  completed interrupted failed : Status

pub record Warning : Type 0 where
  pub code : Bytes
  pub message : Bytes

pub record Selection : Type 0 where
  pub mode : Bytes
  pub changed_ref : Option Bytes
  pub selected : ℕ

-- `merge` is the number of shards of a report that is a merge itself.
pub record Report : Type 0 where
  pub tool_version : Bytes
  pub run_id : Bytes
  pub status : Status
  pub started_at : Bytes
  pub finished_at : Bytes
  pub workspace_digest : Bytes
  pub module_path : Bytes
  pub selection : Selection
  pub shard : Option Shard
  pub merge : Option ℕ
  pub mutants : List Mutant
  pub rejected : List Bytes
  pub warnings : List Warning

-- `panicked` is a run-time panic: no report or no row where the code takes one, or a slice that is
-- too large to be made.
pub data MergeError : Type 0 where
  no_shard_reports not_a_shard_report incongruent_shards : MergeError
  incomplete_shard_set shard_ownership_mismatch invalid_timestamps : MergeError
  invalid_run_id invalid_outcome panicked : MergeError

-- A report with the shard that it is of.
pub record Part : Type 0 where
  pub shard : Shard
  pub report : Report

-- The checks of each report by itself.
abbrev pub part_of : Option Report → Checks MergeError Part
part_of none = err MergeError.no_shard_reports
part_of (some r) = elim r.shard [
  | none ↦ err MergeError.not_a_shard_report
  | some s ↦ elim r.merge [
    | none ↦ ok (record { shard = s; report = r })
    | some n ↦ err MergeError.not_a_shard_report
  ]
]

unfoldable pub parts_of : List (Option Report) → Checks MergeError (List Part)
parts_of [] = ok []
parts_of (r ∷ rs) = let rest = parts_of rs in do p ← part_of r; ps ← rest; ok (p ∷ ps)

-- The checks of the merged report: its run id, and the outcomes of its rows.
abbrev is_digit : ℕ → Bool
is_digit c = leb b'0' c && leb c b'9'

abbrev is_hex : ℕ → Bool
is_hex c = is_digit c || (leb b'a' c && leb c b'f')

abbrev repeated {ℓ} : {A : Type ℓ} → ℕ → A → List A → List A
repeated zero a rest = rest
repeated (suc n) a rest = a ∷ repeated n a rest

-- One test for each byte of `runIDPattern`.
abbrev run_id_shape : List (ℕ → Bool)
run_id_shape = repeated 8 is_digit (
    (λ c. c == b'T')
    ∷ repeated 6 is_digit ((λ c. c == b'Z') ∷ (λ c. c == b'-') ∷ repeated 4 is_hex []))

abbrev fits_shape : List (ℕ → Bool) → Bytes → Bool
fits_shape [] [] = true
fits_shape [] (c ∷ s) = false
fits_shape (p ∷ ps) [] = false
fits_shape (p ∷ ps) (c ∷ s) = p c && fits_shape ps s

unfoldable pub is_run_id : Bytes → Bool
is_run_id id = fits_shape run_id_shape id

-- Whether `Outcome.Mutation` finds the name.
unfoldable pub is_outcome : Bytes → Bool
is_outcome name = any (str_eq name) (
    codes "killed"
    ∷ codes "survived"
    ∷ codes "timed-out"
    ∷ codes "inconclusive"
    ∷ codes "errored"
    ∷ codes "not-run"
    ∷ [])

-- `Report.Tally` of the merged rows, whose numbers are left out.
unfoldable pub tallied : List Mutant → Checks MergeError (Unit {0})
unfolding is_outcome
tallied [] = ok tt
tallied (m ∷ ms) =
    let rest = tallied ms in do guard (is_outcome m.outcome) MergeError.invalid_outcome; rest
