-- ===== src/Execute/Narrowing.antt =====
-- internal/execute/narrow.go, env.go and internal/testflag: what a test binary is started with.
use go_mutants.Prelude.{
  ℕ, Bool, true, false, not, ◌&&◌, ◌||◌, Option, none, some, List, [], ◌∷◌, ◌++◌, map, Bytes, codes,
  str_eq, any, if◌then◌else◌,
}
use go_mutants.Prelude.Maps.{Map, get_list}
use go_mutants.Prelude.Text.{has_prefix, contains_any}
use go_mutants.Prelude.Fields.{cut, is_empty}
use go_mutants.Prelude.Split.{join}
use go_mutants.Prelude.Sorting.{sort_by, compare_bytes}
use go_mutants.Execute.Attempts.{Failure, failure, mutant_invalid}
pub mod Environment

-- What the code uses of the platform and of the packages strings, regexp, time and path/filepath.
-- `absolute` and `rel` are none where those functions fail.
pub record Platform : Type 0 where
  pub windows : Bool
  pub to_upper : Bytes → Bytes
  pub equal_fold : Bytes → Bytes → Bool
  pub quote_meta : Bytes → Bytes
  pub duration_text : ℕ → Bytes
  pub absolute : Bytes → Option Bytes
  pub rel : Bytes → Bytes → Option Bytes
  pub eval_symlinks : Bytes → Option Bytes
  pub join_path : Bytes → Bytes → Bytes

-- `testflag.Match`, the name first.
abbrev pub match_flag : Bytes → Bytes → Bool
match_flag name argument =
    let short = codes "-" ++ name in
    let long = codes "--" ++ name in
    str_eq argument short
    || (has_prefix (short ++ codes "=") argument
        || (str_eq argument long || has_prefix (long ++ codes "=") argument))

abbrev pub overrides_timeout : List Bytes → Bool
overrides_timeout args = any (match_flag (codes "test.timeout")) args

abbrev pub supplies_test_run : List Bytes → Bool
supplies_test_run args = any (match_flag (codes "test.run")) args

abbrev pub supplies_test_log : List Bytes → Bool
supplies_test_log args = any (match_flag (codes "test.testlogfile")) args

abbrev pub has_fuzz_argument : List Bytes → Bool
has_fuzz_argument args = any (match_flag (codes "test.fuzz")) args

abbrev pub selectable_test : Bytes → Bool
selectable_test name = not (is_empty name) && not (contains_any (codes "/ \t\n") name)

abbrev no_tests : List Bytes → Bool
no_tests [] = true
no_tests (name ∷ names) = false

-- One import path of the selection: the error that it is refused with.
abbrev refuse_tests : List Bytes → Map (List Bytes) → Bytes → Option Failure
refuse_tests started tests import_path =
    let refused : Option Failure = some (failure mutant_invalid []) in
    if not (any (str_eq import_path) started)
    then refused
    else if no_tests (get_list import_path tests)
    then refused
    else if any (λ name. not (selectable_test name)) (get_list import_path tests)
    then refused
    else none

first_refused : List Bytes → Map (List Bytes) → List Bytes → Option Failure
first_refused started tests [] = none
first_refused started tests (path ∷ paths) = elim (refuse_tests started tests path) [
  | some f ↦ some f
  | none ↦ first_refused started tests paths
]

-- `slices.Sorted(maps.Keys(tests))`
abbrev sorted_keys : Map (List Bytes) → List Bytes
sorted_keys tests = sort_by compare_bytes (map (λ entry. entry.0) tests)

-- `validateTestSelection`, the import paths of the binaries that are started second.
unfoldable pub validate_test_selection : Map (List Bytes) → List Bytes → Option Failure
unfolding first_refused sort_by compare_bytes
validate_test_selection tests started = first_refused started tests (sorted_keys tests)

-- `testRunSelector`
abbrev join_bar : List Bytes → Bytes
join_bar names = join b'|' names

unfoldable pub test_run_selector : (Bytes → Bytes) → List Bytes → Bytes
test_run_selector quote_meta names =
    (codes "-test.run=^(" ++ join_bar (map quote_meta names)) ++ codes ")$"

-- `sameEnvKey`
abbrev pub same_env_key : Platform → Bytes → Bytes → Bool
same_env_key p a b = if p.windows then p.equal_fold a b else str_eq a b

abbrev pub env_prefix : Bytes
env_prefix = codes "GO_MUTANTS_"

abbrev cover_dir_env : Bytes
cover_dir_env = codes "GOCOVERDIR"

abbrev pub active_env : Bytes
active_env = codes "GO_MUTANTS_ACTIVE"

abbrev pub loop_limits_env : Bytes
loop_limits_env = codes "GO_MUTANTS_LOOP_LIMITS"

abbrev pub temp_keys : List Bytes
temp_keys = codes "TMP" ∷ codes "TEMP" ∷ codes "TMPDIR" ∷ []

abbrev is_temp_key : Platform → Bytes → Bool
is_temp_key p key = any (λ k. same_env_key p key k) temp_keys

-- The first result of `strings.Cut(entry, "=")`
abbrev pub env_key : Bytes → Bytes
env_key entry = elim (cut (codes "=") entry) [ none ↦ entry | some (key, value) ↦ key ]

-- Whether the loop of `baseEnvFrom` skips the entry.
unfoldable pub dropped : Platform → Bytes → Bytes → Bool
dropped p scratch entry =
    if has_prefix env_prefix (p.to_upper (env_key entry))
    then true
    else if same_env_key p (env_key entry) cover_dir_env
    then true
    else not (is_empty scratch) && is_temp_key p (env_key entry)

pub kept : Platform → Bytes → List Bytes → List Bytes
kept p scratch [] = []
kept p scratch (entry ∷ source) =
    let rest = kept p scratch source in if dropped p scratch entry then rest else entry ∷ rest

abbrev pub binding : Bytes → Bytes → Bytes
binding key value = key ++ codes "=" ++ value

abbrev pub scratch_entries : Bytes → List Bytes
scratch_entries [] = []
scratch_entries (c ∷ scratch) = map (λ key. binding key (c ∷ scratch)) temp_keys

-- `baseEnvFrom`, of `os.Environ()` where the source is nil.
unfoldable pub base_env_from : Platform → List Bytes → Bytes → List Bytes
unfolding kept dropped
base_env_from p source scratch = kept p scratch source ++ scratch_entries scratch

unfoldable pub mutant_env_from : Platform → List Bytes → Bytes → Bytes → List Bytes
unfolding base_env_from
mutant_env_from p source active scratch =
    base_env_from p source scratch ++ binding active_env active ∷ []

-- `opts.LoopLimits`, where it is set.
unfoldable pub with_loop_limits : Bytes → List Bytes → List Bytes
with_loop_limits [] env = env
with_loop_limits (c ∷ limits) env = env ++ binding loop_limits_env (c ∷ limits) ∷ []
