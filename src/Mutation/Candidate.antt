-- ===== src/Mutation/Candidate.antt =====
-- internal/mutation/catalog.go: the candidates, and the builder that they are added to. SHA-256 is
-- a parameter, as in Mutation/Identity.
use go_mutants.Prelude.{
  ℕ, Bool, true, false, not, ◌&&◌, Option, none, some, List, [], ◌∷◌, ◌++◌, Bytes, ◌==◌, str_eq,
  length, if◌then◌else◌,
}
use go_mutants.Prelude.Checks.{Checks, ok, err, ◌>>◌, guard}
use go_mutants.Prelude.Maps.{get_by}
use go_mutants.Prelude.Text.{hex}
use go_mutants.Mutation.Span.{Span, len, same}
use go_mutants.Mutation.Rule.{Rule, RuleError, Registry, rule_validate, verify}
use go_mutants.Mutation.Rule
use go_mutants.Mutation.Identity.{Identity, IdError, identity_validate, is_empty, display_id_length}
use go_mutants.Mutation.Identity

pub record Candidate : Type 0 where
  pub module_path : Bytes
  pub path : Bytes
  pub rule : Rule
  pub span : Span
  pub original : Bytes
  pub replacement : Bytes
  pub source_digest : Bytes

-- A collision: a display id, and the ids that it would stand for.
pub record DisplayCollision : Type 0 where
  pub display_id : Bytes
  pub ids : List Bytes

pub data CatalogError : Type 0 where
  of_rule : RuleError → CatalogError
  of_identity : IdError → CatalogError
  original_length_mismatch no_op_replacement source_digest_conflict : CatalogError
  original_conflict module_path_mixed catalog_too_large : CatalogError
  display_collisions : ℕ → List DisplayCollision → CatalogError
  invalid_prefix mutant_not_found : CatalogError
  ambiguous_prefix : List Bytes → CatalogError

abbrev pub from_rule {ℓ} : {A : Type ℓ} → Rule.Checked A → Checks CatalogError A
from_rule (Rule.ok a) = ok a
from_rule (Rule.err e) = err (of_rule e)

abbrev pub from_identity {ℓ} : {A : Type ℓ} → Identity.Checked A → Checks CatalogError A
from_identity (Identity.ok a) = ok a
from_identity (Identity.err e) = err (of_identity e)

abbrev pub FileKey : Type 0
FileKey = Bytes × Bytes

abbrev pub OriginalKey : Type 0
OriginalKey = FileKey × Span

abbrev pub file_eq : FileKey → FileKey → Bool
file_eq (m, p) (n, q) = str_eq m n && str_eq p q

abbrev pub original_eq : OriginalKey → OriginalKey → Bool
original_eq (f, s) (g, t) = file_eq f g && same s t

abbrev pub file_of : Candidate → FileKey
file_of c = (c.module_path, c.path)

pub record Builder : Type 0 where
  pub registry : Registry
  pub candidates : List Candidate
  pub display_len : ℕ
  pub digests : List (FileKey × Bytes)
  pub originals : List (OriginalKey × Bytes)

abbrev pub new_builder : Registry → Builder
new_builder r = record {
  registry = r;
  candidates = [];
  display_len = display_id_length;
  digests = [];
  originals = [];
}

-- `prev, ok := m[key]; ok && prev != value`
abbrev pub conflicts : Option Bytes → Bytes → Bool
conflicts none value = false
conflicts (some prev) value = not (str_eq prev value)

-- Whether the first candidate names a module exactly if this one does not.
abbrev pub mixes_modules : List Candidate → Candidate → Bool
mixes_modules [] c = false
mixes_modules (first ∷ _) c = elim (is_empty first.module_path) [
  | true ↦ not (is_empty c.module_path)
  | false ↦ is_empty c.module_path
]

module _ (sha256 : Bytes → Bytes) where
  abbrev pub digest_string : Bytes → Bytes
  digest_string s = hex (sha256 s)

  unfoldable pub identity_of : Candidate → Identity
  identity_of c = record {
    path = c.path;
    rule_name = c.rule.name;
    rule_version = c.rule.version;
    span = c.span;
    source_digest = c.source_digest;
    original_digest = digest_string c.original;
    replacement_digest = digest_string c.replacement;
    module_path = c.module_path;
  }

  unfoldable pub candidate_validate : Candidate → Checks CatalogError (Unit {0})
  unfolding rule_validate identity_validate identity_of len
  candidate_validate c = do
    from_rule (rule_validate c.rule)
    from_identity (identity_validate (identity_of c))
    guard (length c.original == len c.span) original_length_mismatch
    guard (not (str_eq c.replacement c.original)) no_op_replacement

  -- The checks of `Add` that come before it changes the builder.
  unfoldable pub admit : Builder → Candidate → Checks CatalogError (Unit {0})
  unfolding candidate_validate verify
  admit b c = do
    candidate_validate c
    from_rule (verify b.registry c.rule)
    guard (not (mixes_modules b.candidates c)) module_path_mixed

  -- The rest of `Add`. A builder keeps the source digest even if the original text conflicts.
  pub enter : Builder → Candidate → Builder × Checks CatalogError (Unit {0})
  enter b c =
      let key : OriginalKey = (file_of c, c.span) in
      let noted : Builder = record b { digests = (file_of c, c.source_digest) ∷ b.digests } in
      let entered : Builder = record noted {
        originals = (key, c.original) ∷ b.originals;
        candidates = b.candidates ++ c ∷ [];
      } in
      if conflicts (get_by file_eq (file_of c) b.digests) c.source_digest
      then (b, err source_digest_conflict)
      else if conflicts (get_by original_eq key b.originals) c.original
      then (noted, err original_conflict)
      else (entered, ok tt)

  unfoldable pub add : Builder → Candidate → Builder × Checks CatalogError (Unit {0})
  unfolding admit enter
  add b c = elim (admit b c) [ err e ↦ (b, err e) | ok u ↦ enter b c ]

  unfoldable pub add_all : Builder → List Candidate → Builder × Checks CatalogError (Unit {0})
  unfolding add
  add_all b [] = (b, ok tt)
  add_all b (c ∷ cs) =
      let (b', r) = add b c in elim r [ err e ↦ (b', err e) | ok u ↦ add_all b' cs ]
