-- ===== src/Tests/Catalogs.antt =====
-- A catalogue of three candidates for one operator, of which two are the same, hashed by the sum of
-- the bytes.
use go_mutants.Prelude.{ℕ, suc, zero, ◌+◌, ◌*◌, ◌%◌, ◌≡◌, refl, Bytes, List, [], ◌∷◌, codes, length}
use go_mutants.Prelude.Checks.{Checks}
use go_mutants.Prelude.Sorting.{sort_by, compare_bytes}
use go_mutants.Mutation.Rule.{
  Rule, Registry, lookup_rule, new_registry, fresh, tier_balanced, ok, err,
}
use go_mutants.Mutation.Candidate.{Candidate, CatalogError, Builder, new_builder, add_all}
use go_mutants.Mutation.Catalog.{Mutant, Catalog, Entry, dedup}
use go_mutants.Mutation.Catalog.Prefixes.{Sole, is_usable, resolve_prefix_iff}
use go_mutants.Prelude.{take, true, ◌↔◌}
use go_mutants.Prelude.Text.{has_prefix}
use go_mutants.Mutation.Catalog.Dedup.{Deduplicates, dedup-Deduplicates}
use go_mutants.Mutation.Catalog.Assembly.{build_catalog, resolve_prefix}
use go_mutants.Mutation.Catalog.Resolving.{Resolves, build_catalog-Resolves}

abbrev sum_of : Bytes → ℕ
sum_of [] = 7
sum_of (c ∷ s) = (c + 3 * sum_of s) % 256

abbrev copies : ℕ → ℕ → Bytes
copies zero c = []
copies (suc n) c = c ∷ copies n c

abbrev summed : Bytes → Bytes
summed s = copies 32 (sum_of s)

abbrev equal_to_unequal : Rule
equal_to_unequal = record {
  family = codes "comparison";
  name = codes "eq-to-neq";
  version = 1;
  tier = tier_balanced;
}

abbrev registry_of_one : Registry
registry_of_one = elim (new_registry (equal_to_unequal ∷ [])) [ ok r ↦ r | err e ↦ fresh [] ]

abbrev replacing : Bytes → Candidate
replacing replacement = record {
  module_path = [];
  path = codes "a.go";
  rule = equal_to_unequal;
  span = record { start_byte = 10; end_byte = 12 };
  original = codes "==";
  replacement = replacement;
  source_digest = codes "0123456789abcdef0123456789abcdef0123456789abcdef0123456789abcdef";
}

abbrev offered : List Candidate
offered = replacing (codes "!=") ∷ replacing (codes "<=") ∷ replacing (codes "!=") ∷ []

abbrev filled : Builder
filled = (add_all summed (new_builder registry_of_one) offered).0

abbrev nothing : Catalog
nothing = record {
  mutants = [];
  duplicates = [];
  by_ids = [];
  by_display_ids = [];
  display_length = 0;
  digest = [];
}

abbrev built : Checks CatalogError Catalog → Catalog
built (Checks.ok c) = c
built (Checks.err e) = nothing

abbrev catalog : Catalog
catalog = built (build_catalog summed filled)

catalog-sizes : length catalog.mutants ∷ length catalog.duplicates ∷ [] ≡ 2 ∷ 1 ∷ []
unfolding build_catalog add_all new_registry sort_by compare_bytes lookup_rule
catalog-sizes = refl

build_catalog-filled : build_catalog summed filled ≡ Checks.ok catalog
unfolding build_catalog add_all new_registry sort_by compare_bytes lookup_rule
build_catalog-filled = refl

build_catalog-Resolves_example : Resolves catalog
build_catalog-Resolves_example = build_catalog-Resolves summed filled catalog build_catalog-filled

abbrev entry : Bytes → Bytes → Entry
entry id replacement = record { candidate = replacing replacement; id = id; position = 0 }

abbrev some_entries : List Entry
some_entries =
    entry (codes "01") (codes "!=")
    ∷ entry (codes "01") (codes "!=")
    ∷ entry (codes "02") (codes "<=")
    ∷ []

dedup-Deduplicates_example : Deduplicates some_entries (dedup some_entries)
dedup-Deduplicates_example = dedup-Deduplicates some_entries

abbrev first_of : List Mutant → Mutant
first_of [] = record { index = 0; id = []; display_id = []; candidate = replacing [] }
first_of (m ∷ ms) = m

abbrev first : Mutant
first = first_of catalog.mutants

abbrev prefix : Bytes
prefix = take 12 first.id

resolve_prefix_iff_example :
    (resolve_prefix catalog prefix ≡ Checks.ok first)
    ↔ ((is_usable prefix ≡ true) × Sole (λ x. has_prefix prefix x.id) catalog.mutants first)
resolve_prefix_iff_example = resolve_prefix_iff catalog prefix first
