-- ===== src/Mutation/Catalog/Assembly.antt =====
-- internal/mutation/catalog.go: `Build`, and the lookups in a catalogue.
use go_mutants.Prelude.{
  ℕ, not, ◌||◌, Option, none, some, List, [], ◌∷◌, map, Bytes, leb, ltb, length, keep, get_elem?,
  if◌then◌else◌,
}
use go_mutants.Prelude.Checks.{Checks, ok, err, ◌>>=◌, ◌>>◌, guard}
use go_mutants.Prelude.Decimal.{itoa}
use go_mutants.Prelude.Maps.{get}
use go_mutants.Prelude.Sorting.{sort_by}
use go_mutants.Prelude.Text.{hex, has_prefix}
use go_mutants.Mutation.Rule.{position, unknown_rule}
use go_mutants.Mutation.Identity.{
  identity_id, is_lower_hex_prefix, id_hex_length, min_prefix_length, uint32_mod,
}
use go_mutants.Mutation.Candidate.{
  Candidate, CatalogError, of_rule, catalog_too_large, invalid_prefix, mutant_not_found,
  ambiguous_prefix, from_identity, Builder, identity_of,
}
use go_mutants.Mutation.Catalog.{
  Mutant, Entry, compare_entries, dedup, number_mutants, effective_display_length,
  assign_display_ids, write_unchecked, write_ids, catalog_domain, Catalog, index_from,
}

module _ (sha256 : Bytes → Bytes) where
  unfoldable pub entry_of : Builder → Candidate → Checks CatalogError Entry
  unfolding identity_id identity_of position
  entry_of b c = do
    id ← from_identity (identity_id sha256 (identity_of sha256 c))
    elim (position b.registry c.rule.name) [
      | none ↦ err (of_rule unknown_rule)
      | some p ↦ ok (record { candidate = c; id = id; position = p })
    ]

  unfoldable pub entries_of : Builder → List Candidate → Checks CatalogError (List Entry)
  entries_of b [] = ok []
  entries_of b (c ∷ cs) = do e ← entry_of b c; es ← entries_of b cs; ok (e ∷ es)

  unfoldable pub catalog_digest : List Mutant → Bytes
  unfolding write_ids hex
  catalog_digest ms = hex (
      sha256
        (write_ids (write_unchecked (write_unchecked [] catalog_domain) (itoa (length ms))) ms))

  unfoldable pub build_catalog : Builder → Checks CatalogError Catalog
  unfolding entries_of entry_of dedup compare_entries assign_display_ids catalog_digest
  build_catalog b = do
    guard (ltb (length b.candidates) uint32_mod) catalog_too_large
    entries ← entries_of b b.candidates
    let kept_dups = dedup (sort_by compare_entries entries)
    let length = effective_display_length b
    mutants ← assign_display_ids (number_mutants 0 kept_dups.0) length
    ok (record {
      mutants = mutants;
      duplicates = kept_dups.1;
      by_ids = index_from (λ m. m.id) 0 mutants [];
      by_display_ids = index_from (λ m. m.display_id) 0 mutants [];
      display_length = length;
      digest = catalog_digest mutants;
    })

unfoldable pub mutant_by_index : Catalog → ℕ → Option Mutant
mutant_by_index c index = if leb (length c.mutants) index then none else get_elem? c.mutants index

abbrev pub at_found : Catalog → Option ℕ → Option Mutant
at_found c none = none
at_found c (some i) = get_elem? c.mutants i

unfoldable pub mutant_by_id : Catalog → Bytes → Option Mutant
mutant_by_id c id = at_found c (get id c.by_ids)

unfoldable pub mutant_by_display_id : Catalog → Bytes → Option Mutant
mutant_by_display_id c id = at_found c (get id c.by_display_ids)

-- The switch on the number of matches.
unfoldable pub only_match : List Mutant → Checks CatalogError Mutant
only_match [] = err mutant_not_found
only_match (m ∷ []) = ok m
only_match (m ∷ n ∷ ms) = err (ambiguous_prefix (map (λ x. x.display_id) (m ∷ n ∷ ms)))

unfoldable pub resolve_prefix : Catalog → Bytes → Checks CatalogError Mutant
unfolding is_lower_hex_prefix only_match
resolve_prefix c prefix = do
  guard
      (not (
        ltb (length prefix) min_prefix_length
        || ltb id_hex_length (length prefix)
        || not (is_lower_hex_prefix prefix)))
      invalid_prefix
  only_match (keep (λ m. has_prefix prefix m.id) c.mutants)
