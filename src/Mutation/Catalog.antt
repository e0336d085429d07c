-- ===== src/Mutation/Catalog.antt =====
-- internal/mutation/catalog.go: the catalogue that a builder makes of its candidates.
use go_mutants.Prelude.{
  ℕ, zero, suc, ◌%◌, ◌≤◌, Bool, true, false, not, ◌&&◌, ◌||◌, Option, none, some, List, [], ◌∷◌,
  ◌++◌, map, Bytes, codes, leb, ltb, ◌==◌, str_eq, length, take, keep, get_elem?, if◌then◌else◌,
  compare, Ordering,
}
use go_mutants.Prelude.Checks.{Checks, ok, err, ◌>>=◌, ◌>>◌, guard}
use go_mutants.Prelude.Decimal.{itoa}
use go_mutants.Prelude.Maps.{Map, get, put, get_by}
use go_mutants.Prelude.Sorting.{sort_by, then_by, compare_bytes}
use go_mutants.Prelude.Text.{hex, has_prefix}
use go_mutants.Mutation.Span.{Span, same, span_compare}
use go_mutants.Mutation.Rule.{Rule, rule_eq, position, unknown_rule}
use go_mutants.Mutation.Identity.{
  identity_id, is_lower_hex_prefix, id_hex_length, min_prefix_length, display_id_length, uint32_mod,
  write_length_prefixed,
}
use go_mutants.Mutation.Identity
use go_mutants.Mutation.Candidate.{
  Candidate, DisplayCollision, CatalogError, of_rule, catalog_too_large, display_collisions,
  invalid_prefix, mutant_not_found, ambiguous_prefix, from_identity, FileKey, file_eq, file_of,
  Builder, identity_of,
}
pub mod Assembly
pub mod Lookups
pub mod Duplicates
pub mod Dedup
pub mod Resolving
pub mod Prefixes

pub record Mutant : Type 0 where
  pub index : ℕ
  pub id : Bytes
  pub display_id : Bytes
  pub candidate : Candidate

pub data DuplicateReason : Type 0 where
  duplicate_identical duplicate_shadowed : DuplicateReason

pub record Duplicate : Type 0 where
  pub reason : DuplicateReason
  pub dropped : Candidate
  pub dropped_id : Bytes
  pub winner_id : Bytes
  pub winner_rule : Rule

pub record Entry : Type 0 where
  pub candidate : Candidate
  pub id : Bytes
  pub position : ℕ

unfoldable pub compare_entries : Entry → Entry → Ordering
unfolding span_compare compare_bytes
compare_entries x y = then_by (compare_bytes x.candidate.module_path y.candidate.module_path) (
    then_by (compare_bytes x.candidate.path y.candidate.path) (
      then_by (span_compare x.candidate.span y.candidate.span) (
        then_by (compare x.position y.position) (
          then_by (compare_bytes x.candidate.replacement y.candidate.replacement)
            (compare_bytes x.id y.id)))))

abbrev pub DedupKey : Type 0
DedupKey = FileKey × Span × Bytes

abbrev pub dedup_key : Entry → DedupKey
dedup_key e = (file_of e.candidate, e.candidate.span, e.candidate.replacement)

abbrev pub dedup_eq : DedupKey → DedupKey → Bool
dedup_eq (f, s, r) (g, t, q) = file_eq f g && (same s t && str_eq r q)

abbrev pub duplicate_of : Entry → Entry → Duplicate
duplicate_of winner e = record {
  reason =
      if rule_eq winner.candidate.rule e.candidate.rule
      then duplicate_identical
      else duplicate_shadowed;
  dropped = e.candidate;
  dropped_id = e.id;
  winner_id = winner.id;
  winner_rule = winner.candidate.rule;
}

-- The loop of `dedup`, from the winners so far: the rest of the kept entries and of the duplicates.
pub dedup_from : List (DedupKey × Entry) → List Entry → List Entry × List Duplicate
dedup_from winners [] = ([], [])
dedup_from winners (e ∷ es) = elim (get_by dedup_eq (dedup_key e) winners) [
  | none ↦ let (kept, dups) = dedup_from ((dedup_key e, e) ∷ winners) es in (e ∷ kept, dups)
  | some winner ↦ let (kept, dups) = dedup_from winners es in (kept, duplicate_of winner e ∷ dups)
]

unfoldable pub dedup : List Entry → List Entry × List Duplicate
unfolding dedup_from
dedup sorted = dedup_from [] sorted

-- `uint32(i)` for the position of each entry that was kept.
abbrev pub number_mutants : ℕ → List Entry → List Mutant
number_mutants i [] = []
number_mutants i (e ∷ es) =
    record { index = i % uint32_mod; id = e.id; display_id = []; candidate = e.candidate }
    ∷ number_mutants (suc i) es

abbrev pub effective_display_length : Builder → ℕ
effective_display_length b =
    if leb b.display_len 0 || ltb id_hex_length b.display_len
    then display_id_length
    else b.display_len

-- `byPrefix[short] = append(byPrefix[short], id)`; every key stands once, as it is iterated over.
pub append_at : Bytes → Bytes → Map (List Bytes) → Map (List Bytes)
append_at short id [] = (short, id ∷ []) ∷ []
append_at short id ((k, ids) ∷ m) =
    let rest = append_at short id m in
    if str_eq k short then (k, ids ++ id ∷ []) ∷ m else (k, ids) ∷ rest

pub group_ids : List Mutant → Map (List Bytes) → Map (List Bytes)
group_ids [] m = m
group_ids (x ∷ xs) m = group_ids xs (append_at x.display_id x.id m)

pub collisions_of : Map (List Bytes) → List DisplayCollision
collisions_of [] = []
collisions_of ((short, ids) ∷ m) =
    let rest = collisions_of m in
    if ltb (length ids) 2
    then rest
    else record { display_id = short; ids = sort_by compare_bytes ids } ∷ rest

-- `ID[:length]`: an id has 64 bytes and the length is at most that.
abbrev pub shorten : ℕ → Mutant → Mutant
shorten length m = record m { display_id = take length m.id }

unfoldable pub assign_display_ids : List Mutant → ℕ → Checks CatalogError (List Mutant)
unfolding collisions_of group_ids append_at
assign_display_ids mutants length =
    let assigned = map (shorten length) mutants in
    elim (collisions_of (group_ids assigned [])) [
      | [] ↦ ok assigned
      | c ∷ cs ↦ err (
          display_collisions length
            (sort_by (λ x y. compare_bytes x.display_id y.display_id) (c ∷ cs)))
    ]

-- The hash is left as it was by a field that is too long: the error is dropped.
abbrev pub write_unchecked : Bytes → Bytes → Bytes
write_unchecked h s = elim (write_length_prefixed h s) [ Identity.ok h' ↦ h' | Identity.err e ↦ h ]

pub write_ids : Bytes → List Mutant → Bytes
write_ids h [] = h
write_ids h (m ∷ ms) = write_ids (write_unchecked h m.id) ms

abbrev pub catalog_domain : Bytes
catalog_domain = codes "go-mutants-catalog-v1"

pub record Catalog : Type 0 where
  pub mutants : List Mutant
  pub duplicates : List Duplicate
  pub by_ids : Map ℕ
  pub by_display_ids : Map ℕ
  pub display_length : ℕ
  pub digest : Bytes

-- `for i, m := range mutants { index[key(m)] = i }`
pub index_from : (Mutant → Bytes) → ℕ → List Mutant → Map ℕ → Map ℕ
index_from key i [] index = index
index_from key i (m ∷ ms) index = index_from key (suc i) ms (put (key m) i index)
