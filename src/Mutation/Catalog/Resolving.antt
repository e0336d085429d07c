-- ===== src/Mutation/Catalog/Resolving.antt =====
-- A catalogue that was built finds each of its mutants by id, display id and index.
use go_mutants.Prelude.{
  ℕ, zero, suc, ◌+◌, ◌%◌, ◌≤◌, ◌<◌, ◌≡◌, refl, sym, ap, ◌∙◌, inl, inr, true, Bool-cases,
  Option-cases, some, List, [], ◌∷◌, map, Bytes, ltb, ltb→lt, str_eq, str_eq→≡, str_eq_self, length,
  take, get_elem?, arith, some_eq, subst,
}
use go_mutants.Prelude.Checks.{Checks, ok, err, guard, bind-ok, guard-ok, ok_eq}
use go_mutants.Prelude.Maps.{get, get_by}
use go_mutants.Prelude.Sorting.{sort_by, total_by, sort_by-total, compare_bytes}
use go_mutants.Mutation.Identity.{uint32_mod}
use go_mutants.Mutation.Candidate.{
  Candidate, DisplayCollision, CatalogError, Builder, catalog_too_large, display_collisions,
}
use go_mutants.Mutation.Catalog.{
  Mutant, Entry, group_ids, collisions_of, assign_display_ids, shorten, index_from, Catalog,
  number_mutants, dedup, dedup_from, DedupKey, dedup_eq, dedup_key, compare_entries,
  effective_display_length,
}
use go_mutants.Mutation.Catalog.Assembly.{
  build_catalog, entries_of, entry_of, mutant_by_index, mutant_by_id, mutant_by_display_id,
  at_found,
}
use go_mutants.Mutation.Catalog.Lookups.{
  count_key, group_size-group_ids, collisions_of-none, index_from-found,
}

assign_display_ids-ok :
    (ms : List Mutant) (n : ℕ) (ms' : List Mutant)
    → assign_display_ids ms n ≡ ok ms'
    → (map (shorten n) ms ≡ ms')
      × ((k : Bytes) → count_key (λ x. x.display_id) k (map (shorten n) ms) ≤ 1)
unfolding assign_display_ids
assign_display_ids-ok ms n ms' h = go (collisions_of (group_ids (map (shorten n) ms) [])) refl h
  where
    go :
        (cs : List DisplayCollision)
        → collisions_of (group_ids (map (shorten n) ms) []) ≡ cs
        → ◌≡◌ {A = Checks CatalogError (List Mutant)}
            (elim cs [
              | [] ↦ ok (map (shorten n) ms)
              | c ∷ cs' ↦ err (
                  display_collisions n
                    (sort_by (λ x y. compare_bytes x.display_id y.display_id) (c ∷ cs')))
            ])
            (ok ms')
        → (map (shorten n) ms ≡ ms')
          × ((k : Bytes) → count_key (λ x. x.display_id) k (map (shorten n) ms) ≤ 1)
    go [] e h = (
      ok_eq h,
      λ k. omega (
        arith,
        collisions_of-none k (group_ids (map (shorten n) ms) []) e,
        group_size-group_ids k (map (shorten n) ms) [],
      ),
    )
    go (c ∷ cs) e h = cc

count_ids-shorten :
    (n : ℕ) (k : Bytes) (ms : List Mutant)
    → count_key (λ x. x.id) k (map (shorten n) ms)
      ≤ count_key (λ x. x.display_id) (take n k) (map (shorten n) ms)
count_ids-shorten n k [] = omega arith
count_ids-shorten n k (m ∷ ms) = elim (Bool-cases (str_eq m.id k)) [
  | inl e ↦
      let short : str_eq (take n m.id) (take n k) ≡ true =
        ap (λ s. str_eq (take n s) (take n k)) (str_eq→≡ m.id k e) ∙ str_eq_self (take n k) in
      rw (e, short) (omega (arith, count_ids-shorten n k ms))
  | inr e ↦ rw e (ground (arith, count_ids-shorten n k ms))
]

index_of_mutant :
    (n j : ℕ) (es : List Entry) (i : ℕ) (m : Mutant)
    → get_elem? (map (shorten n) (number_mutants j es)) i ≡ some m
    → (m.index ≡ (j + i) % uint32_mod) × (i < length es)
index_of_mutant n j [] i m h = cc
index_of_mutant n j (e ∷ es) zero m h =
    (sym (ap (λ x. x.index) (some_eq h)) ∙ ap (λ t. t % uint32_mod) (omega arith), omega arith)
index_of_mutant n j (e ∷ es) (suc i) m h =
    let (x, l) = index_of_mutant n (suc j) es i m h in
    (x ∙ ap (λ t. t % uint32_mod) (omega arith), omega (arith, l))

length-dedup_from :
    (winners : List (DedupKey × Entry)) (es : List Entry)
    → length (dedup_from winners es).0 ≤ length es
unfolding dedup_from
length-dedup_from winners [] = omega arith
length-dedup_from winners (e ∷ es) = elim (Option-cases (get_by dedup_eq (dedup_key e) winners)) [
  | inl none_yet ↦
      rw (none_yet, length) (omega (arith, length-dedup_from ((dedup_key e, e) ∷ winners) es))
  | inr (w, found) ↦ rw (found, length) (omega (arith, length-dedup_from winners es))
]

length-dedup : (es : List Entry) → length (dedup es).0 ≤ length es
unfolding dedup
length-dedup es = length-dedup_from [] es

length-total {ℓ} : {A : Type ℓ} (xs : List A) → length xs ≡ total_by (λ _. 1) xs
length-total [] = refl
length-total (x ∷ xs) = omega (arith, length-total xs)

length-get_elem? {ℓ} :
    {A : Type ℓ} (xs : List A) (i : ℕ) (x : A) → get_elem? xs i ≡ some x → i < length xs
length-get_elem? [] i x h = cc
length-get_elem? (y ∷ xs) zero x h = omega arith
length-get_elem? (y ∷ xs) (suc i) x h = omega (arith, length-get_elem? xs i x h)

length-entries_of :
    (sha256 : Bytes → Bytes) (b : Builder) (cs : List Candidate) (es : List Entry)
    → entries_of sha256 b cs ≡ ok es
    → length es ≡ length cs
unfolding entries_of
length-entries_of sha256 b [] es h = ap length (sym (ok_eq h))
length-entries_of sha256 b (c ∷ cs) es h =
    let (e, _, h₁) = bind-ok (entry_of sha256 b c) _ h in
    let (es', h₂, h₃) = bind-ok (entries_of sha256 b cs) _ h₁ in
    ap length (sym (ok_eq h₃)) ∙ ap suc (length-entries_of sha256 b cs es' h₂)

-- Each mutant is what the catalogue answers for its id, its display id and its index.
pub record Resolves (c : Catalog) : Type 0 where
  pub id_finds :
      (i : ℕ) (m : Mutant) → get_elem? c.mutants i ≡ some m → mutant_by_id c m.id ≡ some m
  pub display_id_finds :
      (i : ℕ) (m : Mutant)
      → get_elem? c.mutants i ≡ some m
      → mutant_by_display_id c m.display_id ≡ some m
  pub index_finds :
      (i : ℕ) (m : Mutant)
      → get_elem? c.mutants i ≡ some m
      → (m.index ≡ i) × (mutant_by_index c m.index ≡ some m)

resolves :
    (c : Catalog) (n : ℕ) (es : List Entry)
    → map (shorten n) (number_mutants 0 es) ≡ c.mutants
    → ((k : Bytes) → count_key (λ x. x.display_id) k (map (shorten n) (number_mutants 0 es)) ≤ 1)
    → length es < uint32_mod
    → c.by_ids ≡ index_from (λ m. m.id) 0 c.mutants []
    → c.by_display_ids ≡ index_from (λ m. m.display_id) 0 c.mutants []
    → Resolves c
unfolding mutant_by_id mutant_by_display_id mutant_by_index
resolves c n es same single short ids displays = record {
  id_finds = λ i m h.
      ap (at_found c) (ap (get m.id) ids ∙ found_first (λ x. x.id) i m h (single_id m.id)) ∙ h;
  display_id_finds = λ i m h.
      ap (at_found c) (
        ap (get m.display_id) displays
        ∙ found_first (λ x. x.display_id) i m h (single_display m.display_id))
      ∙ h;
  index_finds = λ i m h. (its_index i m h, by_index i m h);
}
  where
    found_first :
        (key : Mutant → Bytes) (i : ℕ) (m : Mutant)
        → get_elem? c.mutants i ≡ some m
        → count_key key (key m) c.mutants ≤ 1
        → get (key m) (index_from key 0 c.mutants []) ≡ some i
    found_first key i m h one =
        index_from-found key 0 c.mutants [] i m h one ∙ ap some (omega arith)

    single_display : (k : Bytes) → count_key (λ x. x.display_id) k c.mutants ≤ 1
    single_display k = subst (λ l. count_key (λ x. x.display_id) k l ≤ 1) same (single k)

    single_id : (k : Bytes) → count_key (λ x. x.id) k c.mutants ≤ 1
    single_id k =
        subst (λ l. count_key (λ x. x.id) k l ≤ 1) same
          (omega (arith, count_ids-shorten n k (number_mutants 0 es), single (take n k)))

    its_index : (i : ℕ) (m : Mutant) → get_elem? c.mutants i ≡ some m → m.index ≡ i
    its_index i m h =
        let (e, l) =
          index_of_mutant n 0 es i m (subst (λ l. get_elem? l i ≡ some m) (sym same) h) in
        e ∙ omega (arith, l, short)

    by_index :
        (i : ℕ) (m : Mutant) → get_elem? c.mutants i ≡ some m → mutant_by_index c m.index ≡ some m
    by_index i m h =
        let l = length-get_elem? c.mutants i m h in
        let at_i : mutant_by_index c i ≡ some m = ground (arith, l, h) in
        ap (mutant_by_index c) (its_index i m h) ∙ at_i

-- In a catalogue that `Build` returned, every mutant's index is its position, and looking up its
-- id, its display id or its index gives that mutant.
pub build_catalog-Resolves :
    (sha256 : Bytes → Bytes) (b : Builder) (c : Catalog)
    → build_catalog sha256 b ≡ ok c
    → Resolves c
unfolding build_catalog
build_catalog-Resolves sha256 b c h =
    let (_, g, h₁) = bind-ok (guard (ltb (length b.candidates) uint32_mod) catalog_too_large) _ h in
    let (entries, e, h₂) = bind-ok (entries_of sha256 b b.candidates) _ h₁ in
    let kept = (dedup (sort_by compare_entries entries)).0 in
    let n = effective_display_length b in
    let (ms, a, h₃) = bind-ok (assign_display_ids (number_mutants 0 kept) n) _ h₂ in
    let (same, single) = assign_display_ids-ok (number_mutants 0 kept) n ms a in
    let built = ok_eq h₃ in
    resolves c n kept (same ∙ ap (λ x. x.mutants) built) single
      (omega (
        arith,
        ltb→lt (length b.candidates) uint32_mod (guard-ok _ _ g),
        length-entries_of sha256 b b.candidates entries e,
        length-total entries,
        length-total (sort_by compare_entries entries),
        sort_by-total compare_entries (λ _. 1) entries,
        length-dedup (sort_by compare_entries entries),
      ))
      (subst (λ x. x.by_ids ≡ index_from (λ m. m.id) 0 x.mutants []) built refl)
      (subst (λ x. x.by_display_ids ≡ index_from (λ m. m.display_id) 0 x.mutants []) built refl)
