-- ===== src/Coverage/Grouping/Joining.antt =====
-- `groupByFile` puts each mutant into one group, that of its file.
use go_mutants.Prelude.{
  ℕ, zero, suc, ◌+◌, ◌<◌, ◌≡◌, ◌≢◌, refl, sym, ap, ◌∙◌, subst, inl, inr, true, false, Bool-cases,
  some, Option-cases, some-inj, List, [], ◌∷◌, ◌++◌, append-nil, Bytes, str_eq, str_eq→≡, ◌==◌,
  length, get_elem?, arith,
}
use go_mutants.Prelude.Arrays.{modify, get_elem?-modify_same, get_elem?-modify_other}
use go_mutants.Prelude.Maps.{Map, get, put}
use go_mutants.Coverage.{Mutant, profile_path}
use go_mutants.Coverage.Grouping.{
  PlacedMutant, FileGroup, Groups, join_group, add_placed, placed_at, group_from, group_by_file,
}
use go_mutants.Coverage.Grouping.Entries.{
  own, entries, entries-append, other_entry, own_entry, entries-modify_other, entries-modify_own,
}

-- The map of `groupByFile` leads to the groups of its paths.
abbrev Known : Groups → Type 0
Known acc =
    (path : Bytes) (k : ℕ)
    → get path acc.1 ≡ some k
    → (g : FileGroup) × (get_elem? acc.0 k ≡ some g) × (g.path ≡ path)

module _ {ℓ} {A : Type ℓ} where
  get_elem?-append :
      (xs ys : List A) (k : ℕ) (x : A) → get_elem? xs k ≡ some x → get_elem? (xs ++ ys) k ≡ some x
  get_elem?-append [] ys k x e = absurd (cc)
  get_elem?-append (y ∷ xs) ys zero x e = e
  get_elem?-append (y ∷ xs) ys (suc k) x e = get_elem?-append xs ys k x e

  get_elem?-end : (xs : List A) (x : A) → get_elem? (xs ++ x ∷ []) (length xs) ≡ some x
  get_elem?-end [] x = refl
  get_elem?-end (y ∷ xs) x = get_elem?-end xs x

modify-Known :
    (groups : List FileGroup) (at : Map ℕ) (index : ℕ) (p : PlacedMutant)
    → Known (groups, at)
    → Known (modify groups index (join_group p), at)
modify-Known groups at index p known path k e =
    let (g, found, same) = known path k e in
    elim (Bool-cases (k == index)) [
      | inl q ↦
          let here : k ≡ index = ground (arith, q) in
          (
            join_group p g,
            ap (get_elem? (modify groups index (join_group p))) here
                ∙ get_elem?-modify_same groups index g (join_group p)
                    (ap (get_elem? groups) (sym here) ∙ found),
            same,
          )
      | inr q ↦ (
        g,
        get_elem?-modify_other groups index k (join_group p) (λ r. absurd (ground (arith, q, r)))
            ∙ found,
        same,
      )
    ]

-- What one mutant does to the groups.
record Grouped (path : Bytes) (p : PlacedMutant) (acc acc' : Groups) : Type 0 where
  known : Known acc'
  others : (i : ℕ) → p.at == i ≡ false → entries i acc'.0 ≡ entries i acc.0
  own : (i : ℕ) → p.at == i ≡ true → entries i acc.0 ≡ [] → entries i acc'.0 ≡ (path, p) ∷ []

opened-Grouped :
    (path : Bytes) (p : PlacedMutant) (groups : List FileGroup) (at : Map ℕ)
    → Known (groups, at)
    → Grouped path p
        (groups, at)
        (groups ++ record { path = path; mutants = p ∷ [] } ∷ [], put path (length groups) at)
opened-Grouped path p groups at known = record {
  known = λ path' k e. elim (Bool-cases (str_eq path path')) [
    | inl q ↦
        let here : length groups ≡ k = some-inj (rw (q, get) at e) in
        (
          g,
          ap (get_elem? (groups ++ g ∷ [])) (sym here) ∙ get_elem?-end groups g,
          str_eq→≡ path path' q,
        )
    | inr q ↦
        let (h, found, same) = known path' k (rw (q, get) at e) in
        (h, get_elem?-append groups (g ∷ []) k h found, same)
  ];
  others = λ i d.
      entries-append i groups (g ∷ [])
      ∙ (ap (λ l. entries i groups ++ (l ++ [])) (other_entry i p path d)
          ∙ append-nil (entries i groups));
  own = λ i e h.
      entries-append i groups (g ∷ [])
      ∙ (ap (λ l. l ++ (own i path (p ∷ []) ++ [])) h
          ∙ (append-nil (own i path (p ∷ [])) ∙ own_entry i p path e));
}
  where
    g : FileGroup
    g = record { path = path; mutants = p ∷ [] }

add_placed-Grouped :
    (path : Bytes) (p : PlacedMutant) (acc : Groups)
    → Known acc
    → Grouped path p acc (add_placed path p acc)
add_placed-Grouped path p (groups, at) known = elim (Option-cases (get path at)) [
  | inl e ↦ rw (e, add_placed) (opened-Grouped path p groups at known)
  | inr (k, e) ↦
      let (g, found, same) = known path k e in
      rw (e, add_placed)
        (record {
          known = modify-Known groups at k p known;
          others = λ i d. entries-modify_other i p groups k d;
          own = λ i q h. entries-modify_own i p groups k g q h found ∙ ap (λ y. (y, p) ∷ []) same;
        })
]

equal-false : (a b : ℕ) → a ≢ b → (a == b) ≡ false
equal-false a b d = ground arith

equal-true : (a : ℕ) → (a == a) ≡ true
equal-true a = ground arith

module _ (module_path : Bytes) where
  group_from-before :
      (ms : List Mutant) (j : ℕ) (acc : Groups) (i : ℕ)
      → Known acc
      → i < j
      → entries i (group_from module_path j ms acc).0 ≡ entries i acc.0
  unfolding group_from
  group_from-before [] j acc i known h = refl
  group_from-before (m ∷ ms) j acc i known h =
      let step = add_placed-Grouped (profile_path module_path m) (placed_at j m) acc known in
      group_from-before ms (suc j) (add_placed (profile_path module_path m) (placed_at j m) acc) i
        step.known (omega arith)
      ∙ step.others i (equal-false j i (λ e. omega arith))

  group_from-entries :
      (ms : List Mutant) (j : ℕ) (acc : Groups) (k : ℕ) (m : Mutant)
      → Known acc
      → entries (k + j) acc.0 ≡ []
      → get_elem? ms k ≡ some m
      → entries (k + j) (group_from module_path j ms acc).0
        ≡ (profile_path module_path m, placed_at (k + j) m) ∷ []
  unfolding group_from
  group_from-entries [] j acc k m known h at = absurd (cc)
  group_from-entries (n ∷ ms) j acc zero m known h at =
      let path = profile_path module_path n in
      let step = add_placed-Grouped path (placed_at j n) acc known in
      let zero_j : zero + j ≡ j = omega arith in
      subst
        (λ i.
          entries i (group_from module_path j (n ∷ ms) acc).0
          ≡ (profile_path module_path m, placed_at i m) ∷ [])
        (sym zero_j)
        (group_from-before ms (suc j) (add_placed path (placed_at j n) acc) j step.known
            (omega arith)
          ∙ (step.own j (equal-true j) (subst (λ i. entries i acc.0 ≡ []) zero_j h)
              ∙ ap (λ y. (profile_path module_path y, placed_at j y) ∷ []) (some-inj at)))
  group_from-entries (n ∷ ms) j acc (suc k) m known h at =
      let path = profile_path module_path n in
      let step = add_placed-Grouped path (placed_at j n) acc known in
      let next : suc k + j ≡ k + suc j = omega arith in
      subst
        (λ i.
          entries i (group_from module_path j (n ∷ ms) acc).0
          ≡ (profile_path module_path m, placed_at i m) ∷ [])
        (sym next)
        (group_from-entries ms (suc j) (add_placed path (placed_at j n) acc) k m step.known
          (step.others (k + suc j) (equal-false j (k + suc j) (λ e. omega arith))
            ∙ subst (λ i. entries i acc.0 ≡ []) next h)
          at)

pub group_by_file-entries :
    (module_path : Bytes) (ms : List Mutant) (i : ℕ) (m : Mutant)
    → get_elem? ms i ≡ some m
    → entries i (group_by_file module_path ms) ≡ (profile_path module_path m, placed_at i m) ∷ []
group_by_file-entries module_path ms i m at =
    let same : i + 0 ≡ i = omega arith in
    subst
      (λ k.
        entries k (group_by_file module_path ms) ≡ (profile_path module_path m, placed_at k m) ∷ [])
      same (group_from-entries module_path ms 0 ([], []) i m (λ path k e. absurd (cc)) refl at)
