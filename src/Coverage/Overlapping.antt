-- ===== src/Coverage/Overlapping.antt =====
-- The index of a profile by file, and its binary search.
use go_mutants.Prelude.{
  ℕ, ◌+◌, ◌≤◌, ◌<◌, ◌≡◌, refl, sym, ap, ◌∙◌, subst, inl, inr, false, Bool-cases, ◌||◌, none, some,
  List, [], ◌∷◌, leb, ltb, arith, length, get_elem?, All, All-map, ◌==◌, ==_iff,
}
use go_mutants.Prelude.Search.{Rises, find, search_list, get_elem?-search_list}
use go_mutants.Prelude.Sorting.{sort_by, sort_by-All}
use go_mutants.Changes.{max, compare_ranges, merge_from}
use go_mutants.Changes
use go_mutants.Changes.Merging.{Apart, merge-Apart}
use go_mutants.Changes.Touching.{Proper, meets, meets-merge, merge-Proper}
use go_mutants.Coverage.{Interval, max_int, le_next, join_from, merge, overlaps}

-- The interval ends where one can be added to its last line.
abbrev pub Ends : Interval → Type 0
Ends i = i.last < max_int

le_next-leb : (a b : ℕ) → b < max_int → le_next a b ≡ leb a (b + 1)
unfolding le_next
le_next-leb a b h = elim (Bool-cases (b == max_int)) [
  | inl e ↦ absurd (let same : b ≡ max_int = (==_iff b max_int).0 e in omega arith)
  | inr e ↦ rw e refl
]

max-Ends : (a b : ℕ) → a < max_int → b < max_int → max a b < max_int
max-Ends a b h k = ground arith

join_from-same :
    (i : Interval) (is : List Interval) → Ends i → All Ends is → join_from i is ≡ merge_from i is
unfolding join_from merge_from
join_from-same i [] h k = refl
join_from-same i (j ∷ is) h k = elim (Bool-cases (leb j.first (i.last + 1))) [
  | inl e ↦
      rw (le_next-leb j.first i.last h, e) (join_from-same _ is (max-Ends i.last j.last h k.0) k.1)
  | inr e ↦ rw (le_next-leb j.first i.last h, e) (ap (λ r. i ∷ r) (join_from-same j is k.0 k.1))
]

-- The two packages merge in the same way.
merge_same : (is : List Interval) → All Ends is → merge is ≡ Changes.merge is
unfolding merge Changes.merge sort_by
merge_same [] h = refl
merge_same (i ∷ []) h = refl
merge_same (i ∷ j ∷ is) h =
    sorted (sort_by compare_ranges (i ∷ j ∷ is)) (sort_by-All compare_ranges Ends (i ∷ j ∷ is) h)
  where
    sorted :
        (l : List Interval)
        → All Ends l
        → elim l [ [] ↦ [] | x ∷ r ↦ join_from x r ] ≡ Changes.merge_sorted l
    sorted [] k = refl
    sorted (x ∷ r) k = join_from-same x r k.0 k.1

module _ (start end : ℕ) where
  beyond :
      (n : ℕ) (is : List Interval)
      → All (λ i. n < i.first) is
      → end ≤ n
      → meets start end is ≡ false
  beyond n [] h k = refl
  beyond n (i ∷ is) h k = ground (arith, h.0, k, beyond n is h.1 k)

  found_decides :
      (is : List Interval)
      → Apart is
      → All Proper is
      → (elim (find (λ i. leb start i.last) is) [ none ↦ false | some i ↦ leb i.first end ])
        ≡ meets start end is
  found_decides [] a p = refl
  found_decides (i ∷ is) a p = elim (Bool-cases (leb start i.last)) [
    | inr e ↦ ground (arith, e, found_decides is a.1 p.1)
    | inl e ↦ elim (Bool-cases (leb i.first end)) [
      | inl f ↦ ground (arith, e, f)
      | inr f ↦ ground (arith, e, f, beyond (i.last + 1) is a.0, p.0)
    ]
  ]

  both :
      (n : ℕ) (is : List Interval)
      → All (λ i. n < i.first) is
      → All Proper is
      → All (λ i. n < i.last) is
  both n [] h p = tt
  both n (i ∷ is) h p = (omega (arith, h.0, p.0), both n is h.1 p.1)

  ends_Rises : (is : List Interval) → Apart is → All Proper is → Rises (λ i. leb start i.last) is
  ends_Rises [] a p = tt
  ends_Rises (i ∷ is) a p = (
    λ e. All-map _ _ is (λ j q. ground (arith, e, q)) (both (i.last + 1) is a.0 p.1),
    ends_Rises is a.1 p.1,
  )

-- Where the search stops decides.
asked :
    (l : List Interval) (start end : ℕ)
    → start ≤ end
    → overlaps l start end ≡ (elim (get_elem? l (search_list (λ i. leb start i.last) l)) [
      | none ↦ false
      | some i ↦ leb i.first end
    ])
unfolding overlaps
asked [] start end h = refl
asked (i ∷ l) start end h = rw (past, overlaps) refl
  where
    past : (leb (length (i ∷ l)) 0 || ltb end start) ≡ false
    past = ground arith

-- The search answers whether one of the blocks' intervals has a line of the mutant.
pub overlaps-meets :
    (is : List Interval) (start end : ℕ)
    → start ≤ end
    → All Proper is
    → All Ends is
    → overlaps (merge is) start end ≡ meets start end is
unfolding overlaps
overlaps-meets is start end order p ends =
    let (apart, _) = merge-Apart is in
    let proper = merge-Proper is p in
    let same = merge_same is ends in
    let merged = subst Apart (sym same) apart in
    let kept = subst (All Proper) (sym same) proper in
    overlaps_found (merge is) merged kept
    ∙ (ap (meets start end) same ∙ meets-merge start end is order p)
  where
    overlaps_found :
        (l : List Interval) → Apart l → All Proper l → overlaps l start end ≡ meets start end l
    overlaps_found [] a q = refl
    overlaps_found (i ∷ l) a q =
        asked (i ∷ l) start end order
        ∙ (ap (λ o. elim o [ none ↦ false | some i ↦ leb i.first end ])
              (get_elem?-search_list (λ i. leb start i.last) (i ∷ l)
                (ends_Rises start end (i ∷ l) a q))
            ∙ found_decides start end (i ∷ l) a q)
