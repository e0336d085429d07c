-- ===== src/Coverage/Grouping/Sharing.antt =====
-- What the three loops of `MapTests` add to the tests of one mutant.
use go_mutants.Prelude.{
  ℕ, ◌≡◌, refl, sym, ap, ◌∙◌, subst, inl, inr, true, Bool-cases, ◌&&◌, some, List, [], ◌∷◌, ◌++◌,
  append-nil, append_assoc, Bytes, leb, ◌==◌, length, get_elem?, if◌then◌else◌, arith,
}
use go_mutants.Prelude.Arrays.{modify, get_elem?-modify_same, get_elem?-modify_other}
use go_mutants.Prelude.Maps.{get_list}
use go_mutants.Coverage.{Interval, FileIndex, overlaps}
use go_mutants.Coverage.Grouping.{
  TestKey, PlacedMutant, FileGroup, cover_mutants, cover_tests, cover_groups,
}
use go_mutants.Coverage.Grouping.Entries.{own}

-- What a test adds to the slice `covering` at position `i`, by a group's intervals and mutants.
abbrev pub hits : TestKey → List Interval → ℕ → List PlacedMutant → List TestKey
hits key intervals i [] = []
hits key intervals i (p ∷ ps) =
    (if p.at == i && overlaps intervals p.start p.end then key ∷ [] else [])
    ++ hits key intervals i ps

abbrev pub test_hits : ℕ → List (TestKey × FileIndex) → FileGroup → List TestKey
test_hits i [] g = []
test_hits i ((key, index) ∷ tests) g =
    hits key (get_list g.path index) i g.mutants ++ test_hits i tests g

abbrev pub group_hits : ℕ → List (TestKey × FileIndex) → List FileGroup → List TestKey
group_hits i tests [] = []
group_hits i tests (g ∷ gs) = test_hits i tests g ++ group_hits i tests gs

-- The slice holds `l` at position `i`.
abbrev pub Holds : List (List TestKey) → ℕ → List TestKey → Type 0
Holds covering i l = get_elem? covering i ≡ some l

more :
    (covering : List (List TestKey)) (i : ℕ) (l a b : List TestKey)
    → Holds covering i ((l ++ a) ++ b)
    → Holds covering i (l ++ (a ++ b))
more covering i l a b h = h ∙ ap some (append_assoc l a b)

hit-Holds :
    (key : TestKey) (intervals : List Interval) (p : PlacedMutant) (covering : List (List TestKey))
    (i : ℕ) (l : List TestKey)
    → Holds covering i l
    → Holds
        (if overlaps intervals p.start p.end
          then modify covering p.at (λ keys. keys ++ key ∷ [])
          else covering)
        i
        (l ++ (if p.at == i && overlaps intervals p.start p.end then key ∷ [] else []))
hit-Holds key is p covering i l h = elim (Bool-cases (p.at == i)) [
  | inl e ↦ elim (Bool-cases (overlaps is p.start p.end)) [
    | inl t ↦
        let here : p.at ≡ i = ground (arith, e) in
        rw (e, t)
          (subst (λ k. Holds (modify covering k (λ keys. keys ++ key ∷ [])) i (l ++ key ∷ []))
            (sym here) (get_elem?-modify_same covering i l (λ keys. keys ++ key ∷ []) h))
    | inr t ↦ rw (e, t) (h ∙ ap some (sym (append-nil l)))
  ]
  | inr e ↦ elim (Bool-cases (overlaps is p.start p.end)) [
    | inl t ↦
        rw (e, t)
          (get_elem?-modify_other covering p.at i (λ keys. keys ++ key ∷ [])
              (λ r. absurd (ground (arith, e, r)))
            ∙ (h ∙ ap some (sym (append-nil l))))
    | inr t ↦ rw (e, t) (h ∙ ap some (sym (append-nil l)))
  ]
]

cover_mutants-Holds :
    (key : TestKey) (intervals : List Interval) (ps : List PlacedMutant)
    (covering : List (List TestKey)) (i : ℕ) (l : List TestKey)
    → Holds covering i l
    → Holds (cover_mutants key intervals ps covering) i (l ++ hits key intervals i ps)
cover_mutants-Holds key is [] covering i l h = h ∙ ap some (sym (append-nil l))
cover_mutants-Holds key is (p ∷ ps) covering i l h =
    more _ i l _ (hits key is i ps)
      (cover_mutants-Holds key is ps _ i _ (hit-Holds key is p covering i l h))

-- Without intervals there is no hit.
hits-none : (key : TestKey) (i : ℕ) (ps : List PlacedMutant) → hits key [] i ps ≡ []
unfolding overlaps
hits-none key i [] = refl
hits-none key i (p ∷ ps) = elim (Bool-cases (p.at == i)) [
  | inl e ↦ rw e (hits-none key i ps)
  | inr e ↦ rw e (hits-none key i ps)
]

short : (is : List Interval) → leb (length is) 0 ≡ true → is ≡ []
short [] e = refl
short (i ∷ is) e = absurd (ground (arith, e))

cover_tests-Holds :
    (tests : List (TestKey × FileIndex)) (g : FileGroup) (covering : List (List TestKey)) (i : ℕ)
    (l : List TestKey)
    → Holds covering i l
    → Holds (cover_tests tests g covering) i (l ++ test_hits i tests g)
cover_tests-Holds [] g covering i l h = h ∙ ap some (sym (append-nil l))
cover_tests-Holds ((key, index) ∷ tests) g covering i l h =
    elim (Bool-cases (leb (length (get_list g.path index)) 0)) [
      | inl e ↦ rw e (
          cover_tests-Holds tests g covering i l h
          ∙ ap (λ k. some (l ++ (k ++ test_hits i tests g)))
              (sym (
                ap (λ is. hits key is i g.mutants) (short (get_list g.path index) e)
                ∙ hits-none key i g.mutants)))
      | inr e ↦ rw e (
          more _ i l _ (test_hits i tests g) (
            cover_tests-Holds tests g _ i _
              (cover_mutants-Holds key (get_list g.path index) g.mutants covering i l h)))
    ]

pub cover_groups-Holds :
    (tests : List (TestKey × FileIndex)) (gs : List FileGroup) (covering : List (List TestKey))
    (i : ℕ) (l : List TestKey)
    → Holds covering i l
    → Holds (cover_groups tests gs covering) i (l ++ group_hits i tests gs)
cover_groups-Holds tests [] covering i l h = h ∙ ap some (sym (append-nil l))
cover_groups-Holds tests (g ∷ gs) covering i l h =
    more _ i l _ (group_hits i tests gs)
      (cover_groups-Holds tests gs _ i _ (cover_tests-Holds tests g covering i l h))

-- What the tests add for one entry.
abbrev pub answer : List (TestKey × FileIndex) → Bytes → PlacedMutant → List TestKey
answer [] path p = []
answer ((key, index) ∷ tests) path p =
    (if overlaps (get_list path index) p.start p.end then key ∷ [] else []) ++ answer tests path p

pub hits-absent :
    (key : TestKey) (is : List Interval) (i : ℕ) (path : Bytes) (ps : List PlacedMutant)
    → own i path ps ≡ []
    → hits key is i ps ≡ []
hits-absent key is i path [] h = refl
hits-absent key is i path (p ∷ ps) h = elim (Bool-cases (p.at == i)) [
  | inl e ↦ absurd (cons≢nil (rw (e, own) at h))
  | inr e ↦ rw e (hits-absent key is i path ps (rw (e, own) at h))
]
  where
    cons≢nil : {x : Bytes × PlacedMutant} {l : List (Bytes × PlacedMutant)} → ¬ ((x ∷ l) ≡ [])
    cons≢nil q = absurd (cc)

pub cons-inv {ℓ} : {A : Type ℓ} (x y : A) (l m : List A) → x ∷ l ≡ y ∷ m → (x ≡ y) × (l ≡ m)
cons-inv x y l m e =
    (ap (λ k. elim k [ [] ↦ x | z ∷ r ↦ z ]) e, ap (λ k. elim k [ [] ↦ l | z ∷ r ↦ r ]) e)

pub hits-present :
    (key : TestKey) (is : List Interval) (i : ℕ) (path path' : Bytes) (p : PlacedMutant)
    (ps : List PlacedMutant)
    → own i path ps ≡ (path', p) ∷ []
    → (path ≡ path') × (hits key is i ps ≡ (if overlaps is p.start p.end then key ∷ [] else []))
hits-present key is i path path' p [] h = absurd (cc)
hits-present key is i path path' p (q ∷ ps) h = elim (Bool-cases (q.at == i)) [
  | inl e ↦
      let (first, rest) = cons-inv (path, q) (path', p) (own i path ps) [] (rw (e, own) at h) in
      (
        ap (λ r. r.0) first,
        rw e (
            ap (λ k. (if overlaps is q.start q.end then key ∷ [] else []) ++ k)
              (hits-absent key is i path ps rest)
            ∙ (append-nil _
                ∙ ap (λ r. if overlaps is r.1.start r.1.end then key ∷ [] else []) first)),
      )
  | inr e ↦
      let (same, found) = hits-present key is i path path' p ps (rw (e, own) at h) in
      (same, rw e found)
]
