-- ===== src/Mutation/Catalog/Lookups.antt =====
-- A catalogue finds each of its mutants: no two share a display id, so none share an id.
use go_mutants.Prelude.{
  ℕ, zero, suc, ◌+◌, ◌≤◌, ◌≡◌, refl, ap, ◌∙◌, inl, inr, true, false, Bool-cases, some, List, [],
  ◌∷◌, ◌++◌, Bytes, str_eq, str_eq→≡, str_eq_self, length, get_elem?, if◌then◌else◌, arith, some_eq,
}
use go_mutants.Prelude.Maps.{Map, get, put, get_list}
use go_mutants.Mutation.Catalog.{Mutant, append_at, group_ids, collisions_of, index_from}

-- How many mutants have a key.
abbrev pub count_key : (Mutant → Bytes) → Bytes → List Mutant → ℕ
count_key key k [] = 0
count_key key k (m ∷ ms) =
    let rest = count_key key k ms in if str_eq (key m) k then suc rest else rest

abbrev pub group_size : Bytes → Map (List Bytes) → ℕ
group_size k m = length (get_list k m)

length-snoc {ℓ} : {A : Type ℓ} (xs : List A) (x : A) → length (xs ++ x ∷ []) ≡ suc (length xs)
length-snoc [] x = refl
length-snoc (y ∷ xs) x = ap suc (length-snoc xs x)

group_size-cons :
    (k j : Bytes) (ids : List Bytes) (m : Map (List Bytes))
    → group_size k ((j, ids) ∷ m) ≡ (if str_eq j k then length ids else group_size k m)
group_size-cons k j ids m = ground arith

-- Two different keys are not both a third one.
apart : (j s k : Bytes) → str_eq j s ≡ false → str_eq j k ≡ true → str_eq s k ≡ false
apart j s k h e = elim (Bool-cases (str_eq s k)) [
  | inl f ↦ absurd (cc (h, str_eq_self j, str_eq→≡ j k e, str_eq→≡ s k f))
  | inr f ↦ f
]

group_size-append_at :
    (k short id : Bytes) (m : Map (List Bytes))
    → group_size k (append_at short id m)
      ≡ (if str_eq short k then suc (group_size k m) else group_size k m)
unfolding append_at
group_size-append_at k short id [] = ground (arith, group_size-cons k short (id ∷ []) [])
group_size-append_at k short id ((j, ids) ∷ m) = elim (Bool-cases (str_eq j short)) [
  | inl e ↦
      let p : j ≡ short = str_eq→≡ j short e in
      let q : str_eq j k ≡ str_eq short k = ap (λ s. str_eq s k) p in
      rw e (
        ground (
          arith,
          q,
          length-snoc ids id,
          group_size-cons k j (ids ++ id ∷ []) m,
          group_size-cons k j ids m,
        ))
  | inr e ↦ rw e (
      ground (
        arith,
        apart j short k e,
        group_size-append_at k short id m,
        group_size-cons k j ids (append_at short id m),
        group_size-cons k j ids m,
      ))
]

pub group_size-group_ids :
    (k : Bytes) (ms : List Mutant) (m : Map (List Bytes))
    → group_size k (group_ids ms m) ≡ group_size k m + count_key (λ x. x.display_id) k ms
unfolding group_ids
group_size-group_ids k [] m = omega arith
group_size-group_ids k (x ∷ ms) m = ground (
  arith,
  group_size-group_ids k ms (append_at x.display_id x.id m),
  group_size-append_at k x.display_id x.id m,
)

pub collisions_of-none :
    (k : Bytes) (m : Map (List Bytes)) → collisions_of m ≡ [] → group_size k m ≤ 1
unfolding collisions_of
collisions_of-none k [] h = omega arith
collisions_of-none k ((j, ids) ∷ m) h =
    ground (arith, group_size-cons k j ids m, collisions_of-none k m)

index_from-absent :
    (key : Mutant → Bytes) (k : Bytes) (n : ℕ) (ms : List Mutant) (m : Map ℕ)
    → count_key key k ms ≡ 0
    → get k (index_from key n ms m) ≡ get k m
unfolding index_from
index_from-absent key k n [] m h = refl
index_from-absent key k n (x ∷ ms) m h =
    ground (arith, index_from-absent key k (suc n) ms (put (key x) n m))

pub index_from-found :
    (key : Mutant → Bytes) (n : ℕ) (ms : List Mutant) (m : Map ℕ) (i : ℕ) (x : Mutant)
    → get_elem? ms i ≡ some x
    → count_key key (key x) ms ≤ 1
    → get (key x) (index_from key n ms m) ≡ some (n + i)
unfolding index_from
index_from-found key n [] m i x h c = cc
index_from-found key n (y ∷ ms) m zero x h c =
    let e : y ≡ x = some_eq h in
    let self : str_eq (key y) (key x) ≡ true =
      ap (λ z. str_eq (key z) (key x)) e ∙ str_eq_self (key x) in
    let none_left : count_key key (key x) ms ≡ 0 = ground arith in
    index_from-absent key (key x) (suc n) ms (put (key y) n m) none_left
    ∙ rw self (ap some (omega arith))
index_from-found key n (y ∷ ms) m (suc i) x h c =
    index_from-found key (suc n) ms (put (key y) n m) i x h (ground arith) ∙ ap some (omega arith)
