-- ===== src/Prelude/Search.antt =====
-- `sort.Search`: the binary search for the first index at which a test turns true.
use Prim.Native.Nat.{ℕ, zero, suc, ◌+◌, ◌-◌, ◌/◌, ◌≤◌, ◌<◌}
use mathlib.Core.Path.{◌≡◌, refl, ap}
use mathlib.Core.List.{List, [], ◌∷◌}
use mathlib.Core.Option.{Option, none, some}
use go_mutants.Prelude.Lists.{length, get_elem?, All}
use mathlib.Core.Bool.{Bool, true, false}
use mathlib.Core.Logic.{inl, inr}
use native.Mathlib.Omega.{arith}
use go_mutants.Prelude.Tests.{ltb, if◌then◌else◌, Bool-cases}

-- The loop, with a round of fuel for each halving of what lies between `lo` and `hi`.
search_between : ℕ → (ℕ → Bool) → ℕ → ℕ → ℕ
search_between zero test lo hi = lo
search_between (suc fuel) test lo hi =
    let mid = (lo + hi) / 2 in
    elim (ltb lo hi) [
      | false ↦ lo
      | true ↦ elim (test mid) [
        | false ↦ search_between fuel test (mid + 1) hi
        | true ↦ search_between fuel test lo mid
      ]
    ]

unfoldable pub search_index : ℕ → (ℕ → Bool) → ℕ
unfolding search_between
search_index n test = search_between n test 0 n

-- The test is false before `r` and true from there to `n`.
abbrev pub Splits : (ℕ → Bool) → ℕ → ℕ → Type 0
Splits test n r =
    (r ≤ n) × ((i : ℕ) → i < r → test i ≡ false) × ((i : ℕ) → r ≤ i → i < n → test i ≡ true)

module _ (test : ℕ → Bool) (n : ℕ)
    (rises : (i j : ℕ) → i ≤ j → j < n → test i ≡ true → test j ≡ true) where
  before : (i j : ℕ) → i ≤ j → j < n → test j ≡ false → test i ≡ false
  before i j h k e = elim (Bool-cases (test i)) [
    | inl t ↦ absurd (cc (rises i j h k t, e))
    | inr f ↦ f
  ]

  search_between-Splits :
      (fuel lo hi : ℕ)
      → lo ≤ hi
      → hi ≤ n
      → hi - lo ≤ fuel
      → ((i : ℕ) → i < lo → test i ≡ false)
      → ((i : ℕ) → hi ≤ i → i < n → test i ≡ true)
      → Splits test n (search_between fuel test lo hi)
  unfolding search_between
  search_between-Splits zero lo hi h k m below above =
      (omega arith, below, λ i p. above i (omega arith))
  search_between-Splits (suc fuel) lo hi h k m below above = elim (Bool-cases (ltb lo hi)) [
    | inr done ↦ rw (done, search_between) (ground arith, below, λ i p q. above i (ground arith) q)
    | inl more ↦ elim (Bool-cases (test ((lo + hi) / 2))) [
      | inr no_yet ↦
          rw (more, no_yet, search_between)
            (search_between-Splits fuel ((lo + hi) / 2 + 1) hi (ground arith) k (ground arith)
              (λ i p. before i ((lo + hi) / 2) (ground arith) (ground arith) no_yet) above)
      | inl found ↦
          rw (more, found, search_between)
            (search_between-Splits fuel lo ((lo + hi) / 2) (ground arith) (ground arith)
              (ground arith) below (λ i p q. rises ((lo + hi) / 2) i p q found))
    ]
  ]

  -- A test that stays true once it is: the search finds where it turns.
  pub search_index-Splits : Splits test n (search_index n test)
  unfolding search_index
  search_index-Splits =
      search_between-Splits n 0 n (omega arith) (omega arith) (omega arith)
        (λ i p. absurd (omega arith)) (λ i p q. absurd (omega arith))

module _ {ℓ} {A : Type ℓ} (p : A → Bool) where
  abbrev pub holds_at : List A → ℕ → Bool
  holds_at xs i = elim (get_elem? xs i) [ none ↦ false | some x ↦ p x ]

  -- `sort.Search(len(xs), func(i int) bool { return p(xs[i]) })`
  abbrev pub search_list : List A → ℕ
  search_list xs = search_index (length xs) (holds_at xs)

  -- The first member that passes the test.
  abbrev pub find : List A → Option A
  find [] = none
  find (x ∷ xs) = if p x then some x else find xs

  -- Once a member passes, those behind it do.
  abbrev pub Rises : List A → Type 0
  Rises [] = Unit
  Rises (x ∷ xs) = (p x ≡ true → All (λ y. p y ≡ true) xs) × Rises xs

  holds_at-All :
      (xs : List A) (i : ℕ) → All (λ y. p y ≡ true) xs → i < length xs → holds_at xs i ≡ true
  holds_at-All [] i h k = absurd (omega arith)
  holds_at-All (x ∷ xs) zero h k = h.0
  holds_at-All (x ∷ xs) (suc i) h k = holds_at-All xs i h.1 (omega arith)

  holds_at-Rises :
      (xs : List A)
      → Rises xs
      → (i j : ℕ) → i ≤ j
      → j < length xs
      → holds_at xs i ≡ true
      → holds_at xs j ≡ true
  holds_at-Rises [] r i j h k t = absurd (omega arith)
  holds_at-Rises (x ∷ xs) r zero zero h k t = t
  holds_at-Rises (x ∷ xs) r zero (suc j) h k t = holds_at-All xs j (r.0 t) (omega arith)
  holds_at-Rises (x ∷ xs) r (suc i) zero h k t = absurd (omega arith)
  holds_at-Rises (x ∷ xs) r (suc i) (suc j) h k t =
      holds_at-Rises xs r.1 i j (omega arith) (omega arith) t

  Splits-find :
      (xs : List A) (r : ℕ) → Splits (holds_at xs) (length xs) r → get_elem? xs r ≡ find xs
  Splits-find [] r s = refl
  Splits-find (x ∷ xs) zero s = rw (s.2 0 (omega arith) (omega arith)) refl
  Splits-find (x ∷ xs) (suc r) s = rw (s.1 0 (omega arith)) (
      Splits-find xs r (
        omega (arith, s.0),
        λ i h. s.1 (suc i) (omega arith),
        λ i h k. s.2 (suc i) (omega arith) (omega arith),
      ))

  -- The binary search finds the first member that passes.
  pub get_elem?-search_list : (xs : List A) → Rises xs → get_elem? xs (search_list xs) ≡ find xs
  get_elem?-search_list xs r =
      Splits-find xs (search_list xs)
        (search_index-Splits (holds_at xs) (length xs) (holds_at-Rises xs r))

  -- Where the first member that passes stands, or how many members there are.
  abbrev pub first_index : List A → ℕ
  first_index [] = 0
  first_index (x ∷ xs) = if p x then 0 else suc (first_index xs)

  Splits-first_index :
      (xs : List A) (r : ℕ) → Splits (holds_at xs) (length xs) r → r ≡ first_index xs
  Splits-first_index [] r s = omega (arith, s.0)
  Splits-first_index (x ∷ xs) zero s = rw (s.2 0 (omega arith) (omega arith)) refl
  Splits-first_index (x ∷ xs) (suc r) s = rw (s.1 0 (omega arith)) (
      ap suc (
        Splits-first_index xs r (
          omega (arith, s.0),
          λ i h. s.1 (suc i) (omega arith),
          λ i h k. s.2 (suc i) (omega arith) (omega arith),
        )))

  pub search_list-first_index : (xs : List A) → Rises xs → search_list xs ≡ first_index xs
  search_list-first_index xs r =
      Splits-first_index xs (search_list xs)
        (search_index-Splits (holds_at xs) (length xs) (holds_at-Rises xs r))
