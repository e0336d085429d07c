-- ===== src/Validate/Bisect/Exact.antt =====
-- `isolate` when mutants break the build each by itself.
use mathlib.Core.List.{map-append}
use go_mutants.Prelude.{
  ℕ, zero, suc, ◌<◌, ◌/◌, ◌≡◌, refl, sym, ◌∙◌, ◌⊎◌, inl, inr, Bool, true, false, Bool-cases, List,
  [], ◌∷◌, ◌++◌, map, append_assoc, append-nil, arith, length, take, drop, take-append-drop,
  length-take, length-take_add_drop, leb, if◌then◌else◌, not, any, keep,
}
use go_mutants.Validate.Bisect.{
  Run, ok, err, out_of_fuel, ◌>>=◌, Verdict, Condemned, Split, ask, incremental_from, incremental,
  rejoin, halves, isolate_from, isolate, linear_threshold,
}

-- The run returned a pair of which `P` holds.
abbrev pub Returns : {A E : Type 0} → (A → Type 0) → Run A E → Type 0
Returns P (ok a) = P a
Returns P (err e) = ⊥
Returns P out_of_fuel = ⊥

Returns-bind :
    {A B E : Type 0} (P : A → Type 0) (Q : B → Type 0) (r : Run A E) (f : A → Run B E)
    → Returns P r
    → ((a : A) → P a → Returns Q (f a))
    → Returns Q (r >>= f)
Returns-bind P Q (ok a) f h k = k a h
Returns-bind P Q (err e) f h k = absurd h
Returns-bind P Q out_of_fuel f h k = absurd h

Returns-map :
    {A E : Type 0} (P Q : A → Type 0) (r : Run A E)
    → Returns P r
    → ((a : A) → P a → Returns {E = E} Q (ok a))
    → Returns Q r
Returns-map P Q (ok a) h k = k a h
Returns-map P Q (err e) h k = h
Returns-map P Q out_of_fuel h k = h

module _ {M : Type 0} where
  any-append :
      (p : M → Bool) (xs ys : List M) → any p (xs ++ ys) ≡ (if any p xs then true else any p ys)
  any-append p [] ys = refl
  any-append p (x ∷ xs) ys = ground (arith, any-append p xs ys)

  keep-append : (p : M → Bool) (xs ys : List M) → keep p (xs ++ ys) ≡ keep p xs ++ keep p ys
  keep-append p [] ys = refl
  keep-append p (x ∷ xs) ys = ground (arith, keep-append p xs ys)

  abbrev pub none_of : (M → Bool) → M → Bool
  none_of p x = not (p x)

  any-keep-none_of : (p : M → Bool) (xs : List M) → any p (keep (none_of p) xs) ≡ false
  any-keep-none_of p [] = refl
  any-keep-none_of p (x ∷ xs) = ground (arith, any-keep-none_of p xs)

  keep_all : (p : M → Bool) (xs : List M) → any p xs ≡ false → keep (none_of p) xs ≡ xs
  keep_all p [] h = refl
  keep_all p (x ∷ xs) h = ground (arith, keep_all p xs)

  keep_none : (p : M → Bool) (xs : List M) → any p xs ≡ false → keep p xs ≡ []
  keep_none p [] h = refl
  keep_none p (x ∷ xs) h = ground (arith, keep_none p xs)

module _ {M E : Type 0} (probe : List M → E ⊎ Verdict) (bad : M → Bool)
    (alone : (s : List M) → (v : Verdict) × (probe s ≡ inr v) × (v.failed ≡ any bad s)) where
  -- The accepted mutants are the good ones of the batch, the rejected the bad ones, in order.
  abbrev pub Exact : List M → List M × List (Condemned M) → Type 0
  Exact cands r = (r.0 ≡ keep (none_of bad) cands) × (map (λ c. c.mutant) r.1 ≡ keep bad cands)

  Returns-ask :
      (P : List M × List (Condemned M) → Type 0) (subset : List M) (k : Verdict → Split probe)
      → ((v : Verdict) → v.failed ≡ any bad subset → Returns P (k v))
      → Returns P (ask probe subset k)
  Returns-ask P subset k h = let (v, e, f) = alone subset in rw (e, ask) (h v f)

  -- The accepted mutants so far are good, so a trial fails exactly if the new one is bad.
  any-trial : (acc : List M) (c : M) → any bad acc ≡ false → any bad (acc ++ c ∷ []) ≡ bad c
  any-trial acc c g = ground (arith, any-append bad acc (c ∷ []))

  abbrev Extends : List M → List (Condemned M) → List M → List M × List (Condemned M) → Type 0
  Extends acc rej cands r =
      (r.0 ≡ acc ++ keep (none_of bad) cands)
      × (map (λ c. c.mutant) r.1 ≡ map (λ c. c.mutant) rej ++ keep bad cands)

  Extends-bad :
      (acc : List M) (rej : List (Condemned M)) (c : Condemned M) (cands : List M)
      (r : List M × List (Condemned M))
      → bad c.mutant ≡ true
      → Extends acc (rej ++ c ∷ []) cands r
      → Extends acc rej (c.mutant ∷ cands) r
  Extends-bad acc rej c cands r b h = (rw b h.0, rw b (simp (map-append, append_assoc) at h.1))

  Extends-good :
      (acc : List M) (rej : List (Condemned M)) (c : M) (cands : List M)
      (r : List M × List (Condemned M))
      → bad c ≡ false
      → Extends (acc ++ c ∷ []) rej cands r
      → Extends acc rej (c ∷ cands) r
  Extends-good acc rej c cands r b h = (rw b (simp append_assoc at h.0), rw b h.1)

  incremental_from-Extends :
      (acc : List M) (rej : List (Condemned M)) (cands : List M)
      → any bad acc ≡ false
      → Returns (Extends acc rej cands) (incremental_from probe acc rej cands)
  unfolding incremental_from
  incremental_from-Extends acc rej [] g = (rw append-nil, rw append-nil)
  incremental_from-Extends acc rej (c ∷ cands) g =
      Returns-ask (Extends acc rej (c ∷ cands)) (acc ++ c ∷ []) _ λ v f. elim (Bool-cases (bad c)) [
        | inl b ↦ rw (f ∙ any-trial acc c g ∙ b) (
            let x : Condemned M = record { mutant = c; output = v.output } in
            Returns-map (Extends acc (rej ++ x ∷ []) cands) _ _
              (incremental_from-Extends acc (rej ++ x ∷ []) cands g)
              (λ r. Extends-bad acc rej x cands r b))
        | inr b ↦ rw (f ∙ any-trial acc c g ∙ b) (
            Returns-map (Extends (acc ++ c ∷ []) rej cands) _ _
              (incremental_from-Extends (acc ++ c ∷ []) rej cands (any-trial acc c g ∙ b))
              (λ r. Extends-good acc rej c cands r b))
      ]

  incremental-Exact : (cands : List M) → Returns (Exact cands) (incremental probe cands)
  unfolding incremental
  incremental-Exact cands = incremental_from-Extends [] [] cands refl

  Exact-append :
      (xs ys left right : List M) (rej_left rej_right : List (Condemned M))
      → Exact xs (left, rej_left)
      → Exact ys (right, rej_right)
      → Exact (xs ++ ys) (left ++ right, rej_left ++ rej_right)
  Exact-append xs ys left right rej_left rej_right l r = (
    rw (l.0, r.0, keep-append (none_of bad) xs ys),
    rw (map-append, l.1, r.1, keep-append bad xs ys),
  )

  -- Good mutants build together, so joining asks at most one probe, which does not fail.
  rejoin-ok :
      (left right : List M) (rejected : List (Condemned M))
      → any bad (left ++ right) ≡ false
      → rejoin probe left right rejected ≡ ok (left ++ right, rejected)
  unfolding rejoin
  rejoin-ok [] [] rejected g = refl
  rejoin-ok [] (d ∷ right) rejected g = refl
  rejoin-ok (c ∷ left) [] rejected g = refl
  rejoin-ok (c ∷ left) (d ∷ right) rejected g =
      let (v, e, f) = alone (c ∷ left ++ d ∷ right) in rw (e, ask) (rw (f ∙ g))

  halves-Exact :
      (recur : List M → Split probe) (xs ys cands : List M)
      → xs ≡ take (length cands / 2) cands
      → ys ≡ drop (length cands / 2) cands
      → Returns (Exact xs) (recur xs)
      → Returns (Exact ys) (recur ys)
      → Returns (Exact (xs ++ ys)) (halves probe recur cands)
  unfolding halves
  halves-Exact recur xs ys cands p q l r =
      rw (← p, ← q)
        (Returns-bind (Exact xs) (Exact (xs ++ ys)) _ _ l λ a left.
          Returns-bind (Exact ys) (Exact (xs ++ ys)) _ _ r λ b right.
            rw (rejoin-ok a.0 b.0 (a.1 ++ b.1) (good a b left right))
              (Exact-append xs ys a.0 b.0 a.1 b.1 left right))
    where
      good :
          (a b : List M × List (Condemned M))
          → Exact xs a
          → Exact ys b
          → any bad (a.0 ++ b.0) ≡ false
      good a b left right =
          rw (left.0, right.0, ← keep-append (none_of bad) xs ys) (any-keep-none_of bad (xs ++ ys))

  isolate_from-Exact :
      (fuel : ℕ) (cands : List M)
      → length cands < fuel
      → Returns (Exact cands) (isolate_from probe fuel cands)
  unfolding isolate_from
  isolate_from-Exact zero cands h = absurd (omega arith)
  isolate_from-Exact (suc fuel) [] h = (refl, refl)
  isolate_from-Exact (suc fuel) (c ∷ cs) h = Returns-ask (Exact cands) cands _ λ v f.
      elim (Bool-cases v.failed) [
        | inr fine ↦
            rw fine
              (sym (keep_all bad cands (sym f ∙ fine)), sym (keep_none bad cands (sym f ∙ fine)))
        | inl broken ↦ rw broken (elim (Bool-cases (leb (length cands) linear_threshold)) [
          | inl few ↦ rw few (incremental-Exact cands)
          | inr many ↦ rw many (
              rw (take-append-drop mid cands) at (
                halves-Exact (isolate_from probe fuel) (take mid cands) (drop mid cands) cands refl
                  refl (isolate_from-Exact fuel (take mid cands) (shorter many).0)
                  (isolate_from-Exact fuel (drop mid cands) (shorter many).1)))
        ])
      ]
    where
      cands : List M
      cands = c ∷ cs

      mid : ℕ
      mid = length cands / 2

      shorter :
          leb (length cands) linear_threshold ≡ false
          → (length (take mid cands) < fuel) × (length (drop mid cands) < fuel)
      shorter many =
          let big : 4 < length cands = ground arith in
          let l : length (take mid cands) ≡ mid = length-take mid cands (omega arith) in
          (omega arith, omega (arith, length-take_add_drop mid cands))

  -- If a set fails to build exactly when it holds a mutant that is bad by itself, then `isolate`
  -- returns, without an error: it accepts exactly the good mutants of the batch and rejects
  -- exactly the bad ones, both in the batch's order.
  pub isolate-Exact : (cands : List M) → Returns (Exact cands) (isolate probe cands)
  unfolding isolate
  isolate-Exact cands = isolate_from-Exact (suc (length cands)) cands (omega arith)
