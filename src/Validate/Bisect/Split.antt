-- ===== src/Validate/Bisect/Split.antt =====
-- `isolate` splits a batch: what it accepts builds, and nothing is lost.
use mathlib.Core.List.{Perm, map-append, perm_append_comm}
use mathlib.Core.List.Perm
use go_mutants.Prelude.{
  ℕ, zero, suc, ◌<◌, ◌/◌, ◌≡◌, refl, ◌⊎◌, inl, inr, false, Bool-cases, List, [], ◌∷◌, ◌++◌, map,
  append_assoc, append-nil, arith, length, take, drop, take-append-drop, length-take,
  length-take_add_drop, leb,
}
use go_mutants.Prelude.Subseq.{Subseq, skip, done, Subseq-refl, Subseq-append, Subseq-trans}
use go_mutants.Prelude.Perms.{Perm-exchange, Perm-lift}
use go_mutants.Validate.Bisect.{
  Verdict, Condemned, Split, incremental_from, incremental, rejoin, halves, isolate_from, isolate,
  linear_threshold,
}
use go_mutants.Validate.Bisect.Post.{Ensures, Ensures-bind, Ensures-ask, Ensures-map}

module _ {M E : Type 0} (probe : List M → E ⊎ Verdict) where
  -- The batch is empty, or the probe was asked about it and it did not fail.
  abbrev pub Passes : List M → Type 0
  Passes s = (s ≡ []) ⊎ ((v : Verdict) × (probe s ≡ inr v) × (v.failed ≡ false))

  abbrev blamed_mutants : List (Condemned M) → List M
  blamed_mutants = map (λ c. c.mutant)

  -- A good split of a batch: the accepted mutants build together, they stand in the batch's order,
  -- and with the rejected ones they are the batch.
  pub record Splits (cands : List M) (r : List M × List (Condemned M)) : Type 0 where
    pub builds : Passes r.0
    pub ordered : Subseq r.0 cands
    pub whole : Perm (r.0 ++ blamed_mutants r.1) cands

  -- The loop of `incremental`, from what it has accepted and rejected so far.
  record Grows (accepted : List M) (rejected : List (Condemned M)) (cands : List M)
      (r : List M × List (Condemned M)) : Type 0 where
    builds : Passes r.0
    ordered : (more : List M) × (r.0 ≡ accepted ++ more) × Subseq more cands
    whole : Perm (r.0 ++ blamed_mutants r.1) ((accepted ++ blamed_mutants rejected) ++ cands)

  Grows-reject :
      (acc : List M) (rej : List (Condemned M)) (c : Condemned M) (cands : List M)
      (r : List M × List (Condemned M))
      → Grows acc (rej ++ c ∷ []) cands r
      → Grows acc rej (c.mutant ∷ cands) r
  Grows-reject acc rej c cands r g = record {
    builds = g.builds;
    ordered = (g.ordered.0, g.ordered.1, skip g.ordered.2);
    whole = rw append_assoc (simp (map-append, append_assoc) at g.whole);
  }

  Grows-accept :
      (acc : List M) (rej : List (Condemned M)) (c : M) (cands : List M)
      (r : List M × List (Condemned M))
      → Grows (acc ++ c ∷ []) rej cands r
      → Grows acc rej (c ∷ cands) r
  Grows-accept acc rej c cands r g = record {
    builds = g.builds;
    ordered = (c ∷ g.ordered.0, simp append_assoc at g.ordered.1, Subseq.take g.ordered.2);
    whole = Perm.trans g.whole (Perm-lift acc (blamed_mutants rej) cands c);
  }

  incremental_from-Grows :
      (acc : List M) (rej : List (Condemned M)) (cands : List M)
      → Passes acc
      → Ensures (Grows acc rej cands) (incremental_from probe acc rej cands)
  unfolding incremental_from
  incremental_from-Grows acc rej [] p = record {
    builds = p;
    ordered = ([], rw append-nil, done);
    whole = rw append-nil (Perm.refl _);
  }
  incremental_from-Grows acc rej (c ∷ cands) p =
      Ensures-ask probe (Grows acc rej (c ∷ cands)) (acc ++ c ∷ []) _ λ v e.
        elim (Bool-cases v.failed) [
          | inl bad ↦ rw bad (
              Ensures-map (Grows-reject acc rej (record { mutant = c; output = v.output }) cands) _
                (incremental_from-Grows acc (rej ++ record { mutant = c; output = v.output } ∷ [])
                  cands p))
          | inr good ↦ rw good (
              Ensures-map (Grows-accept acc rej c cands) _
                (incremental_from-Grows (acc ++ c ∷ []) rej cands (inr (v, e, good))))
        ]

  incremental-Splits : (cands : List M) → Ensures (Splits cands) (incremental probe cands)
  unfolding incremental
  incremental-Splits cands =
      Ensures-map {Q = Splits cands}
        (λ r g. record {
          builds = g.builds;
          ordered = rw (g.ordered.1) g.ordered.2;
          whole = g.whole;
        })
        (incremental_from probe [] [] cands) (incremental_from-Grows [] [] cands (inl refl))

  -- A split whose accepted mutants have not been built together yet.
  abbrev Parts : List M → List M × List (Condemned M) → Type 0
  Parts cands r = Subseq r.0 cands × Perm (r.0 ++ blamed_mutants r.1) cands

  Parts-builds :
      (cands : List M) (r : List M × List (Condemned M))
      → Parts cands r
      → Passes r.0
      → Splits cands r
  Parts-builds cands r p b = record { builds = b; ordered = p.0; whole = p.1 }

  -- Two halves joined as they stand.
  Parts-join :
      (xs ys left right : List M) (rej_left rej_right : List (Condemned M))
      → Splits xs (left, rej_left)
      → Splits ys (right, rej_right)
      → Parts (xs ++ ys) (left ++ right, rej_left ++ rej_right)
  Parts-join xs ys left right rej_left rej_right l r = (
    Subseq-append l.ordered r.ordered,
    rw map-append (
        Perm.trans (Perm-exchange left right (blamed_mutants rej_left) (blamed_mutants rej_right))
          (Perm.append l.whole r.whole)),
  )

  -- What is found in the joined list goes behind what was found before.
  Parts-again :
      (cands joined : List M) (rej : List (Condemned M)) (r : List M × List (Condemned M))
      → Parts cands (joined, rej)
      → Splits joined r
      → Splits cands (r.0, rej ++ r.1)
  Parts-again cands joined rej r s t = record {
    builds = t.builds;
    ordered = Subseq-trans s.0 t.ordered;
    whole = rw map-append (
        Perm.trans
          (Perm.append_left r.0 (perm_append_comm (blamed_mutants rej) (blamed_mutants r.1)))
          (rw (← append_assoc r.0 (blamed_mutants r.1) (blamed_mutants rej))
            (Perm.trans (Perm.append_right (blamed_mutants rej) t.whole) s.1)));
  }

  module _ (xs ys : List M) (rej_left rej_right : List (Condemned M)) where
    rejoin-Splits :
        (left right : List M)
        → Splits xs (left, rej_left)
        → Splits ys (right, rej_right)
        → Ensures (Splits (xs ++ ys)) (rejoin probe left right (rej_left ++ rej_right))
    unfolding rejoin
    rejoin-Splits [] [] l r =
        Parts-builds _ _ (Parts-join xs ys [] [] rej_left rej_right l r) r.builds
    rejoin-Splits [] (d ∷ right) l r =
        Parts-builds _ _ (Parts-join xs ys [] (d ∷ right) rej_left rej_right l r) r.builds
    rejoin-Splits (c ∷ left) [] l r =
        Parts-builds _ _ (Parts-join xs ys (c ∷ left) [] rej_left rej_right l r)
          (rw append-nil l.builds)
    rejoin-Splits (c ∷ left) (d ∷ right) l r = Ensures-ask probe (Splits (xs ++ ys)) joined _ λ v e.
        elim (Bool-cases v.failed) [
          | inl bad ↦ rw bad (
              Ensures-bind (Splits joined) (Splits (xs ++ ys)) (incremental probe joined) _
                (incremental-Splits joined)
                λ t g. Parts-again (xs ++ ys) joined (rej_left ++ rej_right) t parts g)
          | inr good ↦ rw good (Parts-builds _ _ parts (inr (v, e, good)))
        ]
      where
        joined : List M
        joined = c ∷ left ++ d ∷ right

        parts : Parts (xs ++ ys) (joined, rej_left ++ rej_right)
        parts = Parts-join xs ys (c ∷ left) (d ∷ right) rej_left rej_right l r

  halves-Splits :
      (recur : List M → Split probe) (cands : List M)
      → Ensures (Splits (take (length cands / 2) cands)) (recur (take (length cands / 2) cands))
      → Ensures (Splits (drop (length cands / 2) cands)) (recur (drop (length cands / 2) cands))
      → Ensures (Splits cands) (halves probe recur cands)
  unfolding halves
  halves-Splits recur cands l r =
      Ensures-bind (Splits (take (length cands / 2) cands)) (Splits cands) _ _ l λ p left.
        Ensures-bind (Splits (drop (length cands / 2) cands)) (Splits cands) _ _ r λ q right.
          rw (take-append-drop (length cands / 2) cands) at
            (rejoin-Splits _ _ p.1 q.1 p.0 q.0 left right)

  isolate_from-Splits :
      (fuel : ℕ) (cands : List M)
      → length cands < fuel
      → Ensures (Splits cands) (isolate_from probe fuel cands)
  unfolding isolate_from
  isolate_from-Splits zero cands h = absurd (omega arith)
  isolate_from-Splits (suc fuel) [] h = record {
    builds = inl refl;
    ordered = done;
    whole = Perm.refl [];
  }
  isolate_from-Splits (suc fuel) (c ∷ cs) h = Ensures-ask probe (Splits cands) cands _ λ v e.
      elim (Bool-cases v.failed) [
        | inr good ↦ rw good (record {
          builds = inr (v, e, good);
          ordered = Subseq-refl cands;
          whole = rw append-nil (Perm.refl cands);
        })
        | inl bad ↦ rw bad (elim (Bool-cases (leb (length cands) linear_threshold)) [
          | inl few ↦ rw few (incremental-Splits cands)
          | inr many ↦ rw many (
              halves-Splits (isolate_from probe fuel) cands
                (isolate_from-Splits fuel (take mid cands) (shorter many).0)
                (isolate_from-Splits fuel (drop mid cands) (shorter many).1))
        ])
      ]
    where
      cands : List M
      cands = c ∷ cs

      mid : ℕ
      mid = length cands / 2

      shorter :
          leb (length cands) linear_threshold ≡ false
          → (length (take mid cands) < fuel) × (length (drop mid cands) < fuel)
      shorter many =
          let big : 4 < length cands = ground arith in
          let l : length (take mid cands) ≡ mid = length-take mid cands (omega arith) in
          (omega arith, omega (arith, length-take_add_drop mid cands))

  -- Whatever the probe answers, `isolate` ends. Unless the probe returned an error, the accepted
  -- mutants are none or were probed together without a failure, they stand in the order of the
  -- batch, and the accepted and the rejected mutants together are the batch.
  pub isolate-Splits : (cands : List M) → Ensures (Splits cands) (isolate probe cands)
  unfolding isolate
  isolate-Splits cands = isolate_from-Splits (suc (length cands)) cands (omega arith)
