-- ===== src/Report/Merging/Rows.antt =====
-- What a merge of reports that succeeds has put together.
use go_mutants.Prelude.{
  ℕ, suc, ◌+◌, ◌≡◌, refl, sym, ap, ◌∙◌, subst, Bool, true, false, not, ◌&&◌, none, some, List, [],
  ◌∷◌, map, Bytes, ◌==◌, ==_iff, get_elem?, All, if◌then◌else◌, arith,
}
use go_mutants.Prelude.Members.{keep-All, All-both, All-get_elem?, get_elem?-map, map-get_elem?}
use go_mutants.Prelude.Checks.{Checks, ok, err, ◌>>=◌, bind-ok}
use go_mutants.Mutation.Shard.{shard_index, shard_index_bounds}
use go_mutants.Report.Merging.{
  MergeError, Shard, Mutant, Part, Owners, complete_set, disclaimed, cleared, owns_row, owns_rows,
  ownership, row_at, merge_rows,
}
use go_mutants.Report.Merging.Owning.{of_index, complete_set-total, complete_set-owner}
use go_mutants.Report.Merging.Agreeing.{Agrees}

false_of_negation : (b : Bool) → not b ≡ true → b ≡ false
false_of_negation true h = absurd (cc)
false_of_negation false h = refl

either_way :
    (owned disclaims : Bool) (e : MergeError) {u : Unit {0}}
    → ◌≡◌ {A = Checks MergeError (Unit {0})}
        (if owned && disclaims then err e else if not owned && not disclaims then err e else ok tt)
        (ok u)
    → owned ≡ not disclaims
either_way true true e h = absurd (cc)
either_way true false e h = refl
either_way false true e h = refl
either_way false false e h = absurd (cc)

module _ (sha256 : Bytes → Bytes) where
  -- A part's row says that another shard runs the mutant exactly if the part does not own it.
  abbrev pub Honest : Part → Type 0
  Honest p =
      All
        (λ (m : Mutant).
          (shard_index sha256 m.id p.shard.total == p.shard.index) ≡ not (disclaimed m))
        p.report.mutants

  owns_row-Honest :
      (s : Shard) (m : Mutant) {u : Unit {0}}
      → owns_row sha256 s m ≡ ok u
      → (shard_index sha256 m.id s.total == s.index) ≡ not (disclaimed m)
  unfolding owns_row
  owns_row-Honest s m e = either_way _ (disclaimed m) MergeError.shard_ownership_mismatch e

  owns_rows-Honest :
      (s : Shard) (ms : List Mutant) {u : Unit {0}}
      → owns_rows sha256 s ms ≡ ok u
      → All (λ (m : Mutant). (shard_index sha256 m.id s.total == s.index) ≡ not (disclaimed m)) ms
  unfolding owns_rows
  owns_rows-Honest s [] e = tt
  owns_rows-Honest s (m ∷ ms) e =
      let (x, here, rest) = bind-ok (owns_row sha256 s m) (λ _. owns_rows sha256 s ms) e in
      (owns_row-Honest s m here, owns_rows-Honest s ms rest)

  pub ownership-Honest :
      (ps : List Part) {u : Unit {0}} → ownership sha256 ps ≡ ok u → All Honest ps
  unfolding ownership
  ownership-Honest [] e = tt
  ownership-Honest (p ∷ ps) e =
      let (x, here, rest) =
        bind-ok (owns_rows sha256 p.shard p.report.mutants) (λ _. ownership sha256 ps) e in
      (owns_rows-Honest p.shard p.report.mutants here, ownership-Honest ps rest)

  -- The row of a mutant at a position: that of the one part that owns the mutant, with what the
  -- merge clears, and that part has run the mutant or says itself why not.
  pub record RowOf (total : ℕ) (parts : List Part) (k : ℕ) (id : Bytes) (row : Mutant)
      : Type 0 where
    pub part : Part
    pub source : Mutant
    pub sole : of_index (shard_index sha256 id total) parts ≡ part ∷ []
    pub place : get_elem? part.report.mutants k ≡ some source
    pub same : source.id ≡ id
    pub claimed : disclaimed source ≡ false
    pub carried : row ≡ cleared source

  abbrev pub RowsOf : ℕ → List Part → ℕ → List Bytes → List Mutant → Type 0
  RowsOf total parts k [] [] = Unit
  RowsOf total parts k [] (row ∷ rows) = ⊥
  RowsOf total parts k (id ∷ rest) [] = ⊥
  RowsOf total parts k (id ∷ rest) (row ∷ rows) =
      RowOf total parts k id row × RowsOf total parts (suc k) rest rows

  merge_rows-step :
      (owners : Owners) (total k : ℕ) (m : Mutant) (ms : List Mutant) {r : Mutant}
      {rows : List Mutant}
      → row_at sha256 owners total k m ≡ some r
      → merge_rows sha256 owners total (suc k) ms ≡ ok rows
      → merge_rows sha256 owners total k (m ∷ ms) ≡ ok (cleared r ∷ rows)
  unfolding merge_rows
  merge_rows-step owners total k m ms found merged = λ i. elim (found i) [
    | none ↦ err MergeError.panicked
    | some row ↦ merged i >>= λ rest. ok (cleared row ∷ rest)
  ]

  own_row :
      (q : Part) (m : Mutant) (k : ℕ) {r : Mutant} {total : ℕ}
      → Honest q
      → total ≡ q.shard.total
      → q.shard.index ≡ shard_index sha256 m.id total
      → get_elem? q.report.mutants k ≡ some r
      → r.id ≡ m.id
      → disclaimed r ≡ false
  own_row q m k {r} {total} honest totals at place same = false_of_negation (disclaimed r) (
      sym (All-get_elem? _ q.report.mutants k honest place)
      ∙ (==_iff (shard_index sha256 r.id q.shard.total) q.shard.index).1 (
          ap (λ (id : Bytes). shard_index sha256 id q.shard.total) same
          ∙ ap (shard_index sha256 m.id) (sym totals)
          ∙ sym at))

  module _ (room : ℕ) (first : Part) (others : List Part) (owners : Owners)
      (complete : complete_set room (first ∷ others) first.shard.total ≡ ok owners)
      (agree : All (Agrees first) (first ∷ others)) (honest : All Honest (first ∷ others)) where
    owner_facts :
        (index : ℕ) (q : Part)
        → of_index index (first ∷ others) ≡ q ∷ []
        → Agrees first q × Honest q × (q.shard.index ≡ index)
    owner_facts index q e =
        let facts =
          subst
            (All (λ (p : Part). (Agrees first p × Honest p) × ((p.shard.index == index) ≡ true))) e
            (keep-All (λ (p : Part). Agrees first p × Honest p)
              (λ (p : Part). p.shard.index == index) (first ∷ others)
              (All-both (Agrees first) Honest (first ∷ others) agree honest)) in
        (facts.0.0.0, facts.0.0.1, (==_iff q.shard.index index).0 facts.0.1)

    -- The row that the merge takes is there.
    row_found :
        (k : ℕ) (m : Mutant)
        → get_elem? first.report.mutants k ≡ some m
        → (r : Mutant) × (row_at sha256 owners first.shard.total k m ≡ some r)
          × RowOf first.shard.total (first ∷ others) k m.id (cleared r)
    row_found k m e =
        let index = shard_index sha256 m.id first.shard.total in
        let (lo, hi) =
          shard_index_bounds sha256 m.id first.shard.total
            (complete_set-total room first.shard.total first others owners complete) in
        let (q, owned, sole) =
          complete_set-owner room first.shard.total first others owners complete index lo hi in
        let (agrees, honest_q, at) = owner_facts index q sole in
        let (r, place, same) =
          get_elem?-map (λ (n : Mutant). n.id) q.report.mutants k
            (ap (λ (l : List Bytes). get_elem? l k) (sym agrees.same_ids)
              ∙ map-get_elem? (λ (n : Mutant). n.id) first.report.mutants k e) in
        (
          r,
          rw (owned, row_at) place,
          record {
            part = q;
            source = r;
            sole = sole;
            place = place;
            same = same;
            claimed = own_row q m k honest_q agrees.same_total at place same;
            carried = refl;
          },
        )

    -- So the merge of the rows succeeds.
    pub merge_rows-RowsOf :
        (k : ℕ) (ms : List Mutant)
        → ((j : ℕ) (m : Mutant)
            → get_elem? ms j ≡ some m
            → get_elem? first.report.mutants (k + j) ≡ some m)
        → (rows : List Mutant) × (merge_rows sha256 owners first.shard.total k ms ≡ ok rows)
          × RowsOf first.shard.total (first ∷ others) k (map (λ (m : Mutant). m.id) ms) rows
    unfolding merge_rows
    merge_rows-RowsOf k [] tail = ([], refl, tt)
    merge_rows-RowsOf k (m ∷ ms) tail =
        let (r, found, row) =
          row_found k m (
            subst (λ j. get_elem? first.report.mutants j ≡ some m) (omega arith) (tail 0 m refl)) in
        let (rows, merged, rest) = merge_rows-RowsOf (suc k) ms (λ j n e.
          subst (λ i. get_elem? first.report.mutants i ≡ some n) (omega arith)
            (tail (suc j) n e)) in
        (
          cleared r ∷ rows,
          merge_rows-step owners first.shard.total k m ms found merged,
          (row, rest),
        )
