-- ===== src/Instrument/Splice/Offsets.antt =====
-- The offset map of `Apply`: from an offset of the source to one of the output and back.
use go_mutants.Prelude.{
  ℕ, ◌≤◌, ◌<◌, ◌≡◌, sym, ap, subst, inl, inr, Bool, true, false, Bool-cases, List, [], ◌∷◌, Bytes,
  length, All, arith, ltb, ltb→lt, lt→ltb, if◌then◌else◌,
}
use go_mutants.Prelude.Checks.{ok}
use go_mutants.Prelude.Search.{Rises, find, get_elem?-search_list}
use go_mutants.Instrument.Splice.{
  Splice, word, Edit, OffsetMap, apply, shift, edit_past, output_at, original_at, to_output,
  to_original,
}
use go_mutants.Instrument.Splice.Rewriting.{apply-Rewrites}
use go_mutants.Instrument.Splice.Edits.{Chain, Chain-ends, Writes, apply-Chain}

module _ (n l : ℕ) where
  above_source :
      (off a b : ℕ) (es : List Edit)
      → Chain a b es n l
      → off < a
      → All (λ e. ltb off e.orig_end ≡ true) es
  above_source off a b [] c h = tt
  above_source off a b (e ∷ es) c h =
      (ground arith, above_source off e.orig_end e.out_end es c.4 (omega (arith, c.0, c.2)))

  above_output :
      (off a b : ℕ) (es : List Edit)
      → Chain a b es n l
      → off < b
      → All (λ e. ltb off e.out_end ≡ true) es
  above_output off a b [] c h = tt
  above_output off a b (e ∷ es) c h = (
    ground (arith, c.0, c.1, c.3),
    above_output off e.orig_end e.out_end es c.4 (omega (arith, c.0, c.1, c.3)),
  )

  source_Rises :
      (off a b : ℕ) (es : List Edit) → Chain a b es n l → Rises (λ e. ltb off e.orig_end) es
  source_Rises off a b [] c = tt
  source_Rises off a b (e ∷ es) c = (
    λ t. above_source off e.orig_end e.out_end es c.4 (ltb→lt off e.orig_end t),
    source_Rises off e.orig_end e.out_end es c.4,
  )

  output_Rises :
      (off a b : ℕ) (es : List Edit) → Chain a b es n l → Rises (λ e. ltb off e.out_end) es
  output_Rises off a b [] c = tt
  output_Rises off a b (e ∷ es) c = (
    λ t. above_output off e.orig_end e.out_end es c.4 (ltb→lt off e.out_end t),
    output_Rises off e.orig_end e.out_end es c.4,
  )

ltb-false : (a b : ℕ) → b ≤ a → ltb a b ≡ false
ltb-false a b h = ground arith

-- An offset that is mapped exactly by an edit does not lie behind its start.
exactly_before :
    (off o : ℕ) (e : Edit)
    → ◌≡◌ {A = ℕ × Bool}
        (if ltb e.orig_start off
          then (e.out_start, false)
          else (shift off e.out_start e.orig_start, true))
        (o, true)
    → (off ≤ e.orig_start) × (shift off e.out_start e.orig_start ≡ o)
exactly_before off o e h = elim (Bool-cases (ltb e.orig_start off)) [
  | inl t ↦ absurd (cc (ap (λ p. p.1) (rw t at h)))
  | inr t ↦ (ground (arith, t), ap (λ p. p.0) (rw t at h))
]

module _ (m : OffsetMap) (small : m.src_len < word) (fits : m.out_len < word) where
  there_and_back :
      (off o a b : ℕ) (es : List Edit)
      → Chain a b es m.src_len m.out_len
      → All Writes es
      → a ≤ off
      → off ≤ m.src_len
      → output_at m off (find (λ e. ltb off e.orig_end) es) ≡ (o, true)
      → (b ≤ o) × (o ≤ m.out_len) × (original_at m o (find (λ e. ltb o e.out_end) es) ≡ (off, true))
  there_and_back off o a b [] c w h k t =
      let e : shift off m.out_len m.src_len ≡ o = ap (λ p. p.0) t in
      (
        omega (arith, c, e, small, fits),
        omega (arith, c, e, small, fits),
        ap (λ x. (x, true)) (omega (arith, c, e, small, fits)),
      )
  there_and_back off o a b (e ∷ es) c w h k t = elim (Bool-cases (ltb off e.orig_end)) [
    | inl here ↦
        let ends = Chain-ends e.orig_end e.out_end es m.src_len m.out_len c.4 in
        let before = exactly_before off o e (rw here at t) in
        let up : shift off e.out_start e.orig_start ≡ o = before.1 in
        let lower : o < e.out_end =
          omega (arith, before.0, up, c.0, c.1, w.0, h, ends, small, fits) in
        let inside : ltb e.out_start o ≡ false =
          ltb-false _ _ (omega (arith, before.0, up, c.0, c.1, w.0, h, ends, small, fits)) in
        let back : shift o e.orig_start e.out_start ≡ off =
          omega (arith, before.0, up, c.0, c.1, w.0, h, ends, small, fits) in
        (
          omega (arith, before.0, up, c.0, c.1, w.0, h, ends, small, fits),
          omega (arith, lower, ends),
          rw (lt→ltb o e.out_end lower) (rw inside (ap (λ x. (x, true)) back)),
        )
    | inr past ↦
        let (x, y, z) =
          there_and_back off o e.orig_end e.out_end es c.4 w.1 (ground (arith, past)) k
            (rw past at t) in
        (omega (arith, x, c.0, c.1, c.2, c.3), y, rw (ltb-false o e.out_end x) z)
  ]

in_range_of :
    (n off l o : ℕ) (p : ℕ × Bool)
    → ◌≡◌ {A = ℕ × Bool} (if ltb n off then (l, false) else p) (o, true)
    → (off ≤ n) × (p ≡ (o, true))
in_range_of n off l o p h = elim (Bool-cases (ltb n off)) [
  | inl e ↦ absurd (cc (ap (λ q. q.1) (rw e at h)))
  | inr e ↦ (ground (arith, e), rw e at h)
]

-- If every splice writes something, an offset that the map of `Apply` takes exactly to the output
-- is the one that the map takes it back to, exactly.
pub to_original-to_output :
    (src : Bytes) (splices : List Splice) (out : Bytes) (m : OffsetMap) (off o : ℕ)
    → apply src splices ≡ ok (out, m)
    → All (λ s. 0 < length s.replacement) splices
    → to_output m off ≡ (o, true)
    → to_original m o ≡ (off, true)
unfolding to_output to_original
to_original-to_output src splices out m off o h fills t =
    let r = apply-Rewrites src splices out m h in
    let (chain, writes) = apply-Chain src splices out m h in
    let small : (off ≤ m.src_len)
        × (output_at m off (edit_past (λ e. e.orig_end) off m.edits) ≡ (o, true)) =
      in_range_of m.src_len off m.out_len o _ t in
    let found =
      get_elem?-search_list (λ e. ltb off e.orig_end) m.edits
        (source_Rises m.src_len m.out_len off 0 0 m.edits chain) in
    let back =
      get_elem?-search_list (λ e. ltb o e.out_end) m.edits
        (output_Rises m.src_len m.out_len o 0 0 m.edits chain) in
    let (_, low, exact) =
      there_and_back m (omega (arith, r.lengths.0, r.small)) (omega (arith, r.lengths.1, r.fits))
        off o 0 0 m.edits chain (writes fills) (omega arith) small.0
        (subst (λ e. output_at m off e ≡ (o, true)) found small.1) in
    rw (ltb-false m.out_len o low) (subst (λ e. original_at m o e ≡ (off, true)) (sym back) exact)
