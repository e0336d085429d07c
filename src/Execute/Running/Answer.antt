-- ===== src/Execute/Running/Answer.antt =====
-- `RunOne` as a whole: the checks, the pass, the tree that is put back and the run of the whole
-- binaries.
use go_mutants.Prelude.{
  ◌≡◌, ◌≢◌, refl, sym, ap, ◌∙◌, subst, ◌⊎◌, inl, inr, Bool, true, false, not, ◌||◌, Bool-cases,
  Option, none, some, Bytes, List, [], ◌∷◌, ◌++◌, if◌then◌else◌, arith,
}
use go_mutants.Prelude.Maps.{Map}
use go_mutants.Prelude.Checks.{Checks, ok, err, ok_eq}
use go_mutants.Mutation.Outcome.{
  Outcome, not_run, killed, survived, timed_out, inconclusive, errored, unnamed,
}
use go_mutants.Execute.Attempts.{ℤ, Attempt, MutantRun, Failure, attempt_of}
use go_mutants.Execute.Narrowing.{Platform}
use go_mutants.Execute.Running.{
  TestBinary, Result, World, Options, Pass, prepare, run_pass, run_narrowed, run_one, whole,
  has_any, elements, select_binaries, select_subset, is_survived,
}
use go_mutants.Execute.Running.Blame.{Kills, TimesOut}
use go_mutants.Execute.Running.Verdict.{
  names, Ends, Passed, Culprit, run_from-Ends, Ends-survived, Ends-killed, Ends-timed_out,
}

Checks-cases {ℓ κ} :
    {E : Type κ} {A : Type ℓ} (c : Checks E A) → ((e : E) × (c ≡ err e)) ⊎ ((a : A) × (c ≡ ok a))
Checks-cases (ok a) = inr (a, refl)
Checks-cases (err e) = inl (e, refl)

elements-some {ℓ} :
    {A : Type ℓ} (f : Failure) (i : ℤ) (subset : List ℤ) (xs ys : List A)
    → elements f (i ∷ subset) xs ≡ ok ys
    → has_any ys ≡ true
unfolding elements
elements-some f i subset xs ys e = ground arith

select_subset-some :
    (subset : Option (List ℤ)) (bins selected : List TestBinary) (f g : Failure)
    → has_any bins ≡ true
    → select_subset subset bins f g ≡ ok selected
    → has_any selected ≡ true
select_subset-some none bins selected f g h e = subst (λ l. has_any l ≡ true) (ok_eq e) h
select_subset-some (some []) bins selected f g h e = absurd (cc)
select_subset-some (some (i ∷ subset)) bins selected f g h e =
    elements-some g i subset bins selected e

select-some :
    (m : MutantRun) (bins selected : List TestBinary)
    → has_any bins ≡ true
    → select_binaries m bins ≡ ok selected
    → has_any selected ≡ true
unfolding select_binaries
select-some m bins selected h e = select_subset-some m.binaries bins selected _ _ h e

module _ (p : Platform) (opts : Options) (m : MutantRun) (w : World) (bins : List TestBinary) where
  prepare-some :
      (selected : List TestBinary) (pass : Pass)
      → prepare p opts m w bins ≡ ok (selected, pass)
      → has_any selected ≡ true
  unfolding prepare
  prepare-some selected pass e = ground (arith, select-some m bins selected)

  -- What led to an attempt that no error of the run itself ended.
  pub record Answered (a : Attempt) : Type 0 where
    pub selected : List TestBinary
    pub pass : Pass
    pub prepared : prepare p opts m w bins ≡ ok (selected, pass)
    pub chosen : has_any selected ≡ true
    pub ends : Ends p opts m w pass a 0 selected []
    pub restored : has_any a.binaries ≡ true → w.restored ≡ true

  narrowed_as_pass :
      (run_narrowed p opts m w bins).outcome ≢ errored
      → (run_narrowed p opts m w bins ≡ run_pass p opts m w bins)
        × (has_any (run_pass p opts m w bins).binaries ≡ true → w.restored ≡ true)
  unfolding run_narrowed
  narrowed_as_pass h =
      elim (Bool-cases (not (has_any (run_pass p opts m w bins).binaries) || w.restored)) [
        | inl t ↦ (rw t refl, λ k. ground arith)
        | inr f ↦ absurd (h (rw f refl))
      ]

  pass-Answered :
      (c : Checks Failure (List TestBinary × Pass))
      → prepare p opts m w bins ≡ c
      → (run_pass p opts m w bins).outcome ≢ errored
      → (has_any (run_pass p opts m w bins).binaries ≡ true → w.restored ≡ true)
      → Answered (run_pass p opts m w bins)
  unfolding run_pass
  pass-Answered (err f) e h r = absurd (h (rw (e, run_pass) refl))
  pass-Answered (ok (selected, pass)) e h r = record {
    selected = selected;
    pass = pass;
    prepared = e;
    chosen = prepare-some selected pass e;
    ends = rw (e, run_pass) (run_from-Ends p opts m w pass 0 selected (attempt_of survived) refl);
    restored = r;
  }

  run_narrowed-Answered :
      (run_narrowed p opts m w bins).outcome ≢ errored → Answered (run_narrowed p opts m w bins)
  run_narrowed-Answered h =
      let (e, r) = narrowed_as_pass h in
      subst Answered (sym e) (
        pass-Answered (prepare p opts m w bins) refl
          (λ k. h (ap (λ (a : Attempt). a.outcome) e ∙ k)) r)

  -- A whole pass that the mutant survived: at least one binary was chosen, each was started, in
  -- order, and ended well, and the tree was put back.
  pub record Survived (a : Attempt) : Type 0 where
    pub selected : List TestBinary
    pub pass : Pass
    pub prepared : prepare p opts m w bins ≡ ok (selected, pass)
    pub chosen : has_any selected ≡ true
    pub each : Passed p opts m w pass 0 selected
    pub started : a.binaries ≡ names selected
    pub restored : w.restored ≡ true

  has_any-names : (l : List TestBinary) → has_any l ≡ true → has_any (names l) ≡ true
  has_any-names [] h = h
  has_any-names (x ∷ l) h = h

  narrowed-Survived :
      (run_narrowed p opts m w bins).outcome ≡ survived → Survived (run_narrowed p opts m w bins)
  narrowed-Survived s =
      let v = run_narrowed-Answered (λ k. absurd (cc (s, k))) in
      let (started, each) = Ends-survived p opts m w v.pass v.ends s in
      record {
        selected = v.selected;
        pass = v.pass;
        prepared = v.prepared;
        chosen = v.chosen;
        each = each;
        started = started;
        restored = v.restored (rw started (has_any-names v.selected v.chosen));
      }

  -- A pass that one binary ended, behind those that passed.
  pub record Ended (a : Attempt) (Guilty : TestBinary → Result → Bool → Attempt → Type 0)
      : Type 0 where
    pub selected : List TestBinary
    pub pass : Pass
    pub prepared : prepare p opts m w bins ≡ ok (selected, pass)
    pub culprit : Culprit p opts m w pass a 0 selected [] Guilty
    pub restored : w.restored ≡ true

  has_any-append : (l : List TestBinary) (x : TestBinary) → has_any (names (l ++ x ∷ [])) ≡ true
  has_any-append [] x = refl
  has_any-append (y ∷ l) x = refl

  ended :
      {Guilty : TestBinary → Result → Bool → Attempt → Type 0} {a : Attempt} (v : Answered a)
      → Culprit p opts m w v.pass a 0 v.selected [] Guilty
      → Ended a Guilty
  ended v c = record {
    selected = v.selected;
    pass = v.pass;
    prepared = v.prepared;
    culprit = c;
    restored = v.restored (rw c.started (has_any-append c.before c.bin));
  }

  narrowed-Ended :
      ((run_narrowed p opts m w bins).outcome ≡ killed → Ended (run_narrowed p opts m w bins) Kills)
      × ((run_narrowed p opts m w bins).outcome ≡ timed_out
          → Ended (run_narrowed p opts m w bins) TimesOut)
  narrowed-Ended = (
    λ s.
        let v = run_narrowed-Answered (λ k. absurd (cc (s, k))) in
        ended v (Ends-killed p opts m w v.pass v.ends s),
    λ s.
        let v = run_narrowed-Answered (λ k. absurd (cc (s, k))) in
        ended v (Ends-timed_out p opts m w v.pass v.ends s),
  )

none_there {ℓ} : {A : Type ℓ} (l : List A) → has_any l ≡ false → l ≡ []
none_there [] h = refl
none_there (x ∷ l) h = absurd (cc)

survived_there : (o : Outcome) → is_survived o ≡ true → o ≡ survived
survived_there survived h = refl
survived_there not_run h = absurd (cc)
survived_there killed h = absurd (cc)
survived_there timed_out h = absurd (cc)
survived_there inconclusive h = absurd (cc)
survived_there errored h = absurd (cc)
survived_there (unnamed n) h = absurd (cc)

module _ (p : Platform) (opts : Options) (m : MutantRun) (first second : World)
    (bins : List TestBinary) where
  -- The world of the pass that decides that a mutant survived.
  abbrev pub whole_world : World
  whole_world = if has_any m.tests then second else first

  one_pass :
      has_any m.tests ≡ false
      → (run_one p opts m first second bins ≡ run_narrowed p opts m first bins)
        × (m ≡ whole m)
        × (whole_world ≡ first)
  unfolding run_one
  one_pass h = (
    rw h refl,
    ap (λ (t : Map (List Bytes)). record m { tests = t }) (none_there m.tests h),
    rw h refl,
  )

  settled_at_once :
      has_any m.tests ≡ true
      → is_survived (run_narrowed p opts m first bins).outcome ≡ false
      → run_one p opts m first second bins ≡ run_narrowed p opts m first bins
  unfolding run_one
  settled_at_once h k = rw (h, k) refl

  run_again :
      has_any m.tests ≡ true
      → is_survived (run_narrowed p opts m first bins).outcome ≡ true
      → (run_one p opts m first second bins ≡ run_narrowed p opts (whole m) second bins)
        × (whole_world ≡ second)
  unfolding run_one
  run_again h k = (rw (h, k) refl, rw h refl)

  -- A pass of `RunOne` that came to an outcome: the first, or the one over the whole binaries, which
  -- is made when the named tests let the mutant survive.
  abbrev pub EndedBy : (TestBinary → Result → Bool → Attempt → Type 0) → Type 0
  EndedBy Guilty =
      let a = run_one p opts m first second bins in
      Ended p opts m first bins a Guilty
      ⊎ (((run_narrowed p opts m first bins).outcome ≡ survived)
          × Ended p opts (whole m) second bins a Guilty)

  at_first :
      run_one p opts m first second bins ≡ run_narrowed p opts m first bins
      → ((run_one p opts m first second bins).outcome ≡ killed → EndedBy Kills)
        × ((run_one p opts m first second bins).outcome ≡ timed_out → EndedBy TimesOut)
  at_first e = rw e (
    λ s. inl ((narrowed-Ended p opts m first bins).0 s),
    λ s. inl ((narrowed-Ended p opts m first bins).1 s),
  )

  at_second :
      is_survived (run_narrowed p opts m first bins).outcome ≡ true
      → run_one p opts m first second bins ≡ run_narrowed p opts (whole m) second bins
      → ((run_one p opts m first second bins).outcome ≡ killed → EndedBy Kills)
        × ((run_one p opts m first second bins).outcome ≡ timed_out → EndedBy TimesOut)
  at_second survives e =
      let known = survived_there _ survives in
      rw e (
        λ s. inr (known, (narrowed-Ended p opts (whole m) second bins).0 s),
        λ s. inr (known, (narrowed-Ended p opts (whole m) second bins).1 s),
      )

  -- A mutant that survives `RunOne` has survived a pass over the whole binaries, not narrowed to
  -- named tests: at least one binary was selected, the process of every one of them ended well by
  -- the runner's own account, in the selected order, and the tree was put back.
  pub run_one-Survived :
      (run_one p opts m first second bins).outcome ≡ survived
      → Survived p opts (whole m) whole_world bins (run_one p opts m first second bins)
  run_one-Survived s = elim (Bool-cases (has_any m.tests)) [
    | inr f ↦
        let (e, same, world) = one_pass f in
        subst (λ (k : MutantRun × World × Attempt). Survived p opts k.0 k.1 bins k.2)
          (λ i. (same i, sym world i, sym e i))
          (narrowed-Survived p opts m first bins (ap (λ (a : Attempt). a.outcome) (sym e) ∙ s))
    | inl t ↦ elim (Bool-cases (is_survived (run_narrowed p opts m first bins).outcome)) [
      | inr f ↦
          let e = settled_at_once t f in
          absurd (cc (ap (λ (a : Attempt). is_survived a.outcome) (sym e), ap is_survived s, f))
      | inl again ↦
          let (e, world) = run_again t again in
          subst (λ (k : World × Attempt). Survived p opts (whole m) k.0 bins k.1)
            (λ i. (sym world i, sym e i))
            (narrowed-Survived p opts (whole m) second bins
              (ap (λ (a : Attempt). a.outcome) (sym e) ∙ s))
    ]
  ]

  -- What `RunOne` calls killed or timed out was ended by one binary, which it names: every binary
  -- before it was started and passed, none behind it was started, and the tree was put back. Its own
  -- process ran. Where it killed the mutant, it was in time, and took too much memory, or knew of test
  -- logs and had an exit code that is not that of success, of a process cut short, of a divergence or
  -- of an unknown mutant. Where it timed out, it was not in time, or had the code of a divergence and
  -- did not take too much memory.
  pub run_one-EndedBy :
      ((run_one p opts m first second bins).outcome ≡ killed → EndedBy Kills)
      × ((run_one p opts m first second bins).outcome ≡ timed_out → EndedBy TimesOut)
  run_one-EndedBy = elim (Bool-cases (has_any m.tests)) [
    | inr f ↦ let (e, same, world) = one_pass f in at_first e
    | inl t ↦ elim (Bool-cases (is_survived (run_narrowed p opts m first bins).outcome)) [
      | inr f ↦ at_first (settled_at_once t f)
      | inl again ↦ let (e, world) = run_again t again in at_second again e
    ]
  ]
