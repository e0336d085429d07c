-- ===== src/Execute/Running/Verdict.antt =====
-- What the answer of `RunOne` says of the processes that were started.
use go_mutants.Prelude.{
  ℕ, suc, ◌+◌, ◌≡◌, ◌≢◌, refl, sym, ap, ◌∙◌, subst, inl, inr, Bool, true, Bool-cases, List, [], ◌∷◌,
  ◌++◌, append-nil, append_assoc, map, Bytes, length, arith,
}
use go_mutants.Mutation.Outcome.{not_run, killed, survived, timed_out}
use go_mutants.Execute.Attempts.{Attempt, MutantRun}
use go_mutants.Execute.Narrowing.{Platform}
use go_mutants.Execute.Running.Blame.{
  Kills, TimesOut, Explains, kills, times_out, fails, stops, ok-of_passed, explain,
  conclude-binaries,
}
use go_mutants.Execute.Running.{
  TestBinary, Result, World, Options, Pass, Ending, result_ok, conclude, note, result_at, ending_at,
  noted_at, run_from, start_failed, deadline, memory, cut_short, unsupported_log, log_path, log_at,
  unknown_mutant, divergence, log_unsupported, failing, passed,
}

abbrev pub names : List TestBinary → List Bytes
names bins = map (λ (bin : TestBinary). bin.import_path) bins

module _ (p : Platform) (opts : Options) (m : MutantRun) (w : World) (pass : Pass) where
  -- The process of the binary ended because it knew no test log.
  abbrev pub refuses_at : ℕ → TestBinary → Bool
  refuses_at i bin =
      unsupported_log (log_path p pass.plan i) (result_at p opts m w pass i bin)
        (log_at p opts m w pass i bin)

  -- How the pass over the binaries, the first of them at index `i`, came to the attempt: each binary
  -- is started only when those before it, `prior`, passed.
  pub data Ends (a : Attempt) : ℕ → List TestBinary → List Bytes → Type 0 where
    all_passed :
        {i : ℕ} {prior : List Bytes} → a.outcome ≡ survived → a.binaries ≡ prior → Ends a i [] prior
    left :
        {i : ℕ} {bin : TestBinary} {bins : List TestBinary} {prior : List Bytes}
        → w.cancelled i ≡ true
        → a.outcome ≡ not_run
        → a.binaries ≡ prior
        → Ends a i (bin ∷ bins) prior
    ended_by :
        {i : ℕ} {bin : TestBinary} {bins : List TestBinary} {prior : List Bytes}
        → Explains bin (result_at p opts m w pass i bin) (refuses_at i bin) a
        → a.binaries ≡ prior ++ bin.import_path ∷ []
        → Ends a i (bin ∷ bins) prior
    goes_on :
        {i : ℕ} {bin : TestBinary} {bins : List TestBinary} {prior : List Bytes}
        → result_ok (result_at p opts m w pass i bin) ≡ true
        → Ends a (suc i) bins (prior ++ bin.import_path ∷ [])
        → Ends a i (bin ∷ bins) prior

  module _ (i : ℕ) (bin : TestBinary) (bins : List TestBinary) (n rest : Attempt) where
    stop-Ends :
        (e : Ending)
        → ending_at p opts m w pass i bin ≡ e
        → e ≢ passed
        → (prior : List Bytes) → n.binaries ≡ prior ++ bin.import_path ∷ []
        → Ends (conclude e bin (result_at p opts m w pass i bin) n) i (bin ∷ bins) prior
    unfolding ending_at
    stop-Ends e h k prior b =
        ended_by (explain bin _ (refuses_at i bin) n e h k) (conclude-binaries e bin _ n ∙ b)

    after-Ends :
        (e : Ending)
        → ending_at p opts m w pass i bin ≡ e
        → (prior : List Bytes) → n.binaries ≡ prior ++ bin.import_path ∷ []
        → Ends rest (suc i) bins (prior ++ bin.import_path ∷ [])
        → Ends
            (elim e [ passed ↦ rest | e' ↦ conclude e' bin (result_at p opts m w pass i bin) n ])
            i
            (bin ∷ bins)
            prior
    unfolding ending_at
    after-Ends passed h prior b k = goes_on (ok-of_passed _ _ h) k
    after-Ends start_failed h prior b k = stop-Ends start_failed h (λ q. absurd (cc)) prior b
    after-Ends deadline h prior b k = stop-Ends deadline h (λ q. absurd (cc)) prior b
    after-Ends memory h prior b k = stop-Ends memory h (λ q. absurd (cc)) prior b
    after-Ends cut_short h prior b k = stop-Ends cut_short h (λ q. absurd (cc)) prior b
    after-Ends unknown_mutant h prior b k = stop-Ends unknown_mutant h (λ q. absurd (cc)) prior b
    after-Ends divergence h prior b k = stop-Ends divergence h (λ q. absurd (cc)) prior b
    after-Ends log_unsupported h prior b k = stop-Ends log_unsupported h (λ q. absurd (cc)) prior b
    after-Ends failing h prior b k = stop-Ends failing h (λ q. absurd (cc)) prior b

  pub run_from-Ends :
      (i : ℕ) (bins : List TestBinary) (a : Attempt)
      → a.outcome ≡ survived
      → Ends (run_from p opts m w pass i bins a) i bins a.binaries
  unfolding run_from noted_at note
  run_from-Ends i [] a s = all_passed s refl
  run_from-Ends i (bin ∷ bins) a s = elim (Bool-cases (w.cancelled i)) [
    | inl t ↦ rw (t, run_from) (left t refl refl)
    | inr f ↦
        rw (f, run_from)
          (after-Ends i bin bins (noted_at p opts m w pass i bin a) _ _ refl a.binaries refl
            (run_from-Ends (suc i) bins (noted_at p opts m w pass i bin a) s))
  ]

  not_survived :
      {bin : TestBinary} {r : Result} {u : Bool} {a : Attempt}
      → Explains bin r u a
      → a.outcome ≢ survived
  not_survived (kills k) s = absurd (cc (k.outcome, s))
  not_survived (times_out k) s = absurd (cc (k.outcome, s))
  not_survived (fails k) s = absurd (cc)
  not_survived (stops k u) s = absurd (cc)

  -- The processes of the binaries ended well, the first of them at index `i`.
  abbrev pub Passed : ℕ → List TestBinary → Type 0
  Passed i [] = Unit
  Passed i (bin ∷ bins) = (result_ok (result_at p opts m w pass i bin) ≡ true) × Passed (suc i) bins

  -- In a pass that a mutant survives every binary passes.
  pub Ends-survived :
      {a : Attempt} {i : ℕ} {bins : List TestBinary} {prior : List Bytes}
      → Ends a i bins prior
      → a.outcome ≡ survived
      → (a.binaries ≡ prior ++ names bins) × Passed i bins
  Ends-survived (all_passed e b) s = (b ∙ sym (append-nil _), tt)
  Ends-survived (left c e b) s = absurd (cc)
  Ends-survived (ended_by e b) s = absurd (not_survived e s)
  Ends-survived (goes_on {i} {bin} {bins} {prior} r e) s =
      let (b, rest) = Ends-survived e s in
      (b ∙ append_assoc prior (bin.import_path ∷ []) (names bins), (r, rest))

  -- The binary that ended the pass stands behind those that passed.
  pub record Culprit (a : Attempt) (i : ℕ) (bins : List TestBinary) (prior : List Bytes)
      (Guilty : TestBinary → Result → Bool → Attempt → Type 0) : Type 0 where
    pub before : List TestBinary
    pub bin : TestBinary
    pub after : List TestBinary
    pub place : bins ≡ before ++ bin ∷ after
    pub innocent : Passed i before
    pub guilty :
        Guilty bin
          (result_at p opts m w pass (i + length before) bin)
          (refuses_at (i + length before) bin)
          a
    pub started : a.binaries ≡ prior ++ names (before ++ bin ∷ [])

  found_here :
      {a : Attempt} {Guilty : TestBinary → Result → Bool → Attempt → Type 0} (i : ℕ)
      (bin : TestBinary) (bins : List TestBinary) (prior : List Bytes)
      → Guilty bin (result_at p opts m w pass i bin) (refuses_at i bin) a
      → a.binaries ≡ prior ++ bin.import_path ∷ []
      → Culprit a i (bin ∷ bins) prior Guilty
  found_here {a} {Guilty} i bin bins prior g b = record {
    before = [];
    bin = bin;
    after = bins;
    place = refl;
    innocent = tt;
    guilty =
        subst (λ k. Guilty bin (result_at p opts m w pass k bin) (refuses_at k bin) a) (omega arith)
          g;
    started = b;
  }

  found_later :
      {a : Attempt} {Guilty : TestBinary → Result → Bool → Attempt → Type 0} (i : ℕ)
      (bin : TestBinary) (bins : List TestBinary) (prior : List Bytes)
      → result_ok (result_at p opts m w pass i bin) ≡ true
      → Culprit a (suc i) bins (prior ++ bin.import_path ∷ []) Guilty
      → Culprit a i (bin ∷ bins) prior Guilty
  found_later {a} {Guilty} i bin bins prior r c = record {
    before = bin ∷ c.before;
    bin = c.bin;
    after = c.after;
    place = ap (λ (l : List TestBinary). bin ∷ l) c.place;
    innocent = (r, c.innocent);
    guilty =
        subst (λ k. Guilty c.bin (result_at p opts m w pass k c.bin) (refuses_at k c.bin) a)
          (omega arith) c.guilty;
    started =
        c.started ∙ append_assoc prior (bin.import_path ∷ []) (names (c.before ++ c.bin ∷ []));
  }

  pub Ends-killed :
      {a : Attempt} {i : ℕ} {bins : List TestBinary} {prior : List Bytes}
      → Ends a i bins prior
      → a.outcome ≡ killed
      → Culprit a i bins prior Kills
  Ends-killed (all_passed e b) s = absurd (cc)
  Ends-killed (left c e b) s = absurd (cc)
  Ends-killed (ended_by {i} {bin} {bins} {prior} (kills k) b) s = found_here i bin bins prior k b
  Ends-killed (ended_by (times_out k) b) s = absurd (cc (k.outcome, s))
  Ends-killed (ended_by (fails k) b) s = absurd (cc)
  Ends-killed (ended_by (stops k u) b) s = absurd (cc)
  Ends-killed (goes_on {i} {bin} {bins} {prior} r e) s =
      found_later i bin bins prior r (Ends-killed e s)

  pub Ends-timed_out :
      {a : Attempt} {i : ℕ} {bins : List TestBinary} {prior : List Bytes}
      → Ends a i bins prior
      → a.outcome ≡ timed_out
      → Culprit a i bins prior TimesOut
  Ends-timed_out (all_passed e b) s = absurd (cc)
  Ends-timed_out (left c e b) s = absurd (cc)
  Ends-timed_out (ended_by {i} {bin} {bins} {prior} (times_out k) b) s =
      found_here i bin bins prior k b
  Ends-timed_out (ended_by (kills k) b) s = absurd (cc (k.outcome, s))
  Ends-timed_out (ended_by (fails k) b) s = absurd (cc)
  Ends-timed_out (ended_by (stops k u) b) s = absurd (cc)
  Ends-timed_out (goes_on {i} {bin} {bins} {prior} r e) s =
      found_later i bin bins prior r (Ends-timed_out e s)
