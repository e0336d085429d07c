-- ===== src/Execute/Running/Blame.antt =====
-- How the process of a binary explains the attempt that it ended.
use go_mutants.Prelude.{
  ℕ, ◌≡◌, ◌≢◌, refl, ap, ◌⊎◌, inl, inr, Bool, true, false, List, map, Bytes, arith,
}
use go_mutants.Mutation.Outcome.{not_run, killed, timed_out, errored}
use go_mutants.Execute.Attempts.{ℤ, pos, negsuc, Attempt}
use go_mutants.Execute.Running.{
  TestBinary, Result, Ending, result_ok, is_zero, is_code, is_unavailable, classify, conclude,
  start_failed, deadline, memory, cut_short, unknown_mutant, divergence, log_unsupported, failing,
  passed,
}

abbrev pub names : List TestBinary → List Bytes
names bins = map (λ (bin : TestBinary). bin.import_path) bins

-- The exit code of tests that failed: not the one of success, of a process that was cut short, of
-- loops that do not end, or of a mutant that the binary does not know.
abbrev pub FailedTests : ℤ → Type 0
FailedTests code = (code ≢ pos 0) × (code ≢ negsuc 0) × (code ≢ pos 96) × (code ≢ pos 97)

-- A process that killed the mutant: it ran, was not stopped for its time, and took too much memory or
-- ended by its tests' failing, where `refused` tells that it knew no test log.
pub record Kills (bin : TestBinary) (r : Result) (refused : Bool) (a : Attempt) : Type 0 where
  pub outcome : a.outcome ≡ killed
  pub blame : a.killed_by ≡ bin.import_path
  pub ran : r.failed ≡ false
  pub in_time : r.timed_out ≡ false
  pub failure : (r.memory_exceeded ≡ true) ⊎ (FailedTests r.exit_code × (refused ≡ false))

-- A process that ran and did not come to an end in its time, or whose own loops told that it would
-- not.
pub record TimesOut (bin : TestBinary) (r : Result) (refused : Bool) (a : Attempt) : Type 0 where
  pub outcome : a.outcome ≡ timed_out
  pub blame : a.killed_by ≡ bin.import_path
  pub ran : r.failed ≡ false
  pub failure :
      (r.timed_out ≡ true)
      ⊎ ((r.timed_out ≡ false) × (r.memory_exceeded ≡ false) × (r.exit_code ≡ pos 96))

-- How a process explains the attempt that it ended.
pub data Explains (bin : TestBinary) (r : Result) (u : Bool) (a : Attempt) : Type 0 where
  kills : Kills bin r u a → Explains bin r u a
  times_out : TimesOut bin r u a → Explains bin r u a
  fails : a.outcome ≡ errored → Explains bin r u a
  stops : a.outcome ≡ not_run → is_unavailable r.exit_code ≡ true → Explains bin r u a

other_code : (n : ℕ) (code : ℤ) → is_code n code ≡ false → code ≢ pos n
other_code n code h = λ e. let k : is_code n (pos n) ≡ false = rw e at h in absurd (ground arith)

that_code : (n : ℕ) (code : ℤ) → is_code n code ≡ true → code ≡ pos n
that_code n (pos k) h = ap pos (ground arith)
that_code n (negsuc k) h = absurd (cc)

not_zero : (code : ℤ) → is_zero code ≡ false → code ≢ pos 0
not_zero code h = λ e. let k : is_zero (pos 0) ≡ false = rw e at h in absurd (cc)

not_cut_short : (code : ℤ) → is_unavailable code ≡ false → code ≢ negsuc 0
not_cut_short code h = λ e. let k : is_unavailable (negsuc 0) ≡ false = rw e at h in absurd (cc)

FailedTests-of :
    (code : ℤ)
    → is_zero code ≡ false
    → is_unavailable code ≡ false
    → is_code 96 code ≡ false
    → is_code 97 code ≡ false
    → FailedTests code
FailedTests-of code z c d u =
    (not_zero code z, not_cut_short code c, other_code 96 code d, other_code 97 code u)

pub ok-of_passed : (r : Result) (u : Bool) → classify r u ≡ passed → result_ok r ≡ true
unfolding classify
ok-of_passed r u e = ground arith

pub explain :
    (bin : TestBinary) (r : Result) (u : Bool) (a : Attempt) (e : Ending)
    → classify r u ≡ e
    → e ≢ passed
    → Explains bin r u (conclude e bin r a)
unfolding classify conclude
explain bin r u a start_failed h k = fails refl
explain bin r u a deadline h k =
    times_out
      (record { outcome = refl; blame = refl; ran = ground arith; failure = inl (ground arith) })
explain bin r u a memory h k = kills (record {
  outcome = refl;
  blame = refl;
  ran = ground arith;
  in_time = ground arith;
  failure = inl (ground arith);
})
explain bin r u a cut_short h k = stops refl (ground arith)
explain bin r u a unknown_mutant h k = fails refl
explain bin r u a divergence h k = times_out (record {
  outcome = refl;
  blame = refl;
  ran = ground arith;
  failure = inr (ground arith, ground arith, that_code 96 r.exit_code (ground arith));
})
explain bin r u a log_unsupported h k = fails refl
explain bin r u a failing h k = kills (record {
  outcome = refl;
  blame = refl;
  ran = ground arith;
  in_time = ground arith;
  failure = inr (
    FailedTests-of r.exit_code (ground arith) (ground arith) (ground arith) (ground arith),
    ground arith,
  );
})
explain bin r u a passed h k = absurd (k refl)

pub conclude-binaries :
    (e : Ending) (bin : TestBinary) (r : Result) (a : Attempt)
    → (conclude e bin r a).binaries ≡ a.binaries
unfolding conclude
conclude-binaries start_failed bin r a = refl
conclude-binaries deadline bin r a = refl
conclude-binaries memory bin r a = refl
conclude-binaries cut_short bin r a = refl
conclude-binaries unknown_mutant bin r a = refl
conclude-binaries divergence bin r a = refl
conclude-binaries log_unsupported bin r a = refl
conclude-binaries failing bin r a = refl
conclude-binaries passed bin r a = refl
