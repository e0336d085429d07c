-- ===== src/Execute/Schedule/Passing.antt =====
-- The workers' pass over the mutants, as a whole.
use go_mutants.Prelude.{
  some-inj, ℕ, zero, suc, ◌+◌, ◌≤◌, ◌<◌, ◌≡◌, ◌≢◌, refl, sym, ap, ◌∙◌, subst, ◌⊎◌, inl, inr, true,
  false, Bool-cases, Option, none, some, List, [], ◌∷◌, length, get_elem?, leb, if◌then◌else◌,
  arith,
}
use native.Mathlib.Decide.{ℕ_discrete}
use go_mutants.Execute.Schedule.{
  Failure, Attempt, MutantRun, fresh, tree_failure, is_some, main_result, held_back, Worker, idle,
  stopped, running, State, set, first_failure, claim, finish, Step, cancel, leave, claims, finishes,
  Reach, here, then_step, replicate, fresh_all, start,
}
use go_mutants.Execute.Schedule.Slots.{
  Ran, RunsAt, Slot, waits, runs, ran, Sound, set_inv, keep_idle, start_run, end_run, end_other,
  ended_apart, length-set, get_elem?-present, first_failure-none, first_failure-some, running-inj,
}

get_elem?-bound {ℓ} :
    {A : Type ℓ} (xs : List A) (i : ℕ) (x : A) → get_elem? xs i ≡ some x → i < length xs
get_elem?-bound [] i x e = absurd (cc)
get_elem?-bound (y ∷ xs) zero x e = omega arith
get_elem?-bound (y ∷ xs) (suc i) x e = omega (arith, get_elem?-bound xs i x e)

stop_reason :
    (f : Option Failure) (a : Attempt)
    → (if is_some (tree_failure a) then stopped else idle) ≡ stopped
    → first_failure f (tree_failure a) ≢ none
stop_reason f a e none_failed = elim (Bool-cases (is_some (tree_failure a))) [
  | inl t ↦ absurd (cc (ap is_some (first_failure-none f (tree_failure a) none_failed).1, t))
  | inr t ↦ absurd (cc (rw t at e))
]

module _ (mutants : List MutantRun) (s : State) (sound : Sound mutants s) where
  cancel-Sound : Sound mutants (record s { cancelled = true })
  cancel-Sound = record {
    slots = λ i m e. elim (sound.slots i m e) [
      | waits h c ↦ waits h c
      | runs u h at only c ↦ runs u h at only c
      | ran a h q r ↦ ran a h q r
    ];
    busy = sound.busy;
    over = λ w e. inl refl;
  }

  -- A worker that ran nothing stops.
  stop-Sound :
      (next w : ℕ)
      → get_elem? s.workers w ≡ some idle
      → s.next ≤ next
      → ((i : ℕ) → i < length mutants → s.next ≤ i → next ≤ i)
      → (s.cancelled ≡ true) ⊎ (length mutants ≤ s.next)
      → Sound mutants (record s { next = next; workers = set s.workers w stopped })
  stop-Sound next w e up low why = record {
    slots = λ i m h.
        keep_idle s i m next s.cancelled w stopped e (λ p. absurd (cc)) up
          (low i (get_elem?-bound mutants i m h)) (sound.slots i m h);
    busy = λ u i h. elim (set_inv s.workers w stopped u (running i) h) [
      | inl p ↦ absurd (cc (p.1))
      | inr p ↦ (omega (arith, sound.busy u i p.1, up), (sound.busy u i p.1).1)
    ];
    over = λ u h. elim why [ inl c ↦ inl c | inr past ↦ inr (inr (omega arith)) ];
  }

  run-Sound :
      (w : ℕ)
      → get_elem? s.workers w ≡ some idle
      → s.next < length mutants
      → Sound mutants (record s { next = s.next + 1; workers = set s.workers w (running s.next) })
  run-Sound w e more = record {
    slots = λ i m h. start_run s i m w e (λ u j q. (sound.busy u j q).0) (sound.slots i m h);
    busy = λ u i h. elim (set_inv s.workers w (running s.next) u (running i) h) [
      | inl p ↦ (omega (arith, running-inj p.1), omega (arith, running-inj p.1))
      | inr p ↦ (omega (arith, sound.busy u i p.1), (sound.busy u i p.1).1)
    ];
    over = λ u h. elim (set_inv s.workers w (running s.next) u stopped h) [
      | inl p ↦ absurd (cc (p.1))
      | inr p ↦ elim (sound.over u p.1) [
        | inl c ↦ inl c
        | inr (inl f) ↦ inr (inl f)
        | inr (inr past) ↦ inr (inr (omega arith))
      ]
    ];
  }

  claim-Sound : (w : ℕ) → get_elem? s.workers w ≡ some idle → Sound mutants (claim mutants w s)
  unfolding claim
  claim-Sound w e = elim (Bool-cases (leb (length mutants) s.next)) [
    | inl past ↦ rw past (
        stop-Sound (s.next + 1) w e (omega arith) (λ i h k. absurd (ground (arith, past)))
          (inr (ground (arith, past))))
    | inr more ↦ rw more (run-Sound w e (ground (arith, more)))
  ]

  finish-Sound :
      (w i : ℕ) (m : MutantRun) (a : Attempt)
      → RunsAt s.workers i w
      → get_elem? mutants i ≡ some m
      → Sound mutants (finish w i m a s)
  unfolding finish
  finish-Sound w i m a at e = record {
    slots = λ j n h. elim (ℕ_discrete j i) [
      | yes same ↦
          subst (λ k. Slot (finish w i m a s) k n) (sym same)
            (subst (Slot (finish w i m a s) i)
              (some-inj (sym e ∙ ap (get_elem? mutants) (sym same) ∙ h))
              (end_run s i m w a at (sound.busy w i at).0 (sound.slots i m e)))
      | no other ↦ end_other s i j m n w a at other (sound.slots j n h)
    ];
    busy = λ u j h. elim (set_inv s.workers w _ u (running j) h) [
      | inl p ↦ absurd (ended_apart a j p.1)
      | inr p ↦ sound.busy u j p.1
    ];
    over = λ u h. elim (set_inv s.workers w _ u stopped h) [
      | inl p ↦ inr (inl (stop_reason s.failed a p.1))
      | inr p ↦ elim (sound.over u p.1) [
        | inl c ↦ inl c
        | inr (inl f) ↦ inr (inl (first_failure-some s.failed (tree_failure a) f))
        | inr (inr past) ↦ inr (inr past)
      ]
    ];
  }

Step-Sound :
    (mutants : List MutantRun) (s t : State) → Sound mutants s → Step mutants s t → Sound mutants t
Step-Sound mutants s t sound (cancel _) = cancel-Sound mutants s sound
Step-Sound mutants s t sound (leave _ w c e) =
    stop-Sound mutants s sound s.next w e (omega arith) (λ i h k. k) (inl c)
Step-Sound mutants s t sound (claims _ w e) = claim-Sound mutants s sound w e
Step-Sound mutants s t sound (finishes _ w i m a at e) = finish-Sound mutants s sound w i m a at e

get_elem?-fresh_all :
    (ms : List MutantRun) (i : ℕ) (m : MutantRun)
    → get_elem? ms i ≡ some m
    → get_elem? (fresh_all ms) i ≡ some (fresh m)
get_elem?-fresh_all [] i m e = absurd (cc)
get_elem?-fresh_all (n ∷ ms) zero m e = cc
get_elem?-fresh_all (n ∷ ms) (suc i) m e = get_elem?-fresh_all ms i m e

module _ {ℓ} {A : Type ℓ} (x : A) where
  get_elem?-replicate : (n i : ℕ) → i < n → get_elem? (replicate n x) i ≡ some x
  get_elem?-replicate zero i h = absurd (omega arith)
  get_elem?-replicate (suc n) zero h = refl
  get_elem?-replicate (suc n) (suc i) h = get_elem?-replicate n i (omega arith)

  replicate-only : (n i : ℕ) (y : A) → get_elem? (replicate n x) i ≡ some y → x ≡ y
  replicate-only zero i y e = absurd (cc)
  replicate-only (suc n) zero y e = some-inj e
  replicate-only (suc n) (suc i) y e = replicate-only n i y e

start-Sound : (mutants : List MutantRun) (k : ℕ) → Sound mutants (start mutants k)
start-Sound mutants k = record {
  slots = λ i m e. waits (omega arith) (record {
    result = get_elem?-fresh_all mutants i m e;
    held = get_elem?-replicate false (length mutants) i (get_elem?-bound mutants i m e);
  });
  busy = λ w i e. absurd (cc (replicate-only idle k w (running i) e));
  over = λ w e. absurd (cc (replicate-only idle k w stopped e));
}

-- In every state that the workers reach, whatever the runs answer and however the steps interleave,
-- the slot of each mutant is untouched and no worker runs it, or untouched with one worker that
-- runs it, or it holds what one run made of it and no worker runs it any more. Indices that workers
-- run were claimed and are mutants', and a worker has only stopped where the context was cancelled,
-- a tree was not restored, or every mutant was claimed.
pub Reach-Sound :
    (mutants : List MutantRun) (workers : ℕ) (s : State)
    → Reach mutants (start mutants workers) s
    → Sound mutants s
Reach-Sound mutants k s here = start-Sound mutants k
Reach-Sound mutants k s (then_step {t} {u} r step) =
    Step-Sound mutants t u (Reach-Sound mutants k t r) step

length-replicate {ℓ} : {A : Type ℓ} (n : ℕ) (x : A) → length (replicate n x) ≡ n
length-replicate zero x = refl
length-replicate (suc n) x = ap suc (length-replicate n x)

Step-workers :
    (mutants : List MutantRun) (s t : State)
    → Step mutants s t
    → length t.workers ≡ length s.workers
unfolding claim finish
Step-workers mutants s t (cancel _) = refl
Step-workers mutants s t (leave _ w c e) = length-set s.workers w stopped
Step-workers mutants s t (claims _ w e) = length-set s.workers w _
Step-workers mutants s t (finishes _ w i m a at e) = length-set s.workers w _

Reach-workers :
    (mutants : List MutantRun) (k : ℕ) (s : State)
    → Reach mutants (start mutants k) s
    → length s.workers ≡ k
Reach-workers mutants k s here = length-replicate k idle
Reach-workers mutants k s (then_step {t} {u} r step) =
    Step-workers mutants t u step ∙ Reach-workers mutants k t r

-- All workers have stopped.
abbrev pub Stopped : State → Type 0
Stopped s = (w : ℕ) (x : Worker) → get_elem? s.workers w ≡ some x → x ≡ stopped

module _ (mutants : List MutantRun) (s : State) (sound : Sound mutants s) (all : Stopped s) where
  stopped-Ran :
      (i : ℕ) (m : MutantRun)
      → Slot s i m
      → i < s.next
      → (a : Attempt) × Ran s.results s.pending s.failed i m a
  stopped-Ran i m (waits h c) k = absurd (omega arith)
  stopped-Ran i m (runs w h at only c) k = absurd (cc (all w (running i) at))
  stopped-Ran i m (ran a h q r) k = (a, r)

-- When all workers, and there is one, have stopped, the context was not cancelled and every tree was
-- restored, then each mutant was run once: its result is what the worker's loop makes of that one
-- attempt, it is held back for the retry exactly if the loop holds such an attempt back, and the
-- attempt restored its tree.
pub pass-RunsEach :
    (mutants : List MutantRun) (workers : ℕ) (s : State)
    → Reach mutants (start mutants workers) s
    → 0 < workers
    → Stopped s
    → s.cancelled ≡ false
    → s.failed ≡ none
    → (i : ℕ) (m : MutantRun) → get_elem? mutants i ≡ some m
    → (a : Attempt) × (get_elem? s.results i ≡ some (main_result m a (fresh m)))
      × (get_elem? s.pending i ≡ some (held_back m a))
      × (tree_failure a ≡ none)
pass-RunsEach mutants k s r some_worker all live restored i m e =
    let sound = Reach-Sound mutants k s r in
    let (x, at) =
      get_elem?-present s.workers 0 (omega (arith, Reach-workers mutants k s r, some_worker)) in
    let past : length mutants ≤ s.next = elim (sound.over 0 (at ∙ ap some (all 0 x at))) [
      | inl c ↦ absurd (cc (c, live))
      | inr (inl f) ↦ absurd (f restored)
      | inr (inr p) ↦ p
    ] in
    let (a, done) =
      stopped-Ran mutants s sound all i m (sound.slots i m e)
        (omega (arith, get_elem?-bound mutants i m e, past)) in
    (a, done.result, done.held, done.reported restored)
