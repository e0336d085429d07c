-- ===== src/Execute/Schedule/Slots.antt =====
-- What the workers make of the results: the slot of each mutant.
use go_mutants.Prelude.{
  some-inj, ℕ, ◌+◌, ◌≤◌, ◌<◌, ◌≡◌, ◌≢◌, refl, sym, ap, ◌∙◌, ◌⊎◌, inl, inr, Bool, true, false,
  Bool-cases, Option, none, some, List, length, get_elem?, if◌then◌else◌, arith,
}
use go_mutants.Execute.Schedule.{
  Failure, Attempt, MutantRun, MutantResult, fresh, tree_failure, is_some, main_result, held_back,
  Worker, idle, stopped, running, State, set, modify, first_failure, finish,
}
pub use go_mutants.Prelude.Arrays.{
  get_elem?-set_same, get_elem?-set_other, get_elem?-modify_same, get_elem?-modify_other,
  length-set, get_elem?-present, set_inv,
}
use native.Mathlib.Decide.{ℕ_discrete}

-- What the slot of mutant `m` holds after its run `a`.
pub record Ran (results : List MutantResult) (pending : List Bool) (failed : Option Failure) (i : ℕ)
    (m : MutantRun) (a : Attempt) : Type 0 where
  pub result : get_elem? results i ≡ some (main_result m a (fresh m))
  pub held : get_elem? pending i ≡ some (held_back m a)
  pub reported : failed ≡ none → tree_failure a ≡ none

-- The slot has not been written to.
pub record Untouched (results : List MutantResult) (pending : List Bool) (i : ℕ) (m : MutantRun)
    : Type 0 where
  pub result : get_elem? results i ≡ some (fresh m)
  pub held : get_elem? pending i ≡ some false

abbrev pub RunsAt : List Worker → ℕ → ℕ → Type 0
RunsAt workers i w = get_elem? workers w ≡ some (running i)

-- Before the run of the mutant, during it, and after it.
pub data Slot (s : State) (i : ℕ) (m : MutantRun) : Type 0 where
  waits : s.next ≤ i → Untouched s.results s.pending i m → Slot s i m
  runs :
      (w : ℕ)
      → i < s.next
      → RunsAt s.workers i w
      → ((v : ℕ) → RunsAt s.workers i v → v ≡ w)
      → Untouched s.results s.pending i m
      → Slot s i m
  ran :
      (a : Attempt)
      → i < s.next
      → ((v : ℕ) → ¬ RunsAt s.workers i v)
      → Ran s.results s.pending s.failed i m a
      → Slot s i m

-- Why a worker may have stopped.
abbrev pub Excused : ℕ → State → Type 0
Excused n s = (s.cancelled ≡ true) ⊎ (s.failed ≢ none) ⊎ (n ≤ s.next)

pub record Sound (mutants : List MutantRun) (s : State) : Type 0 where
  pub slots : (i : ℕ) (m : MutantRun) → get_elem? mutants i ≡ some m → Slot s i m
  pub busy : (w i : ℕ) → RunsAt s.workers i w → (i < s.next) × (i < length mutants)
  pub over : (w : ℕ) → get_elem? s.workers w ≡ some stopped → Excused (length mutants) s

-- A worker that ran nothing, and now does not run the mutant, changes no slot.
pub keep_idle :
    (s : State) (i : ℕ) (m : MutantRun) (next : ℕ) (cancelled : Bool) (w : ℕ) (v : Worker)
    → get_elem? s.workers w ≡ some idle
    → v ≢ running i
    → s.next ≤ next
    → (s.next ≤ i → next ≤ i)
    → Slot s i m
    → Slot (record s { next = next; cancelled = cancelled; workers = set s.workers w v }) i m
keep_idle s i m next c w v e d up low (waits h clean) = waits (low h) clean
keep_idle s i m next c w v e d up low (runs u h at only clean) =
    let other : u ≢ w = λ p. absurd (cc (ap (get_elem? s.workers) p, e, at)) in
    runs u (omega arith) (get_elem?-set_other s.workers w u v other ∙ at)
      (λ x r. elim (set_inv s.workers w v x (running i) r) [
        | inl p ↦ absurd (d p.1)
        | inr p ↦ only x p.1
      ])
      clean
keep_idle s i m next c w v e d up low (ran a h none_runs r) =
    ran a (omega arith)
      (λ x q. elim (set_inv s.workers w v x (running i) q) [
        | inl p ↦ d p.1
        | inr p ↦ none_runs x p.1
      ])
      r

pub running-inj : {a b : ℕ} → running a ≡ running b → a ≡ b
running-inj p = ap (λ v. elim v [ running k ↦ k | _ ↦ 0 ]) p

Slot-Untouched :
    (s : State) (i : ℕ) (m : MutantRun)
    → Slot s i m
    → s.next ≤ i
    → Untouched s.results s.pending i m
Slot-Untouched s i m (waits h clean) p = clean
Slot-Untouched s i m (runs u h at only clean) p = clean
Slot-Untouched s i m (ran a h none_runs r) p = absurd (omega arith)

-- The worker that takes the next index.
pub start_run :
    (s : State) (i : ℕ) (m : MutantRun) (w : ℕ)
    → get_elem? s.workers w ≡ some idle
    → ((v j : ℕ) → RunsAt s.workers j v → j < s.next)
    → Slot s i m
    → Slot (record s { next = s.next + 1; workers = set s.workers w (running s.next) }) i m
start_run s i m w e busy slot = elim (ℕ_discrete i s.next) [
  | yes same ↦
      runs w (omega arith)
        (get_elem?-set_same s.workers w idle (running s.next) e
          ∙ ap (λ k. some (running k)) (sym same))
        (λ x r. elim (set_inv s.workers w (running s.next) x (running i) r) [
          | inl p ↦ p.0
          | inr p ↦ absurd (omega (arith, busy x i p.1))
        ])
        (Slot-Untouched s i m slot (omega arith))
  | no other ↦
      keep_idle s i m (s.next + 1) s.cancelled w (running s.next) e
        (λ p. other (sym (running-inj p))) (omega arith) (λ h. omega arith) slot
]

pub first_failure-none : (f g : Option Failure) → first_failure f g ≡ none → (f ≡ none) × (g ≡ none)
first_failure-none (some f) g h = absurd (cc)
first_failure-none none g h = (refl, h)

pub first_failure-some : (f g : Option Failure) → f ≢ none → first_failure f g ≢ none
first_failure-some f g h e = h (first_failure-none f g e).0

-- After a run the worker runs nothing.
pub ended_apart :
    (a : Attempt) (j : ℕ) → ¬ ((if is_some (tree_failure a) then stopped else idle) ≡ running j)
ended_apart a j e = elim (Bool-cases (is_some (tree_failure a))) [
  | inl t ↦ absurd (cc (rw t at e))
  | inr t ↦ absurd (cc (rw t at e))
]

held_write :
    (pending : List Bool) (i : ℕ) (b : Bool)
    → get_elem? pending i ≡ some false
    → get_elem? (if b then set pending i true else pending) i ≡ some b
held_write pending i true e = get_elem?-set_same pending i false true e
held_write pending i false e = e

held_other :
    (pending : List Bool) (i j : ℕ) (b : Bool)
    → j ≢ i
    → get_elem? (if b then set pending i true else pending) j ≡ get_elem? pending j
held_other pending i j true d = get_elem?-set_other pending i j true d
held_other pending i j false d = refl

Untouched-other :
    (s : State) (i j : ℕ) (m n : MutantRun) (a : Attempt)
    → j ≢ i
    → Untouched s.results s.pending j n
    → Untouched
        (modify s.results i (main_result m a))
        (if held_back m a then set s.pending i true else s.pending)
        j
        n
Untouched-other s i j m n a d clean = record {
  result = get_elem?-modify_other s.results i j (main_result m a) d ∙ clean.result;
  held = held_other s.pending i j (held_back m a) d ∙ clean.held;
}

-- The slot of the mutant whose run ends.
pub end_run :
    (s : State) (i : ℕ) (m : MutantRun) (w : ℕ) (a : Attempt)
    → RunsAt s.workers i w
    → i < s.next
    → Slot s i m
    → Slot (finish w i m a s) i m
unfolding finish
end_run s i m w a at h (waits k clean) = absurd (omega arith)
end_run s i m w a at h (ran b k none_runs r) = absurd (none_runs w at)
end_run s i m w a at h (runs u k at_u only clean) =
    ran a h
      (λ x q. elim (set_inv s.workers w _ x (running i) q) [
        | inl p ↦ absurd (ended_apart a i p.1)
        | inr p ↦ p.0 (only x p.1 ∙ sym (only w at))
      ])
      (record {
        result = get_elem?-modify_same s.results i (fresh m) (main_result m a) clean.result;
        held = held_write s.pending i (held_back m a) clean.held;
        reported = λ e. (first_failure-none s.failed (tree_failure a) e).1;
      })

-- The slots of the other mutants.
pub end_other :
    (s : State) (i j : ℕ) (m n : MutantRun) (w : ℕ) (a : Attempt)
    → RunsAt s.workers i w
    → j ≢ i
    → Slot s j n
    → Slot (finish w i m a s) j n
unfolding finish
end_other s i j m n w a at d (waits k clean) = waits k (Untouched-other s i j m n a d clean)
end_other s i j m n w a at d (runs u k at_u only clean) =
    let other : u ≢ w =
      λ p. d (running-inj (some-inj (sym at_u ∙ ap (get_elem? s.workers) p ∙ at))) in
    runs u k (get_elem?-set_other s.workers w u _ other ∙ at_u)
      (λ x q. elim (set_inv s.workers w _ x (running j) q) [
        | inl p ↦ absurd (ended_apart a j p.1)
        | inr p ↦ only x p.1
      ])
      (Untouched-other s i j m n a d clean)
end_other s i j m n w a at d (ran b k none_runs r) =
    ran b k
      (λ x q. elim (set_inv s.workers w _ x (running j) q) [
        | inl p ↦ ended_apart a j p.1
        | inr p ↦ none_runs x p.1
      ])
      (record {
        result = get_elem?-modify_other s.results i j (main_result m a) d ∙ r.result;
        held = held_other s.pending i j (held_back m a) d ∙ r.held;
        reported = λ e. r.reported (first_failure-none s.failed (tree_failure a) e).0;
      })
