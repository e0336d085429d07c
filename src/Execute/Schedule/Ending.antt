-- ===== src/Execute/Schedule/Ending.antt =====
-- The workers come to an end.
use go_mutants.Prelude.{
  some-inj, ℕ, zero, suc, ◌+◌, ◌-◌, ◌*◌, ◌≤◌, ◌<◌, ◌≡◌, refl, ap, inl, inr, Bool-cases, some, List,
  [], ◌∷◌, length, get_elem?, leb, arith,
}
use go_mutants.Execute.Schedule.{
  Attempt, MutantRun, tree_failure, is_some, Worker, idle, stopped, running, State, set, claim,
  finish, Step, cancel, leave, claims, finishes, Reach, here, then_step, replicate, start,
}
use go_mutants.Execute.Schedule.Slots.{RunsAt, Sound, get_elem?-present}
use go_mutants.Execute.Schedule.Passing.{Reach-Sound}

-- The steps of workers in a sequence; a cancellation is not one.
abbrev pub worker_steps : {mutants : List MutantRun} {s t : State} → Reach mutants s t → ℕ
worker_steps here = 0
worker_steps (then_step r (cancel _)) = worker_steps r
worker_steps (then_step r (leave _ _ _ _)) = suc (worker_steps r)
worker_steps (then_step r (claims _ _ _)) = suc (worker_steps r)
worker_steps (then_step r (finishes _ _ _ _ _ _ _)) = suc (worker_steps r)

abbrev effort : Worker → ℕ
effort idle = 1
effort stopped = 0
effort (running i) = 2

abbrev total_effort : List Worker → ℕ
total_effort [] = 0
total_effort (w ∷ ws) = effort w + total_effort ws

total_effort-set :
    (ws : List Worker) (w : ℕ) (x v : Worker)
    → get_elem? ws w ≡ some x
    → total_effort (set ws w v) + effort x ≡ total_effort ws + effort v
total_effort-set [] w x v e = absurd (cc)
total_effort-set (y ∷ ys) zero x v e = omega (arith, ap effort (some-inj e))
total_effort-set (y ∷ ys) (suc w) x v e = omega (arith, total_effort-set ys w x v e)

total_effort-replicate : (k : ℕ) → total_effort (replicate k idle) ≡ k
total_effort-replicate zero = refl
total_effort-replicate (suc k) = omega (arith, total_effort-replicate k)

-- What is left to do.
abbrev left : List MutantRun → State → ℕ
left mutants s = 2 * (length mutants - s.next) + total_effort s.workers

claim-left :
    (mutants : List MutantRun) (s : State) (w : ℕ)
    → get_elem? s.workers w ≡ some idle
    → left mutants (claim mutants w s) < left mutants s
unfolding claim
claim-left mutants s w e = elim (Bool-cases (leb (length mutants) s.next)) [
  | inl past ↦ rw past (ground (arith, past, total_effort-set s.workers w idle stopped e))
  | inr more ↦ rw more (ground (arith, more, total_effort-set s.workers w idle (running s.next) e))
]

finish-left :
    (mutants : List MutantRun) (s : State) (w i : ℕ) (m : MutantRun) (a : Attempt)
    → RunsAt s.workers i w
    → left mutants (finish w i m a s) < left mutants s
unfolding finish
finish-left mutants s w i m a e = elim (Bool-cases (is_some (tree_failure a))) [
  | inl t ↦ rw t (omega (arith, total_effort-set s.workers w (running i) stopped e))
  | inr t ↦ rw t (omega (arith, total_effort-set s.workers w (running i) idle e))
]

bounded :
    (mutants : List MutantRun) (k : ℕ) (s : State) (r : Reach mutants (start mutants k) s)
    → worker_steps r + left mutants s ≤ 2 * length mutants + k
bounded mutants k s here = omega (arith, total_effort-replicate k)
bounded mutants k s (then_step {t} r (cancel _)) = bounded mutants k t r
bounded mutants k s (then_step {t} r (leave _ w c e)) =
    omega (arith, bounded mutants k t r, total_effort-set t.workers w idle stopped e)
bounded mutants k s (then_step {t} r (claims _ w e)) =
    omega (arith, bounded mutants k t r, claim-left mutants t w e)
bounded mutants k s (then_step {t} r (finishes _ w i m a at e)) =
    omega (arith, bounded mutants k t r, finish-left mutants t w i m a at)

-- What a worker does next: nothing, if it stopped; it claims an index; or the run of the mutant
-- that it has claimed ends, with any attempt.
abbrev pub Moves : List MutantRun → State → ℕ → Worker → Type 0
Moves mutants s w stopped = Unit
Moves mutants s w idle = Step mutants s (claim mutants w s)
Moves mutants s w (running i) =
    (m : MutantRun) × (get_elem? mutants i ≡ some m)
    × ((a : Attempt) → Step mutants s (finish w i m a s))

moves :
    (mutants : List MutantRun) (s : State) (w : ℕ) (x : Worker)
    → Sound mutants s
    → get_elem? s.workers w ≡ some x
    → Moves mutants s w x
moves mutants s w stopped sound e = tt
moves mutants s w idle sound e = claims s w e
moves mutants s w (running i) sound e =
    let (m, at) = get_elem?-present mutants i (sound.busy w i e).1 in
    (m, at, λ a. finishes s w i m a e at)

-- The workers end: however they interleave, they take at most two steps for each mutant and one for
-- each worker together, and until then every worker that has not stopped can go on.
pub pass-Ends :
    (mutants : List MutantRun) (workers : ℕ) (s : State)
    (r : Reach mutants (start mutants workers) s)
    → (worker_steps r ≤ 2 * length mutants + workers)
      × ((w : ℕ) (x : Worker) → get_elem? s.workers w ≡ some x → Moves mutants s w x)
pass-Ends mutants k s r = (
  omega (arith, bounded mutants k s r),
  λ w x e. moves mutants s w x (Reach-Sound mutants k s r) e,
)
