-- ===== src/Loadgen/Workers/Runs.antt =====
-- The workers come to an end, and then each query is counted once.
use kubedns_shepherd.Base.{
  ℤ, pos, negsuc, ℕ, zero, suc, ◌+◌, ◌*◌, ◌^◌, ◌<◌, ◌≤◌, true, false, Bool-cases, ◌≡◌, ◌≢◌, ◌⊎◌,
  ◌↔◌, refl, sym, ap, ◌∙◌, ok-injective, arith, inl, inr, Text, codes, text_eq, text_eq_iff, Result,
  ok, err,
}
use kubedns_shepherd.Loadgen.Workers.{
  value, exit_2, below_one, env_positive_int, checked, Phase, sending, waiting, returned, State,
  state, Step, send, succeed, fail, close, leave, return, Steps, start, step,
}

-- What holds in each phase: no worker leaves before the channel is closed, all jobs are sent by then,
-- and all workers have left when `Wait` returns.
InPhase : ℕ → Phase → (unsent left : ℕ) → Type 0
InPhase concurrency sending unsent left = left ≡ 0
InPhase concurrency waiting unsent left = unsent ≡ 0
InPhase concurrency returned unsent left = (unsent ≡ 0) × (left ≡ concurrency)

abbrev of_phase : Phase → ℕ
of_phase sending = 0
of_phase waiting = 1
of_phase returned = 2

-- Every query is unsent, looked up, or counted, and every worker is idle, busy or gone; a query takes
-- two steps, a worker one to leave, and `main` two.
record Balanced (concurrency queries n : ℕ) (phase : Phase) (unsent idle busy left s f : ℕ)
    : Type 0 where
  jobs : unsent + busy + s + f ≡ queries
  workers : idle + busy + left ≡ concurrency
  steps : n + 2 * unsent + busy ≡ 2 * queries + left + of_phase phase
  in_phase : InPhase concurrency phase unsent left

abbrev IsBalanced : ℕ → ℕ → ℕ → State → Type 0
IsBalanced concurrency queries n (state phase unsent idle busy left s f) =
    Balanced concurrency queries n phase unsent idle busy left s f

step-IsBalanced :
    (concurrency queries n : ℕ) {p q : State}
    → queries < 2 ^ 63
    → IsBalanced concurrency queries n p
    → Step concurrency p q
    → IsBalanced concurrency queries (suc n) q
unfolding InPhase
step-IsBalanced c q n small b (send unsent idle busy left s f) = record {
  jobs = omega (arith, b.jobs);
  workers = omega (arith, b.workers);
  steps = omega (arith, b.steps);
  in_phase = b.in_phase;
}
step-IsBalanced c q n small b (succeed phase unsent idle busy left s f) = record {
  jobs = omega (arith, b.jobs, small);
  workers = omega (arith, b.workers);
  steps = omega (arith, b.steps);
  in_phase = b.in_phase;
}
step-IsBalanced c q n small b (fail phase unsent idle busy left s f) = record {
  jobs = omega (arith, b.jobs, small);
  workers = omega (arith, b.workers);
  steps = omega (arith, b.steps);
  in_phase = b.in_phase;
}
step-IsBalanced c q n small b (close idle busy left s f) = record {
  jobs = b.jobs;
  workers = b.workers;
  steps = omega (arith, b.steps);
  in_phase = refl;
}
step-IsBalanced c q n small b (leave unsent idle busy left s f) = record {
  jobs = b.jobs;
  workers = omega (arith, b.workers);
  steps = omega (arith, b.steps);
  in_phase = b.in_phase;
}
step-IsBalanced c q n small b (return unsent idle busy left s f all_left) = record {
  jobs = b.jobs;
  workers = b.workers;
  steps = omega (arith, b.steps);
  in_phase = (b.in_phase, all_left);
}

Steps-IsBalanced :
    {concurrency queries n : ℕ} {p : State}
    → queries < 2 ^ 63
    → Steps concurrency queries n p
    → IsBalanced concurrency queries n p
unfolding InPhase
Steps-IsBalanced small start = record {
  jobs = omega arith;
  workers = omega arith;
  steps = omega arith;
  in_phase = refl;
}
Steps-IsBalanced {concurrency} {queries} small (step {n} r e) =
    step-IsBalanced concurrency queries n small (Steps-IsBalanced small r) e

-- `workers.Wait()` has returned.
abbrev pub Finished : State → Type 0
Finished (state phase unsent idle busy left s f) = phase ≡ returned

next_step :
    (concurrency queries n : ℕ) (p : State)
    → 0 < concurrency
    → IsBalanced concurrency queries n p
    → Finished p ⊎ ((q : State) × Step concurrency p q)
unfolding InPhase
next_step c q n (state returned unsent idle busy left s f) h b = inl refl
next_step c q n (state phase unsent idle (suc busy) left s f) h b =
    inr (_, succeed phase unsent idle busy left s f)
next_step c q n (state sending zero idle zero left s f) h b = inr (_, close idle zero left s f)
next_step c q n (state sending (suc unsent) (suc idle) zero left s f) h b =
    inr (_, send unsent idle zero left s f)
next_step c q n (state sending (suc unsent) zero zero left s f) h b =
    absurd (omega (arith, h, b.workers, b.in_phase))
next_step c q n (state waiting unsent (suc idle) zero left s f) h b =
    inr (_, leave unsent idle zero left s f)
next_step c q n (state waiting unsent zero zero left s f) h b =
    inr (_, return unsent zero zero left s f (omega (arith, b.workers)))

-- The end: every worker has left, every job is sent, and every query counted.
abbrev pub IsComplete : ℕ → ℕ → State → Type 0
IsComplete concurrency queries (state phase unsent idle busy left s f) =
    (left ≡ concurrency) × (idle ≡ 0) × (unsent ≡ 0) × (busy ≡ 0) × (s + f ≡ queries)

of_phase-le : (phase : Phase) → of_phase phase ≤ 2
of_phase-le sending = omega arith
of_phase-le waiting = omega arith
of_phase-le returned = omega arith

IsBalanced-IsComplete : (c q n : ℕ) (p : State) → IsBalanced c q n p → Finished p → IsComplete c q p
unfolding InPhase
IsBalanced-IsComplete c q n (state returned unsent idle busy left s f) b finished =
    let (sent, gone) = b.in_phase in
    (
      gone,
      omega (arith, b.workers, gone),
      sent,
      omega (arith, b.workers, gone),
      omega (arith, b.jobs, b.workers, sent, gone),
    )
IsBalanced-IsComplete c q n (state sending unsent idle busy left s f) b finished = cc
IsBalanced-IsComplete c q n (state waiting unsent idle busy left s f) b finished = cc

-- Let there be a worker, and fewer than 2^63 queries. In every order of steps, `main` and the workers
-- take at most two steps for a query, one for a worker and two more, for closing the channel and for
-- returning from `Wait`; until `Wait` has returned they can go on, so no send, no worker and no
-- `Wait` waits forever; and when it has returned, every worker has left, every job is sent, no lookup
-- is open, and the successes and the failures sum up to the queries.
pub Steps_ends :
    (concurrency queries n : ℕ) (p : State)
    → 0 < concurrency
    → queries < 2 ^ 63
    → Steps concurrency queries n p
    → (n ≤ 2 * queries + concurrency + 2)
      × (Finished p ⊎ ((q : State) × Step concurrency p q))
      × (Finished p → IsComplete concurrency queries p)
Steps_ends concurrency queries n (state phase unsent idle busy left s f) some_worker small r =
    let b = Steps-IsBalanced small r in
    (
      omega (arith, b.steps, b.workers, of_phase-le phase),
      next_step concurrency queries n (state phase unsent idle busy left s f) some_worker b,
      IsBalanced-IsComplete concurrency queries n (state phase unsent idle busy left s f) b,
    )

value-injective : {i j : ℤ} → value i ≡ value j → i ≡ j
value-injective h = cc

below_one-false : (i : ℤ) → below_one i ≡ false → (m : ℕ) × (i ≡ pos m) × (0 < m)
below_one-false (pos m) h = (m, refl, ground (arith, h))
below_one-false (negsuc m) h = absurd (ground (arith, h))

-- What is checked of a text that is set.
checked_lem :
    (getenv : Text → Text) (atoi : Text → Result Text ℤ) (r : Result Text ℤ)
    → ((i : ℤ) → checked getenv atoi r ≡ value i → (m : ℕ) × (i ≡ pos m) × (0 < m))
      × ((checked getenv atoi r ≡ exit_2) ↔ ((i : ℤ) → r ≡ ok i → below_one i ≡ true))
checked_lem getenv atoi (err e) = (λ i k. cc, (λ k i l. cc, λ k. refl))
checked_lem getenv atoi (ok i) = elim (Bool-cases (below_one i)) [
  | inl e ↦ rw e (λ j k. cc, (λ k j l. ap below_one (sym (ok-injective refl l)) ∙ e, λ k. refl))
  | inr e ↦ rw e (
    λ j k. below_one-false j (ap below_one (value-injective (sym k)) ∙ e),
    (λ k. cc, λ k. absurd (ground (arith, k i refl, e))),
  )
]

-- A setting whose fallback is positive is positive, or the process ends with the code 2; and it ends
-- exactly if the variable is set to a text that is no integer, or to one below 1.
pub env_positive_int_lem :
    (getenv : Text → Text) (atoi : Text → Result Text ℤ) (name : Text) (n : ℕ)
    → 0 < n
    → ((i : ℤ)
        → env_positive_int getenv atoi name (pos n) ≡ value i
        → (m : ℕ) × (i ≡ pos m) × (0 < m))
      × ((env_positive_int getenv atoi name (pos n) ≡ exit_2)
          ↔ ((getenv name ≢ codes "") × ((i : ℤ) → atoi (getenv name) ≡ ok i → below_one i ≡ true)))
unfolding env_positive_int
env_positive_int_lem getenv atoi name n h = elim (Bool-cases (text_eq (getenv name) (codes ""))) [
  | inl e ↦ rw e (λ i k. (n, cc, h), (λ k. cc, λ k. absurd (k.0 ((text_eq_iff _ _).0 e))))
  | inr e ↦
      let (positive, ends) = checked_lem getenv atoi (atoi (getenv name)) in
      rw e (
        positive,
        (
          λ k. (λ empty. ground (arith, e, text_eq_iff (getenv name) (codes ""), empty), ends.0 k),
          λ k. ends.1 k.1,
        ),
      )
]
