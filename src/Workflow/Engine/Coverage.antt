-- ===== src/Workflow/Engine/Coverage.antt =====
-- A run that completes has settled every step.
use native.Mathlib.Decide.{dec_lt}
use civiclens.Workflow.Engine.Rounds.{Holds, loop_induction}
use Prim.Native.Nat.{zero}
use civiclens.Prelude.{
  ℕ, List, Bool, get_elem?, ◌==◌, ◌++◌, any, true, ◌≡◌, ◌∷◌, ◌&&◌, false, [], some, none, ◌||◌,
  arith, Option, suc, Result-cases, inl, inr, Bool-cases, ◌<◌, length, str_eq, Option-cases, not,
}
use civiclens.Workflow.Engine.{
  StepOutcome, failed_step, StepSpec, branch_target, Registry, Execution, attempts, settle, give_up,
  record_step, step_skipped, step_completed, step_failed, StepStatus, StepRecord, StepFn, StepError,
  after_step, guard_step, round, call_step, run, completed, run_step_with_retry, skip_reason,
  is_true, approval_key, done_step, skipped_step,
}

-- A row that settles the step with that index.
abbrev is_settling : StepStatus → Bool
is_settling step_completed = true
is_settling step_skipped = true
is_settling step_failed = false

abbrev settles : ℕ → StepRecord → Bool
settles k r = r.step_index == k && is_settling r.status

-- Some row of the step says that it completed or was skipped.
abbrev pub IsSettled : List StepRecord → ℕ → Type 0
IsSettled rows k = any (settles k) rows ≡ true

any-append :
    {A : Type 0} (p : A → Bool) (xs : List A) (y : A) → any p (xs ++ y ∷ []) ≡ (any p xs || p y)
any-append p [] y = ground arith
any-append p (x ∷ xs) y = ground (arith, any-append p xs y)

IsSettled-append :
    (rows : List StepRecord) (r : StepRecord) (k : ℕ)
    → IsSettled rows k
    → IsSettled (rows ++ r ∷ []) k
IsSettled-append rows r k h = rw any-append (ground arith)

IsSettled-last :
    (rows : List StepRecord) (r : StepRecord) (k : ℕ)
    → settles k r ≡ true
    → IsSettled (rows ++ r ∷ []) k
IsSettled-last rows r k h = rw any-append (ground arith)

over_range : (specs : List StepSpec) (i k : ℕ) → get_elem? specs i ≡ none → k < length specs → k < i
over_range [] i k h lt = absurd (omega arith)
over_range (x ∷ specs) zero k h lt = cc
over_range (x ∷ specs) (suc i) zero h lt = omega arith
over_range (x ∷ specs) (suc i) (suc k) h lt = omega (arith, over_range specs i k h)

module _ {W : Type 0} (registry : Registry W) (specs : List StepSpec)
    (linear : (i : ℕ) (spec : StepSpec)
      → get_elem? specs i ≡ some spec
      → branch_target spec ≡ none) where
  attempts-IsSettled :
      (spec : StepSpec) (index : ℕ) (fn : StepFn W) (n attempt : ℕ) (last : Option StepError)
      (e : Execution W) (k : ℕ)
      → IsSettled e.steps k
      → IsSettled (attempts spec index fn n attempt last e).1.steps k
  unfolding attempts give_up record_step
  attempts-IsSettled spec index fn zero attempt last e k h =
      elim (Bool-cases (str_eq spec.on_failure "skip")) [
        | inl skips ↦ rw (skips, attempts, give_up) (IsSettled-append e.steps _ k h)
        | inr fails ↦ rw (fails, attempts, give_up) h
      ]
  attempts-IsSettled spec index fn (suc n) attempt last e k h =
      let (o, elapsed, w) = fn e.context e.world in
      elim (Result-cases (settle spec e.context o elapsed)) [
        | inl (c, s) ↦ rw (s, attempts) (IsSettled-append e.steps _ k h)
        | inr (x, s) ↦
            let e1 =
              record_step spec.step_id index step_failed attempt (some x)
                (record e { world = w }) in
            rw (s, attempts)
              (attempts-IsSettled spec index fn n (suc attempt) (some x) e1 k
                (IsSettled-append e.steps _ k h))
      ]

  -- What a step leaves that did not fail.
  abbrev Settled : ℕ → StepOutcome → Execution W → Type 0
  Settled index failed_step e = Unit
  Settled index _ e = IsSettled e.steps index

  attempts-Settled :
      (spec : StepSpec) (index : ℕ) (fn : StepFn W) (n attempt : ℕ) (last : Option StepError)
      (e : Execution W)
      → let (o, e') = attempts spec index fn n attempt last e in Settled index o e'
  unfolding attempts give_up record_step
  attempts-Settled spec index fn zero attempt last e =
      elim (Bool-cases (str_eq spec.on_failure "skip")) [
        | inl skips ↦ rw (skips, attempts, give_up) (IsSettled-last e.steps _ index (ground arith))
        | inr fails ↦ rw (fails, attempts, give_up) tt
      ]
  attempts-Settled spec index fn (suc n) attempt last e =
      let (o, elapsed, w) = fn e.context e.world in
      elim (Result-cases (settle spec e.context o elapsed)) [
        | inl (c, s) ↦ rw (s, attempts) (IsSettled-last e.steps _ index (ground arith))
        | inr (x, s) ↦
            let e1 =
              record_step spec.step_id index step_failed attempt (some x)
                (record e { world = w }) in
            rw (s, attempts) (attempts-Settled spec index fn n (suc attempt) (some x) e1)
      ]

  -- All steps below `i` are settled.
  abbrev SettledBelow : ℕ → Execution W → Type 0
  SettledBelow i e = (k : ℕ) → k < i → IsSettled e.steps k

  abbrev SettledAtEnd : Execution W → Type 0
  SettledAtEnd e = e.status ≡ completed → SettledBelow (length specs) e

  below-suc :
      (e : Execution W) (i : ℕ) → SettledBelow i e → IsSettled e.steps i → SettledBelow (suc i) e
  below-suc e i below here k lt = elim (dec_lt k i) [
    | yes p ↦ below k p
    | no p ↦ let same : k ≡ i = omega arith in rw same here
  ]

  after_step-Settled :
      (spec : StepSpec) (i : ℕ) (o : StepOutcome) (e : Execution W)
      → branch_target spec ≡ none
      → SettledBelow i e
      → Settled i o e
      → Holds SettledBelow SettledAtEnd (after_step specs spec i o e)
  unfolding after_step
  after_step-Settled spec i done_step e no_branch below here = below-suc e i below here
  after_step-Settled spec i skipped_step e no_branch below here = below-suc e i below here
  after_step-Settled spec i failed_step e no_branch below here =
      rw (no_branch, Holds) (λ c. absurd (ground arith))

  call_step-Settled :
      (spec : StepSpec) (i : ℕ) (fn : Option (StepFn W)) (e : Execution W)
      → branch_target spec ≡ none
      → SettledBelow i e
      → Holds SettledBelow SettledAtEnd (call_step specs spec i fn e)
  unfolding call_step
  call_step-Settled spec i none e no_branch below = λ c. absurd (ground arith)
  call_step-Settled spec i (some fn) e no_branch below =
      let (o, e') = run_step_with_retry spec i fn e in
      after_step-Settled spec i o e' no_branch
        (λ k lt.
          unfold run_step_with_retry in
          attempts-IsSettled spec i fn spec.retry_max_attempts 1 none e k (below k lt))
        (unfold run_step_with_retry in attempts-Settled spec i fn spec.retry_max_attempts 1 none e)

  guard_step-Settled :
      (spec : StepSpec) (i : ℕ) (reason : Option StepError) (e : Execution W)
      → branch_target spec ≡ none
      → SettledBelow i e
      → Holds SettledBelow SettledAtEnd (guard_step reason registry specs spec i e)
  unfolding guard_step record_step
  guard_step-Settled spec i (some reason) e no_branch below =
      below-suc (record_step spec.step_id i step_skipped 1 (some reason) e) i
        (λ k lt. IsSettled-append e.steps _ k (below k lt))
        (IsSettled-last e.steps _ i (ground arith))
  guard_step-Settled spec i none e no_branch below =
      elim (Bool-cases
        (spec.requires_approval && not (is_true (e.context (approval_key spec.step_id))))) [
          | inl waiting ↦ rw (waiting, Holds) (λ c. absurd (ground arith))
          | inr free ↦
              rw (free, Holds) (call_step-Settled spec i (registry spec.step_id) e no_branch below)
        ]

  round-Settled :
      (i : ℕ) (e : Execution W)
      → SettledBelow i e
      → Holds SettledBelow SettledAtEnd (round registry specs i e)
  unfolding round
  round-Settled i e below = elim (Option-cases (get_elem? specs i)) [
    | inl over ↦ rw (over, Holds) (λ c k lt. below k (over_range specs i k over lt))
    | inr (spec, here) ↦
        rw (here, Holds)
          (guard_step-Settled spec i (skip_reason spec.condition_key e.context) e
            (linear i spec here) below)
  ]

  -- When no step branches, a run from the first step that ends as completed has, for every step of
  -- the definition, a row that says that it completed or was skipped.
  pub completed_run_settles_all :
      (fuel : ℕ) (e e' : Execution W)
      → e.current_step_index ≡ 0
      → run fuel registry specs e ≡ some e'
      → e'.status ≡ completed
      → (k : ℕ) → k < length specs
      → IsSettled e'.steps k
  unfolding run
  completed_run_settles_all fuel e e' start h =
      loop_induction registry specs SettledBelow SettledAtEnd round-Settled fuel
        e.current_step_index e e' (λ k lt. absurd (omega arith)) h
