-- ===== src/Workflow/Engine/Retry.antt =====
-- `_run_step_with_retry`: how many attempts are made and what is recorded of them.
use Prim.Native.Nat.{zero}
use civiclens.Prelude.{
  Bool, ℕ, List, ◌++◌, ◌∷◌, true, ◌≡◌, if◌then◌else◌, Option, none, false, ◌+◌, [], arith, suc, ◌<◌,
  Result-cases, inl, inr, some, refl,
}
use civiclens.Workflow.Engine.{
  StepOutcome, done_step, skipped_step, failed_step, StepSpec, Execution, attempts, give_up,
  record_step, run_step_with_retry, step_skipped, step_completed, step_failed, StepRecord,
  StepStatus, ℕ, Bool, List, StepFn, StepError, Context, settle,
}

abbrev same_status : StepStatus → StepStatus → Bool
same_status step_completed step_completed = true
same_status step_failed step_failed = true
same_status step_skipped step_skipped = true
same_status _ _ = false

-- The number of rows with that status.
pub count_rows : StepStatus → List StepRecord → ℕ
count_rows status [] = 0
count_rows status (r ∷ rs) =
    let rest = count_rows status rs in if same_status status r.status then suc rest else rest

count_rows-append :
    (status : StepStatus) (rs : List StepRecord) (r : StepRecord)
    → count_rows status (rs ++ r ∷ [])
      ≡ count_rows status rs + (if same_status status r.status then 1 else 0)
unfolding count_rows
count_rows-append status [] r = ground arith
count_rows-append status (x ∷ rs) r = ground (arith, count_rows-append status rs r)

-- The rows that a step adds, when `n` attempts were left and none had succeeded.
abbrev pub Adds : ℕ → StepOutcome → List StepRecord → List StepRecord → Type 0
Adds n done_step old new =
    (count_rows step_completed new ≡ count_rows step_completed old + 1)
    × (count_rows step_failed new < count_rows step_failed old + n)
    × (count_rows step_skipped new ≡ count_rows step_skipped old)
Adds n skipped_step old new =
    (count_rows step_completed new ≡ count_rows step_completed old)
    × (count_rows step_failed new ≡ count_rows step_failed old + n)
    × (count_rows step_skipped new ≡ count_rows step_skipped old + 1)
Adds n failed_step old new =
    (count_rows step_completed new ≡ count_rows step_completed old)
    × (count_rows step_failed new ≡ count_rows step_failed old + n)
    × (count_rows step_skipped new ≡ count_rows step_skipped old)

Adds-after_failure :
    (n : ℕ) (o : StepOutcome) (old new : List StepRecord) (r : StepRecord)
    → r.status ≡ step_failed
    → Adds n o (old ++ r ∷ []) new
    → Adds (suc n) o old new
Adds-after_failure n done_step old new r f h = ground (
  arith,
  count_rows-append step_completed old r,
  count_rows-append step_failed old r,
  count_rows-append step_skipped old r,
)
Adds-after_failure n _ old new r f h = ground (
  arith,
  count_rows-append step_completed old r,
  count_rows-append step_failed old r,
  count_rows-append step_skipped old r,
)

module _ {W : Type 0} (spec : StepSpec) (index : ℕ) (fn : StepFn W) where
  completed_row : ℕ → StepRecord
  completed_row attempt = record {
    step_id = spec.step_id;
    step_index = index;
    status = step_completed;
    attempt = attempt;
    error_message = none;
  }

  skipped_row : Option StepError → StepRecord
  skipped_row last = record {
    step_id = spec.step_id;
    step_index = index;
    status = step_skipped;
    attempt = spec.retry_max_attempts;
    error_message = last;
  }

  give_up-Adds :
      (last : Option StepError) (e : Execution W)
      → Adds 0 (give_up spec index last e).0 e.steps (give_up spec index last e).1.steps
  unfolding give_up record_step skipped_row
  give_up-Adds last e = ground (
    arith,
    count_rows-append step_completed e.steps (skipped_row last),
    count_rows-append step_failed e.steps (skipped_row last),
    count_rows-append step_skipped e.steps (skipped_row last),
  )

  completed_row-Adds :
      (n attempt : ℕ) (c : Context) (e : Execution W) (w : W)
      → Adds
          (suc n)
          done_step
          e.steps
          (record_step spec.step_id index step_completed attempt none
            (record e { context = c; world = w })).steps
  unfolding record_step completed_row
  completed_row-Adds n attempt c e w = ground (
    arith,
    count_rows-append step_completed e.steps (completed_row attempt),
    count_rows-append step_failed e.steps (completed_row attempt),
    count_rows-append step_skipped e.steps (completed_row attempt),
  )

  attempts-Adds :
      (n attempt : ℕ) (last : Option StepError) (e : Execution W)
      → let (o, e') = attempts spec index fn n attempt last e in Adds n o e.steps e'.steps
  unfolding attempts
  attempts-Adds zero attempt last e = give_up-Adds last e
  attempts-Adds (suc n) attempt last e =
      let (o, elapsed, w) = fn e.context e.world in
      elim (Result-cases (settle spec e.context o elapsed)) [
        | inl (c, s) ↦ rw (s, attempts) (completed_row-Adds n attempt c e w)
        | inr (x, s) ↦
            let e1 =
              record_step spec.step_id index step_failed attempt (some x)
                (record e { world = w }) in
            rw (s, attempts)
              (Adds-after_failure n (attempts spec index fn n (suc attempt) (some x) e1).0 e.steps
                (attempts spec index fn n (suc attempt) (some x) e1).1.steps _ refl
                (unfold record_step in attempts-Adds n (suc attempt) (some x) e1))
      ]

  -- A step's function is tried until it succeeds, at most `retry_max_attempts` times, and each try
  -- has its row: a step that is done adds one completed row after fewer failed ones than that; a
  -- step that fails or is skipped adds exactly that many failed rows, and one skipped row if it is
  -- skipped.
  pub run_step_with_retry-Adds :
      (e : Execution W)
      → let (o, e') = run_step_with_retry spec index fn e in
        Adds spec.retry_max_attempts o e.steps e'.steps
  unfolding run_step_with_retry
  run_step_with_retry-Adds e = attempts-Adds spec.retry_max_attempts 1 none e
