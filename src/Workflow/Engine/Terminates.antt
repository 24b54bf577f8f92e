-- ===== src/Workflow/Engine/Terminates.antt =====
-- The loop of `_run`: where it goes next, and when it ends.
use Prim.Native.Nat.{zero}
use mathlib.Core.Path.{subst}
use civiclens.Prelude.{
  List, ℕ, Option, String, ◌≡◌, suc, get_elem?, some, Option-cases, none, ◌<◌, refl, inl, inr,
  Bool-cases, ◌&&◌, not, length, arith, ◌∷◌, ◌+◌, [],
}
use civiclens.Workflow.Engine.Rounds.{Round-cases}
use civiclens.Workflow.Engine.{
  Round, continue, return, StepOutcome, done_step, skipped_step, failed_step, StepSpec, index_from,
  branch_target, Registry, Execution, guard_step, after_step, branch_or_fail, List, ℕ, StepError,
  round, call_step, StepFn, run_step_with_retry, is_true, approval_key, skip_reason, loop, run,
}

-- Where a round may continue: at the next step, or at the one that the step's branch names.
pub data IsNext (specs : List StepSpec) (spec : StepSpec) (i j : ℕ) : Type 0 where
  following : j ≡ suc i → IsNext specs spec i j
  branched :
      (target : String)
      → branch_target spec ≡ some target
      → index_from 0 specs target ≡ some j
      → IsNext specs spec i j

abbrev Continues : {W : Type 0} → (ℕ → Type 0) → Round W → Type 0
Continues P (continue j e) = P j
Continues P (return e) = Unit

Continues-mono :
    {W : Type 0} {P Q : ℕ → Type 0}
    → ((j : ℕ) → P j → Q j)
    → (r : Round W) → Continues P r
    → Continues Q r
Continues-mono f (continue j e) h = f j h
Continues-mono f (return e) h = tt

get_elem?-bound :
    (specs : List StepSpec) (i : ℕ) {spec : StepSpec}
    → get_elem? specs i ≡ some spec
    → i < length specs
get_elem?-bound [] i h = cc
get_elem?-bound (x ∷ specs) zero h = omega arith
get_elem?-bound (x ∷ specs) (suc i) h = omega (arith, get_elem?-bound specs i h)

module _ {W : Type 0} (registry : Registry W) (specs : List StepSpec) where
  branch-IsNext :
      (spec : StepSpec) (i : ℕ) (o : Option String) (e : Execution W)
      → branch_target spec ≡ o
      → Continues (IsNext specs spec i) (branch_or_fail specs o e)
  unfolding branch_or_fail
  branch-IsNext spec i none e b = tt
  branch-IsNext spec i (some target) e b = elim (Option-cases (index_from 0 specs target)) [
    | inl missing ↦ rw (missing, Continues) tt
    | inr (j, found) ↦ rw (found, Continues) (branched target b found)
  ]

  after_step-IsNext :
      (spec : StepSpec) (i : ℕ) (o : StepOutcome) (e : Execution W)
      → Continues (IsNext specs spec i) (after_step specs spec i o e)
  unfolding after_step
  after_step-IsNext spec i done_step e = following refl
  after_step-IsNext spec i skipped_step e = following refl
  after_step-IsNext spec i failed_step e = branch-IsNext spec i (branch_target spec) e refl

  call_step-IsNext :
      (spec : StepSpec) (i : ℕ) (fn : Option (StepFn W)) (e : Execution W)
      → Continues (IsNext specs spec i) (call_step specs spec i fn e)
  unfolding call_step
  call_step-IsNext spec i none e = tt
  call_step-IsNext spec i (some fn) e =
      let (outcome, e') = run_step_with_retry spec i fn e in after_step-IsNext spec i outcome e'

  guard_step-IsNext :
      (spec : StepSpec) (i : ℕ) (reason : Option StepError) (e : Execution W)
      → Continues (IsNext specs spec i) (guard_step reason registry specs spec i e)
  unfolding guard_step
  guard_step-IsNext spec i (some reason) e = following refl
  guard_step-IsNext spec i none e =
      elim (Bool-cases
        (spec.requires_approval && not (is_true (e.context (approval_key spec.step_id))))) [
          | inl waiting ↦ rw (waiting, Continues) tt
          | inr free ↦ rw (free, Continues) (call_step-IsNext spec i (registry spec.step_id) e)
        ]

  round-Continues :
      (i : ℕ) (e : Execution W)
      → Continues
          (λ j. (spec : StepSpec) × (get_elem? specs i ≡ some spec) × IsNext specs spec i j)
          (round registry specs i e)
  unfolding round
  round-Continues i e = elim (Option-cases (get_elem? specs i)) [
    | inl over ↦ rw (over, Continues) tt
    | inr (spec, here) ↦
        rw (here, Continues)
          (Continues-mono (λ j next. (spec, here, next))
            (guard_step (skip_reason spec.condition_key e.context) registry specs spec i e)
            (guard_step-IsNext spec i (skip_reason spec.condition_key e.context) e))
  ]

  -- Every step's branch, if it names a step, names a later one.
  abbrev pub IsForward : Type 0
  IsForward =
      (i j : ℕ) (spec : StepSpec) (target : String)
      → get_elem? specs i ≡ some spec
      → branch_target spec ≡ some target
      → index_from 0 specs target ≡ some j
      → i < j

  -- A round that goes on leads to a later index, from one that is in range.
  round_advances :
      IsForward
      → (i j : ℕ) (e e' : Execution W) → round registry specs i e ≡ continue j e'
      → (i < j) × (i < length specs)
  round_advances forward i j e e' r = advances (subst (Continues _) r (round-Continues i e))
    where
      advances :
          (spec : StepSpec) × (get_elem? specs i ≡ some spec) × IsNext specs spec i j
          → (i < j) × (i < length specs)
      advances (spec, here, following h) = (omega arith, get_elem?-bound specs i here)
      advances (spec, here, branched target b found) =
          (forward i j spec target here b found, get_elem?-bound specs i here)

  loop_ends :
      IsForward
      → (fuel i : ℕ) (e : Execution W) → length specs < fuel + i
      → 0 < fuel
      → (e' : Execution W) × (loop fuel registry specs i e ≡ some e')
  unfolding loop
  loop_ends forward zero i e enough pos = absurd (omega arith)
  loop_ends forward (suc fuel) i e enough pos = elim (Round-cases (round registry specs i e)) [
    | inl (j, e', r) ↦
        let (further, within) = round_advances forward i j e e' r in
        rw (r, loop) (loop_ends forward fuel j e' (omega arith) (omega arith))
    | inr (e', r) ↦ (e', rw (r, loop) refl)
  ]

  -- When no step branches back, the run ends: one round for each step that is left and one more are
  -- enough, whatever the step functions do and however often they fail.
  pub forward_run_ends :
      IsForward
      → (fuel : ℕ) (e : Execution W) → length specs < fuel + e.current_step_index
      → 0 < fuel
      → (e' : Execution W) × (run fuel registry specs e ≡ some e')
  unfolding run
  forward_run_ends forward fuel e enough pos =
      loop_ends forward fuel e.current_step_index e enough pos
