-- ===== src/Workflow/Engine.antt =====
-- app/interop/workflow/engine.py. A step function is a parameter: it reads the context and acts on
-- the world `W` (the database session, the connectors, the clock), and what it takes in time comes
-- back beside its outcome, in ticks of the monotonic clock. A context is a function from keys to
-- values; the engine only looks keys up and merges. Identifiers and the times of rows that the
-- engine stores are not modelled. `_run` may loop for ever through branches, so it takes fuel.
mod Rounds
pub mod Retry
pub mod Terminates
pub mod Approval
pub mod Coverage
pub mod Store
mod Tests
use Prim.Native.Nat.{zero}
use Prim.Native.String.{◌++◌ as append}
use civiclens.Prelude.{
  ℕ, suc, ◌*◌, String, Bool, true, false, Option, none, some, List, [], ◌∷◌, ◌++◌, ltb, or_else,
  str_eq, Result, ok, err, if◌then◌else◌, ◌&&◌, get_elem?, not,
}
use civiclens.RateLimit.Sliding.{tick}

-- A JSON value, as far as the engine looks at it: its truth value, and whether it is `True`.
pub data Value : Type 0 where
  null : Value
  bool : Bool → Value
  text : String → Value
  other : Bool → String → Value

abbrev is_truthy : Option Value → Bool
is_truthy none = false
is_truthy (some null) = false
is_truthy (some (bool b)) = b
is_truthy (some (text String.[])) = false
is_truthy (some (text (String.◌∷◌ c s))) = true
is_truthy (some (other b s)) = b

abbrev pub is_true : Option Value → Bool
is_true (some (bool b)) = b
is_true _ = false

abbrev pub Context : Type 0
Context = String → Option Value

-- `{**context, **(updates or {})}`
abbrev pub merge : Context → Option Context → Context
merge context none key = context key
merge context (some updates) key = or_else (updates key) (context key)

-- `s.split(p, 1)[1]` for a text that begins with `p`, and `none` for any other.
remove_prefix : String → String → Option String
remove_prefix String.[] s = some s
remove_prefix (String.◌∷◌ c p) String.[] = none
remove_prefix (String.◌∷◌ c p) (String.◌∷◌ d s) =
    let rest = remove_prefix p s in
    if str_eq (String.◌∷◌ c String.[]) (String.◌∷◌ d String.[]) then rest else none

pub record StepSpec : Type 0 where
  pub step_id : String
  pub on_failure : String
  pub retry_max_attempts : ℕ
  pub timeout_seconds : Option ℕ
  pub requires_approval : Bool
  pub condition_key : Option String

-- The step that `on_failure` names after `branch:`, if it does.
unfoldable pub branch_target : StepSpec → Option String
unfolding remove_prefix
branch_target spec = remove_prefix "branch:" spec.on_failure

abbrev pub approval_key : String → String
approval_key step_id = append "_approved:" step_id

pub data StepStatus : Type 0 where
  step_completed step_failed step_skipped : StepStatus

-- The messages of recorded steps.
pub data StepError : Type 0 where
  condition_falsy : String → StepError
  not_registered : String → StepError
  raised : String → StepError
  over_budget : ℕ → ℕ → StepError

-- A `WorkflowStepExecution`.
pub record StepRecord : Type 0 where
  pub step_id : String
  pub step_index : ℕ
  pub status : StepStatus
  pub attempt : ℕ
  pub error_message : Option StepError

pub data ExecutionStatus : Type 0 where
  running waiting_approval completed failed : ExecutionStatus

-- What a step function does: it raises, or it returns its updates or `None`.
pub data Outcome : Type 0 where
  raises : String → Outcome
  returns : Option Context → Outcome

-- A `WorkflowExecution` with the rows recorded for it and the world.
pub record Execution (W : Type 0) : Type 0 where
  pub status : ExecutionStatus
  pub current_step_index : ℕ
  pub context : Context
  pub steps : List StepRecord
  pub world : W

-- `{s.step_id: i for i, s in enumerate(steps)}`: the last step of a name wins.
pub index_from : ℕ → List StepSpec → String → Option ℕ
index_from i [] id = none
index_from i (spec ∷ specs) id =
    or_else (index_from (suc i) specs id) (if str_eq spec.step_id id then some i else none)

abbrev over_time : Option ℕ → ℕ → Bool
over_time none elapsed = false
over_time (some budget) elapsed = ltb (budget * tick) elapsed

abbrev budget_of : Option ℕ → ℕ
budget_of none = 0
budget_of (some budget) = budget

-- `updates = fn(context)`, the time check, and the merge.
settle : StepSpec → Context → Outcome → ℕ → Result StepError Context
settle spec context (raises message) elapsed = err (raised message)
settle spec context (returns updates) elapsed =
    if over_time spec.timeout_seconds elapsed
    then err (over_budget elapsed (budget_of spec.timeout_seconds))
    else ok (merge context updates)

-- What `_run_step_with_retry` returns.
pub data StepOutcome : Type 0 where
  done_step skipped_step failed_step : StepOutcome

-- What one round of the loop of `_run` does.
pub data Round (W : Type 0) : Type 0 where
  continue : ℕ → Execution W → Round W
  return : Execution W → Round W

abbrev pub StepFn : Type 0 → Type 0
StepFn W = Context → W → Outcome × ℕ × W

abbrev pub Registry : Type 0 → Type 0
Registry W = String → Option (StepFn W)

abbrev pub skip_reason : Option String → Context → Option StepError
skip_reason none context = none
skip_reason (some key) context =
    if is_truthy (context key) then none else some (condition_falsy key)

module _ {W : Type 0} where
  pub record_step : String → ℕ → StepStatus → ℕ → Option StepError → Execution W → Execution W
  record_step step_id index status attempt error_message e = record e {
    steps =
        e.steps
        ++ record {
          step_id = step_id;
          step_index = index;
          status = status;
          attempt = attempt;
          error_message = error_message;
        }
          ∷ [];
  }

  -- What follows the loop over the attempts.
  give_up : StepSpec → ℕ → Option StepError → Execution W → StepOutcome × Execution W
  unfolding record_step
  give_up spec index last e =
      if str_eq spec.on_failure "skip"
      then (
        skipped_step,
        record_step spec.step_id index step_skipped spec.retry_max_attempts last e,
      )
      else (failed_step, e)

  -- The loop: `n` attempts are left, the next one has the number `attempt`.
  attempts :
      StepSpec → ℕ → StepFn W → ℕ → ℕ → Option StepError → Execution W → StepOutcome × Execution W
  unfolding give_up
  attempts spec index fn zero attempt last e = give_up spec index last e
  attempts spec index fn (suc n) attempt last e =
      let (outcome, elapsed, w) = fn e.context e.world in
      elim (settle spec e.context outcome elapsed) [
        | ok context ↦ (
          done_step,
          record_step spec.step_id index step_completed attempt none
              (record e { context = context; world = w }),
        )
        | err x ↦
            attempts spec index fn n (suc attempt) (some x)
              (record_step spec.step_id index step_failed attempt (some x) (record e { world = w }))
      ]

  pub run_step_with_retry : StepSpec → ℕ → StepFn W → Execution W → StepOutcome × Execution W
  unfolding attempts
  run_step_with_retry spec index fn e = attempts spec index fn spec.retry_max_attempts 1 none e

  move_to : ℕ → Execution W → Round W
  move_to i e = continue i (record e { current_step_index = i })

  finish : ExecutionStatus → Execution W → Round W
  finish status e = return (record e { status = status })

  -- After a failed step: the branch, if there is one and it names a step.
  branch_or_fail : List StepSpec → Option String → Execution W → Round W
  unfolding move_to finish
  branch_or_fail specs none e = finish failed e
  branch_or_fail specs (some target) e = elim (index_from 0 specs target) [
    | none ↦ finish failed e
    | some j ↦ move_to j e
  ]

  after_step : List StepSpec → StepSpec → ℕ → StepOutcome → Execution W → Round W
  unfolding branch_or_fail branch_target
  after_step specs spec i done_step e = move_to (suc i) e
  after_step specs spec i skipped_step e = move_to (suc i) e
  after_step specs spec i failed_step e = branch_or_fail specs (branch_target spec) e

  call_step : List StepSpec → StepSpec → ℕ → Option (StepFn W) → Execution W → Round W
  unfolding after_step run_step_with_retry
  call_step specs spec i none e =
      finish failed
        (record_step spec.step_id i step_failed 1 (some (not_registered spec.step_id)) e)
  call_step specs spec i (some fn) e =
      let (outcome, e') = run_step_with_retry spec i fn e in after_step specs spec i outcome e'

  guard_step : Option StepError → Registry W → List StepSpec → StepSpec → ℕ → Execution W → Round W
  unfolding call_step
  guard_step (some reason) registry specs spec i e =
      move_to (suc i) (record_step spec.step_id i step_skipped 1 (some reason) e)
  guard_step none registry specs spec i e =
      if spec.requires_approval && not (is_true (e.context (approval_key spec.step_id)))
      then return (record e { status = waiting_approval; current_step_index = i })
      else call_step specs spec i (registry spec.step_id) e

  -- One round of `while i < len(steps)`, or what follows the loop.
  pub round : Registry W → List StepSpec → ℕ → Execution W → Round W
  unfolding guard_step
  round registry specs i e = elim (get_elem? specs i) [
    | none ↦ finish completed e
    | some spec ↦ guard_step (skip_reason spec.condition_key e.context) registry specs spec i e
  ]

  -- `none` means that the fuel ran out.
  pub loop : ℕ → Registry W → List StepSpec → ℕ → Execution W → Option (Execution W)
  loop zero registry specs i e = none
  loop (suc fuel) registry specs i e = elim (round registry specs i e) [
    | continue j e' ↦ loop fuel registry specs j e'
    | return e' ↦ some e'
  ]

  pub run : ℕ → Registry W → List StepSpec → Execution W → Option (Execution W)
  run fuel registry specs e = loop fuel registry specs e.current_step_index e
