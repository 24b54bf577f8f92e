-- ===== src/Workflow/Engine/Store.antt =====
-- app/interop/workflow/engine.py: `define_workflow`, and `start` and `resume` of `WorkflowEngine`,
-- over the stored definitions and executions, which are functions from their identifiers. The
-- identifier of a new execution is an argument. The world that an execution acts on is one for all.
pub mod Resume
mod Tests
use civiclens.RateLimit.Sliding.{update}
use civiclens.Workflow.Engine.{
  StepSpec, Execution, ExecutionStatus, running, waiting_approval, Context, Registry, bool, merge,
  approval_key, run, StepRecord,
}
use civiclens.Prelude.{
  ℕ, String, Bool, true, false, not, Option, none, some, List, [], map, if◌then◌else◌, value_or,
  str_eq, is_empty, Result, ok, err,
}

-- The JSON object of a step; `step_id` is always there, the other keys may be missing.
pub record StepDict : Type 0 where
  pub step_id : String
  pub on_failure : Option String
  pub retry_max_attempts : Option ℕ
  pub timeout_seconds : Option (Option ℕ)
  pub requires_approval : Option Bool
  pub condition_key : Option (Option String)

unfoldable pub from_dict : StepDict → StepSpec
from_dict d = record {
  step_id = d.step_id;
  on_failure = value_or "fail" d.on_failure;
  retry_max_attempts = value_or 1 d.retry_max_attempts;
  timeout_seconds = value_or none d.timeout_seconds;
  requires_approval = value_or false d.requires_approval;
  condition_key = value_or none d.condition_key;
}

unfoldable pub to_dict : StepSpec → StepDict
to_dict s = record {
  step_id = s.step_id;
  on_failure = some s.on_failure;
  retry_max_attempts = some s.retry_max_attempts;
  timeout_seconds = some s.timeout_seconds;
  requires_approval = some s.requires_approval;
  condition_key = some s.condition_key;
}

pub record Definition : Type 0 where
  pub name : String
  pub version : String
  pub steps : List StepDict
  pub active : Bool

-- A stored execution; the rows of its steps are kept with it.
pub record Stored : Type 0 where
  pub workflow_id : String
  pub correlation_id : String
  pub status : ExecutionStatus
  pub current_step_index : ℕ
  pub context : Context
  pub steps : List StepRecord

pub record Session (W : Type 0) : Type 0 where
  pub definitions : String → Option Definition
  pub executions : String → Option Stored
  pub world : W

-- The `ValueError`s of `start` and `resume`.
pub data EngineError : Type 0 where
  no_active_definition no_execution not_waiting definition_gone : EngineError

abbrev pub is_waiting : ExecutionStatus → Bool
is_waiting waiting_approval = true
is_waiting _ = false

-- `{**execution.context, f"_approved:{approve_step}": True}`, if there is a step to approve.
abbrev approval : String → Option Context
approval step =
    if is_empty step
    then none
    else some (λ key. if str_eq key (approval_key step) then some (bool true) else none)

unfoldable pub approve : Option String → Context → Context
approve none context = context
approve (some step) context = merge context (approval step)

-- What `resume` runs.
abbrev pub resumed : Option String → Stored → Stored
resumed approve_step x = record x { status = running; context = approve approve_step x.context }

module _ {W : Type 0} where
  -- Both branches of `define_workflow` store the same columns.
  pub define_workflow : String → String → String → List StepSpec → Session W → Session W
  define_workflow workflow_id name version steps s = record s {
    definitions = update s.definitions workflow_id (
        some (record { name = name; version = version; steps = map to_dict steps; active = true }));
  }

  -- An execution as the loop of the engine takes it up, and as it is stored again.
  abbrev pub taken_up : Stored → W → Execution W
  taken_up x w = record {
    status = x.status;
    current_step_index = x.current_step_index;
    context = x.context;
    steps = x.steps;
    world = w;
  }

  abbrev pub stored_as : Stored → Execution W → Stored
  stored_as x e = record x {
    status = e.status;
    current_step_index = e.current_step_index;
    context = e.context;
    steps = e.steps;
  }

  -- `_run` on a stored execution: `none` means that the fuel ran out.
  unfoldable pub run_stored :
      ℕ → Registry W → List StepDict → String → Stored → Session W → Option (Stored × Session W)
  run_stored fuel registry steps id x s =
      elim (run fuel registry (map from_dict steps) (taken_up x s.world)) [
        | none ↦ none
        | some e ↦ some (
          stored_as x e,
          record s { executions = update s.executions id (some (stored_as x e)); world = e.world },
        )
      ]

  unfoldable pub start :
      ℕ
      → Registry W
      → String
      → String
      → String
      → Context
      → Session W
      → Result EngineError (Option (Stored × Session W))
  unfolding run_stored
  start fuel registry id workflow_id correlation_id context s = elim (s.definitions workflow_id) [
    | none ↦ err no_active_definition
    | some d ↦
        if not d.active
        then err no_active_definition
        else ok (
            run_stored fuel registry d.steps id
              (record {
                workflow_id = workflow_id;
                correlation_id = correlation_id;
                status = running;
                current_step_index = 0;
                context = context;
                steps = [];
              })
              s)
  ]

  unfoldable pub resume :
      ℕ
      → Registry W
      → String
      → Option String
      → Session W
      → Result EngineError (Option (Stored × Session W))
  unfolding run_stored
  resume fuel registry id approve_step s = elim (s.executions id) [
    | none ↦ err no_execution
    | some x ↦ elim (is_waiting x.status) [
      | false ↦ err not_waiting
      | true ↦ elim (s.definitions x.workflow_id) [
        | none ↦ err definition_gone
        | some d ↦ ok (run_stored fuel registry d.steps id (resumed approve_step x) s)
      ]
    ]
  ]
