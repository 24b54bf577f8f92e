-- ===== src/Workflow/Engine/Store/Tests.antt =====
-- A workflow with two steps that need approval, paused at the first of them.
use civiclens.Workflow.Engine.{
  StepSpec, StepFn, Registry, Context, returns, approval_key, is_true, waiting_approval, run, loop,
  round, guard_step,
}
use civiclens.Workflow.Engine.Approval.{IsNotCalled, Withholds}
use civiclens.Workflow.Engine.Store.{
  Stored, Session, Definition, StepDict, from_dict, resume, run_stored, approve, update,
}
use civiclens.Workflow.Engine.Store.Resume.{resume_gates_others}
use civiclens.Prelude.{
  ℕ, zero, suc, ◌+◌, String, ◌≡◌, refl, sym, ap, true, false, none, some, [], ◌∷◌, map, ok,
  get_elem?,
}

abbrev gate : String → StepDict
gate id = record {
  step_id = id;
  on_failure = none;
  retry_max_attempts = none;
  timeout_seconds = none;
  requires_approval = some true;
  condition_key = none;
}

abbrev transfer : Definition
transfer = record {
  name = "Transfer";
  version = "1";
  steps = gate "consent" ∷ gate "send" ∷ [];
  active = true;
}

abbrev steady : StepFn ℕ
steady c w = (returns none, 1, w + 1)

registry : Registry ℕ
registry id = some steady

abbrev paused : Stored
paused = record {
  workflow_id = "transfer";
  correlation_id = "case-7";
  status = waiting_approval;
  current_step_index = 0;
  context = λ key. none;
  steps = [];
}

abbrev session : Session ℕ
session = record { definitions = λ id. some transfer; executions = λ id. some paused; world = 0 }

withheld :
    (sid : String) (fn : StepFn ℕ) (c : Context) (w : ℕ)
    → registry sid ≡ some fn
    → Withholds "consent" (fn c w).0
unfolding registry
withheld sid fn c w r = let e : steady ≡ fn = cc r in rw (← e) tt

gated :
    (i : ℕ) (spec : StepSpec)
    → get_elem? (map from_dict transfer.steps) i ≡ some spec
    → spec.step_id ≡ "consent"
    → spec.requires_approval ≡ true
unfolding from_dict
gated zero spec here same =
    let e : from_dict (gate "consent") ≡ spec = cc here in
    sym (ap (λ (s : StepSpec). s.requires_approval) e)
gated (suc zero) spec here same =
    let e : from_dict (gate "send") ≡ spec = cc here in
    sym (ap (λ (s : StepSpec). s.requires_approval) e)
gated (suc (suc i)) spec here same = cc

-- Approving the step `send` leaves the execution waiting for `consent`.
abbrev after : Stored
after = record paused { context = approve (some "send") (λ key. none) }

abbrev after_session : Session ℕ
after_session = record session { executions = update session.executions "x1" (some after) }

resume_run : resume 5 registry "x1" (some "send") session ≡ ok (some (after, after_session))
unfolding resume run_stored from_dict run loop round guard_step approve
resume_run = refl

resume_gates_others_example :
    IsNotCalled "consent" after.steps × (is_true (after.context (approval_key "consent")) ≡ false)
resume_gates_others_example =
    resume_gates_others registry transfer "consent" withheld gated 5 "x1" "send" paused after
      session after_session refl refl refl refl tt refl resume_run
