-- ===== src/Workflow/Engine/Store/Resume.antt =====
-- What an approval lets through.
use civiclens.Workflow.Engine.{StepSpec, Context, Registry, StepFn, approval_key, run, is_true}
use civiclens.Workflow.Engine.Approval.{IsNotCalled, Withholds, approval_gates_step}
use civiclens.Workflow.Engine.Store.{
  Stored, Session, Definition, from_dict, resume, resumed, run_stored, taken_up, stored_as, approve,
  is_waiting,
}
use civiclens.Prelude.{
  ℕ, String, ◌≡◌, sym, inl, inr, true, false, some, map, Bool-cases, Option-cases, get_elem?,
  str_eq, is_empty, ok,
}

approve_other :
    (approved : String) (context : Context) (key : String)
    → str_eq key (approval_key approved) ≡ false
    → approve (some approved) context key ≡ context key
unfolding approve
approve_other approved context key h = elim (Bool-cases (is_empty approved)) [
  | inl e ↦ rw e
  | inr e ↦ rw e (rw h)
]

module _ {W : Type 0} (registry : Registry W) (d : Definition) (id : String)
    (withheld : (sid : String) (fn : StepFn W) (c : Context) (w : W)
      → registry sid ≡ some fn
      → Withholds id (fn c w).0)
    (gated : (i : ℕ) (spec : StepSpec)
      → get_elem? (map from_dict d.steps) i ≡ some spec
      → spec.step_id ≡ id
      → spec.requires_approval ≡ true) where
  run_stored-gates :
      (fuel : ℕ) (exec_id : String) (x x' : Stored) (s s' : Session W)
      → is_true (x.context (approval_key id)) ≡ false
      → IsNotCalled id x.steps
      → run_stored fuel registry d.steps exec_id x s ≡ some (x', s')
      → IsNotCalled id x'.steps × (is_true (x'.context (approval_key id)) ≡ false)
  unfolding run_stored
  run_stored-gates fuel exec_id x x' s s' no_approval not_called h =
      elim (Option-cases (run fuel registry (map from_dict d.steps) (taken_up x s.world))) [
        | inl e ↦ absurd (let k = rw (e, run_stored) at h in cc k)
        | inr (r, e) ↦
            let k = rw (e, run_stored) at h in
            let same : stored_as x r ≡ x' = cc k in
            rw (sym same) (
              approval_gates_step registry (map from_dict d.steps) id withheld gated fuel
                (taken_up x s.world) r no_approval not_called e)
      ]

  -- Resuming a paused execution with the approval of one step never lets another through: a step
  -- that requires approval, is not approved and was not called, is still not called and not approved
  -- after the run, whichever other step was approved, as long as no step function approves it.
  pub resume_gates_others :
      (fuel : ℕ) (exec_id approved : String) (x x' : Stored) (s s' : Session W)
      → s.executions exec_id ≡ some x
      → is_waiting x.status ≡ true
      → s.definitions x.workflow_id ≡ some d
      → is_true (x.context (approval_key id)) ≡ false
      → IsNotCalled id x.steps
      → str_eq (approval_key id) (approval_key approved) ≡ false
      → resume fuel registry exec_id (some approved) s ≡ ok (some (x', s'))
      → IsNotCalled id x'.steps × (is_true (x'.context (approval_key id)) ≡ false)
  unfolding resume
  resume_gates_others fuel exec_id approved x x' s s' stored waits defined no_approval not_called
        other h =
      let h1 = rw (stored, resume) at h in
      let h2 = rw (waits, resume) at h1 in
      let h3 = rw (defined, resume) at h2 in
      run_stored-gates fuel exec_id (resumed (some approved) x) x' s s'
        (rw (approve_other approved x.context (approval_key id) other) no_approval) not_called
        (cc h3)
