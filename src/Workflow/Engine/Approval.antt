-- ===== src/Workflow/Engine/Approval.antt =====
-- A step that waits for approval is not called without one.
use Prim.Native.Nat.{zero}
use civiclens.Prelude.{
  List, String, some, ◌≡◌, All, ok, ℕ, none, get_elem?, true, inl, inr, Option, refl, false, ◌≢◌,
  arith, All-append, suc, Bool-cases, str_eq, eq_iff, Option-cases, ◌&&◌, not, str_ne, Result-cases,
}
use civiclens.Workflow.Engine.Rounds.{Holds, loop_induction}
use civiclens.Workflow.Engine.{
  StepSpec, Registry, Execution, attempts, settle, record_step, Outcome, raises, returns,
  step_skipped, StepRecord, List, String, StepFn, approval_key, Context, StepStatus, is_true,
  StepError, step_completed, give_up, step_failed, branch_or_fail, merge, run, call_step,
  after_step, guard_step, StepOutcome, not_registered, branch_target, index_from,
  run_step_with_retry, done_step, skipped_step, failed_step, round, skip_reason,
}

-- What a step function returns does not grant the approval of `id`.
abbrev pub Withholds : String → Outcome → Type 0
Withholds id (raises message) = Unit
Withholds id (returns none) = Unit
Withholds id (returns (some updates)) = updates (approval_key id) ≡ none

-- No row says that the step `id` was called: it has been skipped at most.
abbrev pub IsNotCalled : String → List StepRecord → Type 0
IsNotCalled id records = All (λ r. r.step_id ≡ id → r.status ≡ step_skipped) records

settle-merge :
    (spec : StepSpec) (c c' : Context) (u : Option Context) (elapsed : ℕ)
    → settle spec c (returns u) elapsed ≡ ok c'
    → merge c u ≡ c'
unfolding settle
settle-merge spec c c' u elapsed s = ground arith

module _ {W : Type 0} (registry : Registry W) (specs : List StepSpec) (id : String)
    (withheld : (sid : String) (fn : StepFn W) (c : Context) (w : W)
      → registry sid ≡ some fn
      → Withholds id (fn c w).0)
    (gated : (i : ℕ) (spec : StepSpec)
      → get_elem? specs i ≡ some spec
      → spec.step_id ≡ id
      → spec.requires_approval ≡ true) where
  record IsUnapproved (e : Execution W) : Type 0 where
    no_approval : is_true (e.context (approval_key id)) ≡ false
    not_called : IsNotCalled id e.steps

  record_step-IsUnapproved :
      (sid : String) (index : ℕ) (status : StepStatus) (attempt : ℕ) (x : Option StepError)
      (e : Execution W)
      → (sid ≡ id → status ≡ step_skipped)
      → IsUnapproved e
      → IsUnapproved (record_step sid index status attempt x e)
  unfolding record_step
  record_step-IsUnapproved sid index status attempt x e h u = record {
    no_approval = u.no_approval;
    not_called =
        All-append (λ (r : StepRecord). r.step_id ≡ id → r.status ≡ step_skipped) e.steps _
          u.not_called (h, tt);
  }

  give_up-IsUnapproved :
      (spec : StepSpec) (index : ℕ) (last : Option StepError) (e : Execution W)
      → IsUnapproved e
      → IsUnapproved (give_up spec index last e).1
  unfolding give_up
  give_up-IsUnapproved spec index last e u = elim (Bool-cases (str_eq spec.on_failure "skip")) [
    | inl skips ↦ rw skips (
        record_step-IsUnapproved spec.step_id index step_skipped spec.retry_max_attempts last e
          (λ same. refl) u)
    | inr fails ↦ rw fails u
  ]

  settle-no_approval :
      (spec : StepSpec) (c c' : Context) (o : Outcome) (elapsed : ℕ)
      → is_true (c (approval_key id)) ≡ false
      → Withholds id o
      → settle spec c o elapsed ≡ ok c'
      → is_true (c' (approval_key id)) ≡ false
  unfolding settle
  settle-no_approval spec c c' (raises message) elapsed h k s = absurd (ground arith)
  settle-no_approval spec c c' (returns none) elapsed h k s =
      rw (← settle-merge spec c c' none elapsed s) h
  settle-no_approval spec c c' (returns (some updates)) elapsed h k s =
      rw (← settle-merge spec c c' (some updates) elapsed s, k) h

  attempts-IsUnapproved :
      (spec : StepSpec) (index : ℕ) (fn : StepFn W) (n attempt : ℕ) (last : Option StepError)
      (e : Execution W)
      → spec.step_id ≢ id
      → ((c : Context) (w : W) → Withholds id (fn c w).0)
      → IsUnapproved e
      → IsUnapproved (attempts spec index fn n attempt last e).1
  unfolding attempts
  attempts-IsUnapproved spec index fn zero attempt last e ne wh u =
      give_up-IsUnapproved spec index last e u
  attempts-IsUnapproved spec index fn (suc n) attempt last e ne wh u =
      let (o, elapsed, w) = fn e.context e.world in
      elim (Result-cases (settle spec e.context o elapsed)) [
        | inl (c, s) ↦
            rw (s, attempts)
              (record_step-IsUnapproved spec.step_id index step_completed attempt none
                (record e { context = c; world = w }) (λ same. absurd (ne same))
                (record {
                  no_approval =
                      settle-no_approval spec e.context c o elapsed u.no_approval
                        (wh e.context e.world) s;
                  not_called = u.not_called;
                }))
        | inr (x, s) ↦
            rw (s, attempts)
              (attempts-IsUnapproved spec index fn n (suc attempt) (some x)
                (record_step spec.step_id index step_failed attempt (some x)
                  (record e { world = w }))
                ne wh
                (record_step-IsUnapproved spec.step_id index step_failed attempt (some x)
                  (record e { world = w }) (λ same. absurd (ne same))
                  (record { no_approval = u.no_approval; not_called = u.not_called })))
      ]

  branch-IsUnapproved :
      (target : Option String) (e : Execution W)
      → IsUnapproved e
      → Holds (λ _. IsUnapproved) IsUnapproved (branch_or_fail specs target e)
  unfolding branch_or_fail
  branch-IsUnapproved none e u = record { no_approval = u.no_approval; not_called = u.not_called }
  branch-IsUnapproved (some target) e u = elim (Option-cases (index_from 0 specs target)) [
    | inl missing ↦
        rw (missing, Holds) (record { no_approval = u.no_approval; not_called = u.not_called })
    | inr (j, found) ↦
        rw (found, Holds) (record { no_approval = u.no_approval; not_called = u.not_called })
  ]

  after_step-IsUnapproved :
      (spec : StepSpec) (i : ℕ) (o : StepOutcome) (e : Execution W)
      → IsUnapproved e
      → Holds (λ _. IsUnapproved) IsUnapproved (after_step specs spec i o e)
  unfolding after_step
  after_step-IsUnapproved spec i done_step e u = record {
    no_approval = u.no_approval;
    not_called = u.not_called;
  }
  after_step-IsUnapproved spec i skipped_step e u = record {
    no_approval = u.no_approval;
    not_called = u.not_called;
  }
  after_step-IsUnapproved spec i failed_step e u = branch-IsUnapproved (branch_target spec) e u

  call_step-IsUnapproved :
      (spec : StepSpec) (i : ℕ) (fn : Option (StepFn W)) (e : Execution W)
      → registry spec.step_id ≡ fn
      → spec.step_id ≢ id
      → IsUnapproved e
      → Holds (λ _. IsUnapproved) IsUnapproved (call_step specs spec i fn e)
  unfolding call_step
  call_step-IsUnapproved spec i none e r ne u =
      let u' =
        record_step-IsUnapproved spec.step_id i step_failed 1 (some (not_registered spec.step_id)) e
          (λ same. absurd (ne same)) u in
      record { no_approval = u'.no_approval; not_called = u'.not_called }
  call_step-IsUnapproved spec i (some fn) e r ne u =
      let (outcome, e') = run_step_with_retry spec i fn e in
      after_step-IsUnapproved spec i outcome e' (
        unfold run_step_with_retry in
        attempts-IsUnapproved spec i fn spec.retry_max_attempts 1 none e ne
          (λ c w. withheld spec.step_id fn c w r) u)

  guard_step-IsUnapproved :
      (spec : StepSpec) (i : ℕ) (reason : Option StepError) (e : Execution W)
      → get_elem? specs i ≡ some spec
      → IsUnapproved e
      → Holds (λ _. IsUnapproved) IsUnapproved (guard_step reason registry specs spec i e)
  unfolding guard_step
  guard_step-IsUnapproved spec i (some reason) e here u =
      let u' =
        record_step-IsUnapproved spec.step_id i step_skipped 1 (some reason) e (λ same. refl) u in
      record { no_approval = u'.no_approval; not_called = u'.not_called }
  guard_step-IsUnapproved spec i none e here u = elim (Bool-cases (str_eq spec.step_id id)) [
    | inl same ↦
        let s : spec.step_id ≡ id = (eq_iff spec.step_id id).0 same in
        rw (gated i spec here s, s, u.no_approval, Holds)
          (record { no_approval = u.no_approval; not_called = u.not_called })
    | inr differs ↦
        elim (Bool-cases
          (spec.requires_approval && not (is_true (e.context (approval_key spec.step_id))))) [
            | inl waiting ↦
                rw (waiting, Holds)
                  (record { no_approval = u.no_approval; not_called = u.not_called })
            | inr free ↦
                rw (free, Holds)
                  (call_step-IsUnapproved spec i (registry spec.step_id) e refl
                    (str_ne spec.step_id id differs) u)
          ]
  ]

  round-IsUnapproved :
      (i : ℕ) (e : Execution W)
      → IsUnapproved e
      → Holds (λ _. IsUnapproved) IsUnapproved (round registry specs i e)
  unfolding round
  round-IsUnapproved i e u = elim (Option-cases (get_elem? specs i)) [
    | inl over ↦
        rw (over, Holds) (record { no_approval = u.no_approval; not_called = u.not_called })
    | inr (spec, here) ↦
        rw (here, Holds)
          (guard_step-IsUnapproved spec i (skip_reason spec.condition_key e.context) e here u)
  ]

  -- A step that requires approval wherever its name stands is never called in a run that begins
  -- without its approval, as long as no step function grants it: no row of the run says that it
  -- completed or failed, and it is still not approved at the end.
  pub approval_gates_step :
      (fuel : ℕ) (e e' : Execution W)
      → is_true (e.context (approval_key id)) ≡ false
      → IsNotCalled id e.steps
      → run fuel registry specs e ≡ some e'
      → IsNotCalled id e'.steps × (is_true (e'.context (approval_key id)) ≡ false)
  unfolding run
  approval_gates_step fuel e e' no_approval not_called h =
      let u =
        loop_induction registry specs (λ _. IsUnapproved) IsUnapproved round-IsUnapproved fuel
          e.current_step_index e e' (record { no_approval = no_approval; not_called = not_called })
          h in
      (u.not_called, u.no_approval)
