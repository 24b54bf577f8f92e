-- ===== src/Workflow/Engine/Tests.antt =====
-- A workflow of three steps: the second is waited for, and the third fails once.
use civiclens.Workflow.Engine.Terminates.{forward_run_ends}
use Prim.Native.Nat.{zero}
use civiclens.Workflow.Engine.Coverage.{IsSettled, completed_run_settles_all}
use civiclens.Workflow.Engine.Approval.{IsNotCalled, Withholds, approval_gates_step}
use civiclens.Prelude.{
  if◌then◌else◌, ℕ, List, String, none, Bool, ◌%◌, str_eq, [], false, ◌==◌, ◌∷◌, some, ◌+◌, true,
  get_elem?, ◌≡◌, Option, suc, arith, ◌<◌, refl, Bool-cases, str_ne, ap, inl, ◌∙◌, inr, sym,
}
use civiclens.Workflow.Engine.{
  StepSpec, Registry, StepFn, Context, Execution, raises, returns, run, waiting_approval, completed,
  running, branch_target, loop, round, bool, StepStatus, step_completed, index_from, step_failed,
  is_true, StepError, raised, approval_key, StepRecord, settle,
}

abbrev plain : String → ℕ → Bool → StepSpec
plain id tries approval = record {
  step_id = id;
  on_failure = "fail";
  retry_max_attempts = tries;
  timeout_seconds = none;
  requires_approval = approval;
  condition_key = none;
}

abbrev specs : List StepSpec
specs = plain "resolve" 1 false ∷ plain "consent" 1 true ∷ plain "fetch" 2 false ∷ []

-- The world counts the calls; the function fails while the count is even.
abbrev flaky : StepFn ℕ
flaky c w = (if w % 2 == 0 then raises "down" else returns none, 1, w + 1)

abbrev steady : StepFn ℕ
steady c w = (returns none, 1, w)

abbrev registry : Registry ℕ
registry id = if str_eq id "fetch" then some flaky else some steady

abbrev fresh : Context → Execution ℕ
fresh c = record { status = running; current_step_index = 0; context = c; steps = []; world = 0 }

abbrev approved : Context
approved key = if str_eq key "_approved:consent" then some (bool true) else none

abbrev row : String → ℕ → StepStatus → ℕ → Option StepError → StepRecord
row id index status attempt error = record {
  step_id = id;
  step_index = index;
  status = status;
  attempt = attempt;
  error_message = error;
}

abbrev finished : Execution ℕ
finished = record {
  status = completed;
  current_step_index = 3;
  context = approved;
  steps =
      row "resolve" 0 step_completed 1 none
      ∷ row "consent" 1 step_completed 1 none
      ∷ row "fetch" 2 step_failed 1 (some (raised "down"))
      ∷ row "fetch" 2 step_completed 2 none
      ∷ [];
  world = 2;
}

approved-run : run 4 registry specs (fresh approved) ≡ some finished
unfolding run loop round branch_target settle
approved-run = refl

abbrev paused : Execution ℕ
paused = record {
  status = waiting_approval;
  current_step_index = 1;
  context = λ _. none;
  steps = row "resolve" 0 step_completed 1 none ∷ [];
  world = 0;
}

waiting_run : run 4 registry specs (fresh (λ _. none)) ≡ some paused
unfolding run loop round branch_target settle
waiting_run = refl

plain-branch_target : (id : String) (n : ℕ) (b : Bool) → branch_target (plain id n b) ≡ none
unfolding branch_target
plain-branch_target id n b = refl

linear : (i : ℕ) (spec : StepSpec) → get_elem? specs i ≡ some spec → branch_target spec ≡ none
linear zero spec h =
    let e : plain "resolve" 1 false ≡ spec = cc h in
    rw (← e) (plain-branch_target "resolve" 1 false)
linear (suc zero) spec h =
    let e : plain "consent" 1 true ≡ spec = cc h in rw (← e) (plain-branch_target "consent" 1 true)
linear (suc (suc zero)) spec h =
    let e : plain "fetch" 2 false ≡ spec = cc h in rw (← e) (plain-branch_target "fetch" 2 false)
linear (suc (suc (suc i))) spec h = cc

completed_run_settles_all_example : IsSettled finished.steps 2
completed_run_settles_all_example =
    completed_run_settles_all registry specs linear 4 (fresh approved) finished refl approved-run
      refl 2 (omega arith)

forward_run_ends_example : (e' : Execution ℕ) × (run 4 registry specs (fresh (λ _. none)) ≡ some e')
forward_run_ends_example =
    forward_run_ends registry specs forward 4 (fresh (λ _. none)) (omega arith) (omega arith)
  where
    forward :
        (i j : ℕ) (spec : StepSpec) (target : String)
        → get_elem? specs i ≡ some spec
        → branch_target spec ≡ some target
        → index_from 0 specs target ≡ some j
        → i < j
    forward i j spec target here b found = absurd (cc (linear i spec here, b))

withheld :
    (sid : String) (fn : StepFn ℕ) (c : Context) (w : ℕ)
    → registry sid ≡ some fn
    → Withholds "consent" (fn c w).0
withheld sid fn c w r = elim (Bool-cases (str_eq sid "fetch")) [
  | inl fetch ↦
      let e : flaky ≡ fn = cc (rw fetch at r) in
      rw (← e) (elim (Bool-cases (w % 2 == 0)) [
        | inl even ↦ rw (even, Withholds) tt
        | inr odd ↦ rw (odd, Withholds) tt
      ])
  | inr any ↦ let e : steady ≡ fn = cc (rw any at r) in rw (← e) tt
]

gated :
    (i : ℕ) (spec : StepSpec)
    → get_elem? specs i ≡ some spec
    → spec.step_id ≡ "consent"
    → spec.requires_approval ≡ true
gated zero spec here same =
    let e : plain "resolve" 1 false ≡ spec = cc here in
    absurd (str_ne "resolve" "consent" refl (ap (λ (s : StepSpec). s.step_id) e ∙ same))
gated (suc zero) spec here same =
    let e : plain "consent" 1 true ≡ spec = cc here in
    sym (ap (λ (s : StepSpec). s.requires_approval) e)
gated (suc (suc zero)) spec here same =
    let e : plain "fetch" 2 false ≡ spec = cc here in
    absurd (str_ne "fetch" "consent" refl (ap (λ (s : StepSpec). s.step_id) e ∙ same))
gated (suc (suc (suc i))) spec here same = cc

approval_gates_step_example :
    IsNotCalled "consent" paused.steps × (is_true (paused.context (approval_key "consent")) ≡ false)
approval_gates_step_example =
    approval_gates_step registry specs "consent" withheld gated 4 (fresh (λ _. none)) paused refl tt
      waiting_run
