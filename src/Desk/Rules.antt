-- ===== src/Desk/Rules.antt =====
-- Workflow rules: `_apply`, `run_for_complaint` and `sweep` of
-- app/services/workflow_service.py, and `assign_least_loaded` of app/services/complaint_common.py.
use civiclens.Desk.Matching.{
  Rule, Trigger, Action, Office, notify_admins, escalate, auto_close, assign_least_loaded,
  add_internal_note, same_status, matches, scheduled, same_trigger,
}
use civiclens.Desk.{
  Work, Complaint, audited, notify, rule_assigned_key, notify_all, add_event, rule_key, save,
  max_escalation_level, announce, rule_closed_key, Book,
}
use civiclens.Complaint.Status.{resolved, closed, can_transition, is_finished}
use civiclens.Routing.{text_leb}
use civiclens.Prelude.{
  ℕ, ◌+◌, String, Bool, true, false, not, ◌&&◌, ◌||◌, Option, none, some, List, [], ◌∷◌, ◌++◌, ltb,
  leb, ◌==◌, if◌then◌else◌, value_or, length, any, filter, str_eq, opt_eq, is_empty, str_append,
  take,
}

-- `SqlComplaintRepository.officer_loads`: the open complaints that are assigned to an officer
unfoldable pub open_count : List Complaint → String → ℕ
open_count t officer_id =
    length
      (filter (λ c. opt_eq c.assigned_officer_id (some officer_id) && not (is_finished c.status)) t)

-- `(loads.get(i, 0), i) < (loads.get(j, 0), j)`
abbrev pub comes_before : (String → ℕ) → String → String → Bool
comes_before load i j = ltb (load i) (load j) || (load i == load j && not (text_leb j i))

-- `min(ids, key=…)`: the first one that no other comes before
abbrev pub least : (String → ℕ) → String → List String → String
least load i [] = i
least load i (j ∷ js) = least load (if comes_before load j i then j else i) js

unfoldable pub least_loaded : List Complaint → List String → Option String
unfolding open_count
least_loaded t [] = none
least_loaded t (i ∷ is) = some (least (open_count t) i is)

-- `if not c.department_code or c.assigned_officer_id or c.status in FINISHED`
abbrev pub is_taken : Complaint → Bool
is_taken c =
    not (has_value c.department_code) || has_value c.assigned_officer_id || is_finished c.status
  where
    has_value : Option String → Bool
    has_value none = false
    has_value (some s) = not (is_empty s)

abbrev pub level_up : ℕ → Complaint → Complaint
level_up now c = record c {
  escalation_level = c.escalation_level + 1;
  escalated_at = some now;
  updated_at = now;
}

abbrev pub give_to : ℕ → Option String → Work → Work
give_to now none w = w
give_to now (some officer_id) (c, b) =
    if is_empty officer_id
    then (c, b)
    else notify officer_id "complaint.assigned" (rule_assigned_key c.id officer_id)
        (save (record c { assigned_officer_id = some officer_id; updated_at = now }, b))

-- `_apply`, but for the text that it returns
unfoldable pub apply_action : Office → ℕ → Rule → Action → Work → Work
unfolding is_finished can_transition least_loaded
apply_action office now rule notify_admins (c, b) =
    notify_all office.admins "system" (rule_key rule.id c.id) (c, b)
apply_action office now rule escalate (c, b) =
    if is_finished c.status || leb max_escalation_level c.escalation_level
    then (c, b)
    else announce "complaint.escalated" (
        add_event "escalated" none none none (some (str_append "Workflow rule: " rule.name)) false
          now (save (level_up now c, b)))
apply_action office now rule auto_close (c, b) =
    if not (same_status c.status resolved) || not (can_transition c.status closed)
    then (c, b)
    else notify c.citizen_id "complaint.status_changed" (rule_closed_key c.id) (
        save (
          closed_at now (
            add_event "status_change" none (some c.status) (some closed)
              (some (str_append "Closed automatically by workflow rule: " rule.name)) false now
              (c, b))))
  where
    closed_at : ℕ → Work → Work
    closed_at now (c, b) = (record c { status = closed; updated_at = now }, b)
apply_action office now rule assign_least_loaded (c, b) =
    if is_taken c
    then (c, b)
    else give_to now (least_loaded b.complaints (office.officers (value_or "" c.department_code)))
        (c, b)
apply_action office now rule (add_internal_note text) w =
    add_event "remark" none none none (some text) true now w

abbrev pub is_run : String → String → String × String → Bool
is_run rule_id complaint_id (r, c) = str_eq r rule_id && str_eq c complaint_id

-- `uow.workflow.try_record_execution` fails: the rule ran for the complaint before.
unfoldable pub has_run : String → String → List (String × String) → Bool
has_run rule_id complaint_id xs = any (is_run rule_id complaint_id) xs

abbrev pub recorded : Rule → Work → Work
recorded rule (c, b) = (c, record b { executions = b.executions ++ (rule.id, c.id) ∷ [] })

-- One rule of the loop in `run_for_complaint`; the list says whether it fired.
unfoldable pub run_rule : Office → ℕ → Trigger → Rule → Work → Work × List String
unfolding matches has_run apply_action
run_rule office now trigger rule (c, b) =
    if matches rule c trigger now && not (has_run rule.id c.id b.executions)
    then (
      audited "workflow.executed" none (
          add_event "workflow" none none none none true now
            (apply_action office now rule rule.action (recorded rule (c, b)))),
      rule.id ∷ [],
    )
    else ((c, b), [])

unfoldable pub run_rules : Office → ℕ → Trigger → List Rule → Work → Work × List String
unfolding run_rule
run_rules office now trigger [] w = (w, [])
run_rules office now trigger (rule ∷ rules) w =
    let (w1, fired) = run_rule office now trigger rule w in
    let (w2, more) = run_rules office now trigger rules w1 in (w2, fired ++ more)

unfoldable pub run_for_complaint : Office → ℕ → Trigger → Work → Work × List String
unfolding run_rules
run_for_complaint office now trigger w = run_rules office now trigger office.rules w

abbrev by_updated_at : Complaint → List Complaint → List Complaint
by_updated_at c [] = c ∷ []
by_updated_at c (d ∷ ds) =
    let rest = by_updated_at c ds in if leb c.updated_at d.updated_at then c ∷ d ∷ ds else d ∷ rest

abbrev ordered : List Complaint → List Complaint
ordered [] = []
ordered (c ∷ cs) = by_updated_at c (ordered cs)

-- `uow.complaints.list_open() + uow.complaints.list_by_status([RESOLVED], limit=5000)`
unfoldable pub candidates : List Complaint → List Complaint
unfolding is_finished
candidates t =
    filter (λ c. not (is_finished c.status)) t
    ++ take 5000 (ordered (filter (λ c. same_status c.status resolved) t))

unfoldable pub run_each : Office → ℕ → List Complaint → Book → Book × ℕ
unfolding run_for_complaint
run_each office now [] b = (b, 0)
run_each office now (c ∷ cs) b =
    let (w, fired) = run_for_complaint office now scheduled (c, b) in
    let (b', more) = run_each office now cs w.1 in (b', length fired + more)

-- `sweep`: the tables it leaves, how many scheduled rules there are, and how many fired
unfoldable pub sweep : Office → ℕ → Book → Book × ℕ × ℕ
unfolding candidates run_each
sweep office now b =
    let rules = length (filter (λ r. same_trigger r.trigger scheduled) office.rules) in
    let (b', fired) = run_each office now (candidates b.complaints) b in
    if rules == 0 then (b, 0, 0) else (b', rules, fired)
