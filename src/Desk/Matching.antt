-- ===== src/Desk/Matching.antt =====
-- Workflow rules and when they apply: WorkflowRuleRecord of app/services/ports.py and `matches` of
-- app/services/workflow_service.py.
use civiclens.Desk.{Priority, Complaint, priority_index}
use civiclens.Sla.{SlaPolicy}
use civiclens.Complaint.Status.{
  submitted, ai_routed, assigned, under_review, inspection_scheduled, in_progress, resolved, closed,
  rejected, Status,
}
use civiclens.Prelude.{
  ℕ, ◌+◌, String, Bool, true, false, not, ◌&&◌, Option, none, some, List, [], ◌∷◌, ltb, ◌==◌,
  if◌then◌else◌, is_some, value_or, any, str_eq,
}

pub data Trigger : Type 0 where
  complaint_created status_changed scheduled : Trigger

abbrev pub same_trigger : Trigger → Trigger → Bool
same_trigger complaint_created complaint_created = true
same_trigger status_changed status_changed = true
same_trigger scheduled scheduled = true
same_trigger _ _ = false

pub data Action : Type 0 where
  notify_admins escalate auto_close assign_least_loaded : Action
  add_internal_note : (text : String) → Action

-- A condition that is missing is an empty list, `none` or `false`. `age_min` is in microseconds.
pub record Conditions : Type 0 where
  pub categories : List String
  pub priority_min : Option Priority
  pub departments : List String
  pub wards : List String
  pub statuses : List Status
  pub languages : List String
  pub unrouted : Bool
  pub age_min : Option ℕ

pub record Rule : Type 0 where
  pub id : String
  pub name : String
  pub trigger : Trigger
  pub conditions : Conditions
  pub action : Action
  pub active : Bool

-- What the other tables say during a call: the active rules in their order, the active departments,
-- the active officers of a department and the administrators by identifier, and the SLA policies.
pub record Office : Type 0 where
  pub rules : List Rule
  pub departments : List String
  pub officers : String → List String
  pub admins : List String
  pub policies : List SlaPolicy

abbrev pub status_index : Status → ℕ
status_index submitted = 0
status_index ai_routed = 1
status_index assigned = 2
status_index under_review = 3
status_index inspection_scheduled = 4
status_index in_progress = 5
status_index resolved = 6
status_index closed = 7
status_index rejected = 8

abbrev pub same_status : Status → Status → Bool
same_status a b = status_index a == status_index b

abbrev pub member : String → List String → Bool
member x xs = any (str_eq x) xs

abbrev pub member_option : Option String → List String → Bool
member_option none xs = false
member_option (some x) xs = member x xs

-- `if k.get(key) and value not in k[key]: return False`
abbrev pub listed : Bool → List String → Bool
listed found [] = true
listed found (x ∷ xs) = found

abbrev pub status_listed : Status → List Status → Bool
status_listed s [] = true
status_listed s (x ∷ xs) = any (same_status s) (x ∷ xs)

abbrev pub reaches : Priority → Option Priority → Bool
reaches p none = true
reaches p (some least) = not (ltb (priority_index p) (priority_index least))

-- `c.resolved_at if str(c.status) == "resolved" and c.resolved_at else c.created_at`
abbrev pub age_base : Complaint → ℕ
age_base c =
    if same_status c.status resolved then value_or c.created_at c.resolved_at else c.created_at

-- `now - base < timedelta(hours=…)` is `now < base + timedelta(hours=…)`
abbrev pub old_enough : ℕ → Complaint → Option ℕ → Bool
old_enough now c none = true
old_enough now c (some age) = not (ltb now (age_base c + age))

unfoldable pub matches : Rule → Complaint → Trigger → ℕ → Bool
matches rule c trigger now =
    let k = rule.conditions in
    rule.active
    && same_trigger rule.trigger trigger
    && listed (member c.category k.categories) k.categories
    && reaches c.priority k.priority_min
    && listed (member_option c.department_code k.departments) k.departments
    && listed (member_option c.ward k.wards) k.wards
    && status_listed c.status k.statuses
    && listed (member c.language k.languages) k.languages
    && not (k.unrouted && is_some c.department_code)
    && old_enough now c k.age_min
