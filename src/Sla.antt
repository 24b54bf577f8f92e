-- ===== src/Sla.antt =====
-- app/services/sla_service.py: SLA policies, the status of a complaint, escalation and the scan.
-- Times and durations are in microseconds, the resolution of `datetime`; a difference of times is
-- an integer. `approaching_fraction` is the ratio that `float.as_integer_ratio` gives for it.
pub mod Deadline
pub mod Escalation
pub mod Scan
mod Tests
use civiclens.Complaint.Status.{Status, is_finished}
use civiclens.Prelude.{
  ℕ, ◌+◌, ◌-◌, ◌*◌, ◌/◌, ◌%◌, String, Bool, true, false, not, ◌&&◌, ◌||◌, Option, none, some, List,
  [], ◌∷◌, ◌++◌, ltb, leb, ◌==◌, str_eq, opt_eq, is_empty, is_none, or_else, find?, if◌then◌else◌,
}

abbrev pub hour : ℕ
hour = 3600000000

pub record SlaPolicy : Type 0 where
  pub id : String
  pub priority : String
  pub resolution_hours : ℕ
  pub department_code : Option String
  pub fraction_num : ℕ
  pub fraction_den : ℕ
  pub escalation_gap_hours : ℕ
  pub max_level : ℕ

-- The condition under which `__post_init__` raises.
unfoldable pub is_invalid : SlaPolicy → Bool
is_invalid p =
    ltb p.resolution_hours 1
    || not (ltb 0 p.fraction_num && ltb p.fraction_num p.fraction_den)
    || ltb p.max_level 1

pub record SlaSubject : Type 0 where
  pub id : String
  pub priority : String
  pub department_code : Option String
  pub status : Status
  pub created_at : ℕ
  pub sla_due_at : Option ℕ
  pub escalation_level : ℕ
  pub escalated_at : Option ℕ

pub data State : Type 0 where
  no_policy finished on_track at_risk breached : State

-- Integers over the native numbers; `negsuc n` is `-(n + 1)`.
pub data ℤ : Type 0 where
  pos : ℕ → ℤ
  negsuc : ℕ → ℤ

abbrev pub diff : ℕ → ℕ → ℤ
diff a b = if leb b a then pos (a - b) else negsuc (b - a - 1)

-- `remaining <= timedelta(0)` and `remaining <= d`
abbrev pub at_most : ℤ → ℕ → Bool
at_most (pos n) d = leb n d
at_most (negsuc n) d = true

pub record SlaStatus : Type 0 where
  pub state : State
  pub due_at : Option ℕ
  pub remaining : Option ℤ
  pub policy_id : Option String

pub data Reason : Type 0 where
  due_passed : Reason
  still_unresolved : ℕ → ℕ → Reason

pub record EscalationAction : Type 0 where
  pub complaint_id : String
  pub from_level : ℕ
  pub to_level : ℕ
  pub reason : Reason
  pub at : ℕ

pub record ScanReport : Type 0 where
  pub at_risk : List String
  pub breached : List String
  pub actions : List EscalationAction

-- `p.priority == priority and p.department_code == department_code and department_code`
abbrev pub is_exact : String → Option String → SlaPolicy → Bool
is_exact priority none p = false
is_exact priority (some code) p =
    str_eq p.priority priority && opt_eq p.department_code (some code) && not (is_empty code)

abbrev pub is_generic : String → SlaPolicy → Bool
is_generic priority p = str_eq p.priority priority && is_none p.department_code

-- The first element of a list that a comprehension filters is the first one that passes.
unfoldable pub policy_for : List SlaPolicy → String → Option String → Option SlaPolicy
policy_for policies priority code =
    or_else (find? (is_exact priority code) policies) (find? (is_generic priority) policies)

abbrev pub due_by : Option SlaPolicy → ℕ → Option ℕ
due_by none created_at = none
due_by (some p) created_at = some (created_at + p.resolution_hours * hour)

unfoldable pub due_at : List SlaPolicy → ℕ → String → Option String → Option ℕ
unfolding policy_for
due_at policies created_at priority code = due_by (policy_for policies priority code) created_at

abbrev policy_name : Option SlaPolicy → Option String
policy_name none = none
policy_name (some p) = some p.id

-- `a / b` to the nearest integer and to the even one of two: how `timedelta` rounds.
unfoldable pub divide_and_round : ℕ → ℕ → ℕ
divide_and_round a b =
    let q = a / b in let r = 2 * (a % b) in if ltb b r || (r == b && q % 2 == 1) then q + 1 else q

-- `window * policy.approaching_fraction`
unfoldable pub risk_window : SlaPolicy → ℕ
unfolding divide_and_round
risk_window p = divide_and_round (p.resolution_hours * hour * p.fraction_num) p.fraction_den

-- What `status` returns for an unfinished complaint with this policy and due time.
unfoldable pub open_status : SlaPolicy → ℕ → ℕ → SlaStatus
open_status policy due now =
    let remaining = diff due now in
    record {
      state =
          if at_most remaining 0
          then breached
          else (if at_most remaining (risk_window policy) then at_risk else on_track);
      due_at = some due;
      remaining = some remaining;
      policy_id = some policy.id;
    }

abbrev without_policy : SlaStatus
without_policy = record { state = no_policy; due_at = none; remaining = none; policy_id = none }

unfoldable pub status_by : Option SlaPolicy → Option ℕ → ℕ → SlaStatus
unfolding open_status
status_by none due now = without_policy
status_by (some policy) none now = without_policy
status_by (some policy) (some due) now = open_status policy due now

unfoldable pub status : List SlaPolicy → SlaSubject → ℕ → SlaStatus
unfolding status_by
status policies s now =
    let policy = policy_for policies s.priority s.department_code in
    if is_finished s.status
    then record {
      state = finished;
      due_at = s.sla_due_at;
      remaining = none;
      policy_id = policy_name policy;
    }
    else status_by policy
        (or_else s.sla_due_at (due_at policies s.created_at s.priority s.department_code)) now

abbrev pub is_breached : State → Bool
is_breached breached = true
is_breached _ = false

-- `last is not None and now - last >= timedelta(hours=policy.escalation_gap_hours)`
abbrev pub gap_passed : Option ℕ → SlaPolicy → ℕ → Bool
gap_passed none policy now = false
gap_passed (some last) policy now = leb (last + policy.escalation_gap_hours * hour) now

unfoldable pub escalate : SlaPolicy → SlaSubject → Option ℕ → ℕ → Option EscalationAction
escalate policy s due now =
    let first : EscalationAction = record {
      complaint_id = s.id;
      from_level = 0;
      to_level = 1;
      reason = due_passed;
      at = now;
    } in
    let next : EscalationAction = record {
      complaint_id = s.id;
      from_level = s.escalation_level;
      to_level = s.escalation_level + 1;
      reason = still_unresolved policy.escalation_gap_hours s.escalation_level;
      at = now;
    } in
    if s.escalation_level == 0
    then some first
    else (if gap_passed (or_else s.escalated_at due) policy now then some next else none)

unfoldable pub evaluate_by : Option SlaPolicy → SlaSubject → SlaStatus → ℕ → Option EscalationAction
unfolding escalate
evaluate_by none s st now = none
evaluate_by (some policy) s st now =
    if not (is_breached st.state) || leb policy.max_level s.escalation_level
    then none
    else escalate policy s st.due_at now

unfoldable pub evaluate : List SlaPolicy → SlaSubject → ℕ → Option EscalationAction
unfolding evaluate_by
evaluate policies s now =
    evaluate_by (policy_for policies s.priority s.department_code) s (status policies s now) now

abbrev add_action : Option EscalationAction → List EscalationAction → List EscalationAction
add_action none actions = actions
add_action (some a) actions = actions ++ a ∷ []

-- One round of the loop of `scan`.
unfoldable pub scan_one : State → String → Option EscalationAction → ScanReport → ScanReport
scan_one at_risk id action r = record r { at_risk = r.at_risk ++ id ∷ [] }
scan_one breached id action r = record r {
  breached = r.breached ++ id ∷ [];
  actions = add_action action r.actions;
}
scan_one _ id action r = r

unfoldable pub scan_from : List SlaPolicy → List SlaSubject → ℕ → ScanReport → ScanReport
unfolding scan_one evaluate status
scan_from policies [] now r = r
scan_from policies (s ∷ subjects) now r =
    scan_from policies subjects now
      (scan_one (status policies s now).state s.id (evaluate policies s now) r)

unfoldable pub scan : List SlaPolicy → List SlaSubject → ℕ → ScanReport
unfolding scan_from
scan policies subjects now =
    scan_from policies subjects now (record { at_risk = []; breached = []; actions = [] })
