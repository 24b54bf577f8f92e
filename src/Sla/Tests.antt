-- ===== src/Sla/Tests.antt =====
-- Concrete complaints against two policies.
use civiclens.Complaint.Status.{in_progress, is_finished}
use civiclens.Sla.{
  SlaPolicy, SlaSubject, EscalationAction, policy_for, status, evaluate, hour, divide_and_round,
  open_status, due_passed, escalate, due_at,
}
use civiclens.Sla.Deadline.{IsOpen, deadline}
use civiclens.Sla.Escalation.{apply_action, scans, level_needs_time}
use civiclens.Prelude.{List, ℕ, ◌≡◌, some, ◌≤◌, ◌*◌, refl, ◌∷◌, none, suc, [], arith, ◌+◌}

abbrev policies : List SlaPolicy
policies =
    record {
      id = "roads-high";
      priority = "high";
      resolution_hours = 24;
      department_code = some "roads";
      fraction_num = 1;
      fraction_den = 4;
      escalation_gap_hours = 48;
      max_level = 3;
    }
    ∷ record {
      id = "high";
      priority = "high";
      resolution_hours = 48;
      department_code = none;
      fraction_num = 1;
      fraction_den = 4;
      escalation_gap_hours = 48;
      max_level = 2;
    }
    ∷ []

abbrev high : SlaPolicy
high = record {
  id = "high";
  priority = "high";
  resolution_hours = 48;
  department_code = none;
  fraction_num = 1;
  fraction_den = 4;
  escalation_gap_hours = 48;
  max_level = 2;
}

abbrev leak : SlaSubject
leak = record {
  id = "c1";
  priority = "high";
  department_code = some "water";
  status = in_progress;
  created_at = 100 * hour;
  sla_due_at = none;
  escalation_level = 0;
  escalated_at = none;
}

policy_for_example : policy_for policies "high" (some "water") ≡ some high
unfolding policy_for
policy_for_example = refl

rounding_example : divide_and_round 5 2 + divide_and_round 7 2 ≡ 6
unfolding divide_and_round
rounding_example = refl

leak-IsOpen : IsOpen policies leak high
unfolding policy_for is_finished
leak-IsOpen = record { unfinished = refl; policy = refl }

abbrev first_step : EscalationAction
first_step = record {
  complaint_id = "c1";
  from_level = 0;
  to_level = 1;
  reason = due_passed;
  at = 150 * hour;
}

evaluate-first_step : evaluate policies leak (150 * hour) ≡ some first_step
unfolding evaluate status policy_for open_status escalate is_finished due_at
evaluate-first_step = refl

abbrev scan_times : List ℕ
scan_times = 150 * hour ∷ 160 * hour ∷ 198 * hour ∷ 250 * hour ∷ []

scans_level : (scans policies leak scan_times).escalation_level ≡ 2
unfolding scans evaluate status policy_for open_status escalate apply_action is_finished due_at
scans_level = refl

level_needs_time_example :
    ((scans policies leak scan_times).escalation_level ≤ 2)
    × ((n : ℕ)
        → (scans policies leak scan_times).escalation_level ≡ suc n
        → deadline high leak + n * (48 * hour) ≤ 250 * hour)
level_needs_time_example =
    level_needs_time policies high (250 * hour) leak scan_times leak-IsOpen refl
      (omega arith, (omega arith, (omega arith, (omega arith, tt))))
