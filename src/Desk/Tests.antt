-- ===== src/Desk/Tests.antt =====
-- Runs of app/services/officer_service.py and app/services/workflow_service.py on small data.
use civiclens.Desk.Firing.{no_rule_repeats, entries, unrun}
use civiclens.Desk.Rules.{has_run, sweep, run_rules, run_for_complaint}
use civiclens.Desk.History.All.{level_stays_bounded, events_tell_status, writes_one_allowed}
use civiclens.Desk.Officer.{DeskError, complaint_not_found, is_administrator}
use civiclens.Desk.Requests.{handle, do_escalate, do_resolve}
use civiclens.Desk.{Work, Complaint, Book, get, high, Event}
use civiclens.Desk.Keeps.{Once, Explains}
use civiclens.Access.{AuthContext, officer, can_access_complaint, role_has}
use civiclens.Complaint.Status.{in_progress, resolved, closed, validate_transition}
use civiclens.Desk.Matching.{Rule, Office, status_changed, auto_close, scheduled}
use civiclens.Prelude.{
  ◌≤◌, String, ◌≡◌, refl, ◌≢◌, ◌⊎◌, true, false, none, some, List, [], ◌∷◌, ◌++◌, length, Result,
  ok, err, has_text,
}

-- Closes a resolved complaint at once.
abbrev close_rule : Rule
close_rule = record {
  id = "close-resolved";
  name = "Close";
  trigger = status_changed;
  conditions = record {
    categories = [];
    priority_min = none;
    departments = [];
    wards = [];
    statuses = resolved ∷ [];
    languages = [];
    unrouted = false;
    age_min = none;
  };
  action = auto_close;
  active = true;
}

abbrev office : Office
office = record {
  rules = close_rule ∷ [];
  departments = "water" ∷ "roads" ∷ [];
  officers = λ d. "o1" ∷ "o2" ∷ [];
  admins = "a1" ∷ [];
  policies = [];
}

abbrev leak : Complaint
leak = record {
  id = "c1";
  citizen_id = "u1";
  language = "en";
  category = "water";
  priority = high;
  ward = none;
  status = in_progress;
  department_code = some "water";
  assigned_officer_id = some "o1";
  created_at = 100;
  updated_at = 100;
  sla_due_at = none;
  escalation_level = 2;
  escalated_at = none;
  resolved_at = none;
  routing_source = some "rule";
}

abbrev book : Book
book = record {
  complaints = leak ∷ record leak { id = "c2" } ∷ [];
  events = [];
  executions = ("close-resolved", "c0") ∷ [];
  corrections = [];
  audit = [];
  notices = [];
  bus_events = [];
}

abbrev officer_of : String → AuthContext
officer_of department = record {
  user_id = "o1";
  role = officer;
  department_id = some department;
  mfa_verified = true;
}

abbrev work_of : Result DeskError Work → Work
work_of (ok w) = w
work_of (err x) = (leak, book)

abbrev done : Work
done = work_of (handle office 500 (officer_of "water") "c1" (do_resolve "fixed") book)

-- The rule closes the complaint within the call that resolves it.
resolve_closes : (done.0.status ≡ closed) × (length done.1.events ≡ 3)
unfolding handle role_has validate_transition has_text
resolve_closes = (refl, refl)

other_department :
    handle office 500 (officer_of "roads") "c1" (do_resolve "fixed") book ≡ err complaint_not_found
unfolding handle role_has validate_transition has_text
other_department = refl

book-Once : Once book.executions
unfolding Once has_run
book-Once = (refl, tt)

events_tell_status_example :
    (c c' : Complaint) × (es : List Event) × (get "c1" book.complaints ≡ some c)
    × (get "c1" done.1.complaints ≡ some c')
    × (done.1.events ≡ book.events ++ es)
    × Explains "c1" c.status es c'.status
unfolding handle role_has validate_transition has_text
events_tell_status_example =
    events_tell_status office 500 (officer_of "water") "c1" (do_resolve "fixed") book done refl

writes_one_allowed_example :
    (c : Complaint) × (get "c1" book.complaints ≡ some c)
    × ((can_access_complaint (officer_of "water") c.citizen_id c.department_code true ≡ true)
        ⊎ ((c.department_code ≡ none) × (is_administrator officer ≡ true)))
    × ((i : String) → c.id ≢ i → get i done.1.complaints ≡ get i book.complaints)
unfolding handle role_has validate_transition has_text
writes_one_allowed_example =
    writes_one_allowed office 500 (officer_of "water") "c1" (do_resolve "fixed") book done refl

abbrev raised : Work
raised = work_of (handle office 500 (officer_of "water") "c1" (do_escalate "no answer") book)

level_stays_bounded_example :
    (c c' : Complaint) × (get "c1" book.complaints ≡ some c)
    × (get "c1" raised.1.complaints ≡ some c')
    × (c.escalation_level ≤ c'.escalation_level)
    × (c.escalation_level ≤ 3 → c'.escalation_level ≤ 3)
unfolding handle role_has validate_transition has_text
level_stays_bounded_example =
    level_stays_bounded office 500 (officer_of "water") "c1" (do_escalate "no answer") book raised
      refl

abbrev late_rule : Rule
late_rule = record close_rule {
  id = "late";
  trigger = scheduled;
  conditions = record close_rule.conditions { age_min = some 50 };
}

abbrev resolved_book : Book
resolved_book = record book { complaints = record leak { status = resolved } ∷ [] }

abbrev closing : Work × List String
closing = run_for_complaint office 500 status_changed (record leak { status = resolved }, book)

no_rule_repeats_example :
    (closing
      ≡ run_rules office 500 status_changed
          (unrun "c1" book.executions office.rules)
          (record leak { status = resolved }, book))
    × (closing.0.1.executions ≡ book.executions ++ entries "c1" closing.1)
    × Once closing.0.1.executions
no_rule_repeats_example =
    no_rule_repeats office 500 status_changed (record leak { status = resolved }, book) book-Once

swept : (sweep (record office { rules = late_rule ∷ [] }) 500 resolved_book).2 ≡ 1
unfolding sweep
swept = refl
