-- ===== src/Desk/Officer.antt =====
-- The operations of `OfficerService` in app/services/officer_service.py that change a complaint. A
-- call that raises leaves no change: its transaction is not committed. One reading of the clock
-- stands for those of one call.
use civiclens.Desk.{
  Complaint, Work, get, add_event, Book, save, priority_name, audited, announce, notify, status_key,
  assigned_key, second,
}
use civiclens.Desk.Rules.{run_for_complaint}
use civiclens.Desk.Matching.{Office, same_status, member, status_changed}
use civiclens.Access.{
  Role, AuthContext, Permission, admin, complaint_assign, super_admin, has, complaint_update_status,
  can_access_complaint,
}
use civiclens.Sla.{due_at}
use civiclens.Complaint.Status.{
  Status, submitted, ai_routed, assigned, resolved, apply_transition, is_finished, HistoryEvent,
  TransitionError,
}
use civiclens.Prelude.{
  ℕ, ◌/◌, String, Bool, true, false, not, ◌||◌, Option, none, some, if◌then◌else◌, is_some, str_eq,
  Result, ok, err, ◌>>=◌, ◌>>◌, raise_if, str_append,
}

pub data DeskError : Type 0 where
  denied complaint_not_found not_administrator outside_department : DeskError
  bad_transition : TransitionError → DeskError
  wrong_officer finished_complaint not_unrouted unknown_department text_missing : DeskError
  same_department work_started highest_level bad_percent unknown_category : DeskError

-- `require(ctx, permission)`
abbrev pub permitted : AuthContext → Permission → Result DeskError (Unit {0})
permitted ctx p = raise_if (not (has ctx p)) denied

-- `_load(…, write=True)`
unfoldable pub load : AuthContext → String → Book → Result DeskError Complaint
unfolding get can_access_complaint
load ctx id b = found (get id b.complaints)
  where
    found : Option Complaint → Result DeskError Complaint
    found none = err complaint_not_found
    found (some c) =
        if can_access_complaint ctx c.citizen_id c.department_code true
        then ok c
        else err complaint_not_found

-- `c.resolved_at` after a transition
abbrev pub resolved_after : Status → Status → ℕ → Option ℕ → Option ℕ
resolved_after prev target now before =
    if same_status target resolved
    then some now
    else if same_status prev resolved
    then none
    else before

abbrev pub moved_to : Status → ℕ → Complaint → Complaint
moved_to target now c = record c {
  status = target;
  updated_at = now;
  resolved_at = resolved_after c.status target now c.resolved_at;
}

-- `_NOTIFY_KIND.get(target, "complaint.status_changed")`
abbrev pub notice_kind : Status → String
notice_kind target =
    if same_status target resolved then "complaint.resolved" else "complaint.status_changed"

-- The audit of the specific action, under its own name too
abbrev pub audited_kind : String → String → Work → Work
audited_kind kind actor w =
    if str_eq kind "status_change" then w else audited (str_append "complaint." kind) (some actor) w

-- What `_transition` does once the transition is accepted; `prev` is the status before.
unfoldable pub enter_status :
    Office → ℕ → String → Status → Status → Option String → String → Work → Work
unfolding run_for_complaint
enter_status office now actor prev target remarks kind (c, b) =
    let w1 = add_event kind (some actor) (some prev) (some target) remarks false now (c, b) in
    let w2 = save (moved_to target now w1.0, w1.1) in
    let w3 = (run_for_complaint office now status_changed w2).0 in
    let w4 =
      notify w3.0.citizen_id (notice_kind target) (status_key w3.0.id target (now / second)) w3 in
    audited_kind kind actor
      (audited "complaint.status_changed" (some actor) (announce "complaint.status_changed" w4))

abbrev pub as_bad_transition : Result TransitionError HistoryEvent → Result DeskError HistoryEvent
as_bad_transition (ok e) = ok e
as_bad_transition (err x) = err (bad_transition x)

-- `_transition`
unfoldable pub transition :
    Office → ℕ → String → Status → Option String → String → Work → Result DeskError Work
unfolding apply_transition enter_status
transition office now actor target remarks kind (c, b) =
    as_bad_transition (apply_transition c.id c.status target (some actor) none remarks now) >>= λ e.
    ok (enter_status office now actor c.status target e.remarks kind (c, b))

unfoldable pub update_status :
    Office → ℕ → AuthContext → String → Status → Option String → Book → Result DeskError Work
unfolding load transition
update_status office now ctx id target remarks b =
    permitted ctx complaint_update_status >> load ctx id b >>= λ c.
    transition office now ctx.user_id target remarks "status_change" (c, b)

unfoldable pub resolve : Office → ℕ → AuthContext → String → String → Book → Result DeskError Work
unfolding update_status
resolve office now ctx id notes b = update_status office now ctx id resolved (some notes) b

abbrev pub serves : Office → Option String → String → Bool
serves office none officer_id = false
serves office (some department) officer_id = member officer_id (office.officers department)

-- The two ways in which `assign` records the new officer.
unfoldable pub hand_over : Office → ℕ → String → Work → Result DeskError Work
unfolding transition
hand_over office now actor (c, b) =
    if same_status c.status ai_routed
    then transition office now actor assigned none "assigned" (c, b)
    else ok (
        audited "complaint.reassigned" (some actor)
          (save (add_event "assigned" (some actor) none none none false now (c, b))))

unfoldable pub assign : Office → ℕ → AuthContext → String → String → Book → Result DeskError Work
unfolding load is_finished hand_over
assign office now ctx id officer_id b = permitted ctx complaint_assign >> load ctx id b >>= λ c.
    raise_if (not (serves office c.department_code officer_id)) wrong_officer
    >> raise_if (is_finished c.status) finished_complaint
    >> hand_over office now ctx.user_id (record c { assigned_officer_id = some officer_id }, b)
    >>= λ w. ok (
        announce "complaint.assigned"
          (notify officer_id "complaint.assigned" (assigned_key w.0.id officer_id) w))

-- `ctx.role in (Role.ADMIN, Role.SUPER_ADMIN)`
abbrev pub is_administrator : Role → Bool
is_administrator admin = true
is_administrator super_admin = true
is_administrator _ = false

-- `ctx.role is Role.ADMIN and ctx.department_id not in (None, department_code)`
abbrev pub is_elsewhere : AuthContext → String → Bool
is_elsewhere ctx department = other ctx.role ctx.department_id
  where
    other : Role → Option String → Bool
    other admin (some d) = not (str_eq d department)
    other _ _ = false

abbrev pub unrouted_complaint : Option Complaint → Result DeskError Complaint
unrouted_complaint none = err complaint_not_found
unrouted_complaint (some c) =
    if is_some c.department_code || not (same_status c.status submitted)
    then err not_unrouted
    else ok c

-- `c.sla_due_at = due; uow.complaints.update(c)`
abbrev pub due : Office → Complaint → String → Option ℕ
due office c department =
    due_at office.policies c.created_at (priority_name c.priority) (some department)

abbrev pub with_due : Option ℕ → Work → Work
with_due d (c, b) = save (record c { sla_due_at = d }, b)

unfoldable pub triage : Office → ℕ → AuthContext → String → String → Book → Result DeskError Work
unfolding get transition due_at
triage office now ctx id department b =
    permitted ctx complaint_assign
    >> raise_if (not (is_administrator ctx.role)) not_administrator
    >> raise_if (is_elsewhere ctx department) outside_department
    >> unrouted_complaint (get id b.complaints)
    >>= λ c.
        raise_if (not (member department office.departments)) unknown_department
        >> transition office now ctx.user_id ai_routed none "routed"
            (record c { department_code = some department; routing_source = some "manual" }, b)
        >>= λ w. ok (with_due (due office w.0 department) w)
