-- ===== src/Desk/Handover.antt =====
-- Correcting the category, transferring and escalating: `correct_category`, `transfer` and `escalate`
-- of app/services/officer_service.py.
use civiclens.Access.{AuthContext, complaint_remark, complaint_update_status}
use civiclens.Desk.Rules.{level_up}
use civiclens.Desk.Matching.{Office, member, same_status}
use civiclens.Desk.{
  Work, notify_all, add_event, priority_name, save, transfer_key, audited, Book, escalated_key,
  announce, max_escalation_level,
}
use civiclens.Desk.Fieldwork.{given}
use civiclens.Desk.Officer.{
  load, transition, DeskError, permitted, unknown_category, unknown_department, finished_complaint,
  same_department, work_started, highest_level,
}
use civiclens.Complaint.Status.{ai_routed, assigned, is_finished, Status}
use civiclens.Sla.{due_at}
use civiclens.Prelude.{
  ℕ, String, Bool, true, false, not, ◌&&◌, ◌||◌, none, some, List, [], ◌∷◌, ◌++◌, leb,
  if◌then◌else◌, str_eq, opt_eq, Result, ok, ◌>>=◌, ◌>>◌, raise_if, strip,
}

-- `CATEGORIES`
abbrev pub categories : List String
categories =
    "roads" ∷ "water" ∷ "electricity" ∷ "sanitation" ∷ "drainage" ∷ "encroachment" ∷ "police"
    ∷ "other" ∷ []

-- `uow.classification_corrections.add(…)`, and the category on the object
abbrev pub recategorized : ℕ → String → String → Work → Work
recategorized now actor category (c, b) = (
  record c { category = category },
  record b {
    corrections =
        b.corrections
        ++ record {
          complaint_id = c.id;
          predicted = c.category;
          corrected = category;
          officer_id = actor;
          at = now;
        }
          ∷ [];
  },
)

abbrev pub touched : ℕ → Work → Work
touched now (c, b) = (record c { updated_at = now }, b)

unfoldable pub correct_category : ℕ → AuthContext → String → String → Book → Result DeskError Work
unfolding load
correct_category now ctx id category b =
    permitted ctx complaint_remark
    >> raise_if (not (member category categories)) unknown_category
    >> load ctx id b
    >>= λ c.
        if str_eq c.category category
        then ok (c, b)
        else ok (
            audited "classification.corrected" (some ctx.user_id) (
              add_event "category_corrected" (some ctx.user_id) none none none true now
                (save (touched now (recategorized now ctx.user_id category (c, b))))))

-- `if department_code in CATEGORIES and department_code != c.category`
abbrev pub relearned : ℕ → String → String → Work → Work
relearned now actor department (c, b) =
    if member department categories && not (str_eq department c.category)
    then recategorized now actor department (c, b)
    else (c, b)

-- The new department, its desk, and its due time on the object
abbrev pub rehomed : Office → String → Work → Work
rehomed office department (c, b) = (
  record c {
    department_code = some department;
    assigned_officer_id = none;
    routing_source = some "officer_transfer";
    sla_due_at = due_at office.policies c.created_at (priority_name c.priority) (some department);
  },
  b,
)

-- `c.status not in (S.AI_ROUTED, S.ASSIGNED)`
abbrev pub has_started : Status → Bool
has_started s = not (same_status s ai_routed || same_status s assigned)

-- The event of a transfer: back to routed, or none of the status.
unfoldable pub send_on : Office → ℕ → String → String → Work → Result DeskError Work
unfolding transition
send_on office now actor reason (c, b) =
    if same_status c.status assigned
    then transition office now actor ai_routed (some reason) "transferred" (c, b)
    else ok (
        audited "complaint.transferred" (some actor) (
          save (
            touched now
              (add_event "transferred" (some actor) none none (some reason) false now (c, b)))))

abbrev pub notify_desk : Office → String → Work → Work
notify_desk office department w =
    notify_all (office.officers department) "complaint.transferred_in"
      (transfer_key w.0.id department) w

unfoldable pub transfer :
    Office → ℕ → AuthContext → String → String → String → Book → Result DeskError Work
unfolding load send_on due_at
transfer office now ctx id department reason b =
    permitted ctx complaint_update_status >> given reason >> load ctx id b >>= λ c.
    raise_if (not (member department office.departments)) unknown_department
    >> raise_if (opt_eq (some department) c.department_code) same_department
    >> raise_if (has_started c.status) work_started
    >> send_on office now ctx.user_id (strip reason)
        (rehomed office department (relearned now ctx.user_id department (c, b)))
    >>= λ w. ok (notify_desk office department w)

-- What `escalate` does with a complaint that may go up.
unfoldable pub raise_level : Office → ℕ → String → String → Work → Work
raise_level office now actor reason (c, b) =
    let w1 =
      add_event "escalated" (some actor) none none (some reason) false now
        (save (level_up now c, b)) in
    let w2 =
      notify_all office.admins "complaint.escalated" (escalated_key w1.0.id w1.0.escalation_level)
        w1 in
    audited "complaint.escalated" (some actor) (announce "complaint.escalated" w2)

unfoldable pub escalate_complaint :
    Office → ℕ → AuthContext → String → String → Book → Result DeskError Work
unfolding load is_finished raise_level
escalate_complaint office now ctx id reason b =
    permitted ctx complaint_update_status >> given reason >> load ctx id b >>= λ c.
    raise_if (is_finished c.status) finished_complaint
    >> raise_if (leb max_escalation_level c.escalation_level) highest_level
    >> ok (raise_level office now ctx.user_id reason (c, b))
