-- ===== src/Desk/History/All.antt =====
-- All calls of app/services/officer_service.py that change a complaint.
use civiclens.Desk.History.Sent.{correct_category-Handled, transfer-Handled, escalate-Handled}
use civiclens.Desk.History.Moves.{triage-Handled}
use civiclens.Desk.History.Calls.{update_status-Handled, assign-Handled, typed_event-Handled}
use civiclens.Desk.Keeps.{Explains}
use civiclens.Desk.History.{Handled, Handled-IsStored, Handled-id, Handled-own}
use civiclens.Desk.{Book, Work, Complaint, Event, get}
use civiclens.Desk.Officer.{resolve, is_administrator}
use civiclens.Access.{AuthContext, can_access_complaint, complaint_remark, complaint_field_action}
use civiclens.Desk.Requests.{
  handle, DeskRequest, do_update_status, do_resolve, do_assign, do_triage, do_remark,
  do_field_visit, do_inspection, do_work_order, do_coordination_note, do_progress,
  do_correct_category, do_transfer, do_escalate,
}
use civiclens.Complaint.Status.{resolved, inspection_scheduled, in_progress}
use civiclens.Desk.Matching.{Office}
use civiclens.Desk.Officer.{bad_percent}
use civiclens.Desk.Fieldwork.{
  given, remark, field_visit, inspection, work_order, coordination_note, progress,
}
use civiclens.Prelude.{
  ℕ, ◌≤◌, String, ◌≡◌, sym, ◌≢◌, ◌⊎◌, true, false, none, some, List, ◌++◌, ltb, ok, ◌>>◌, raise_if,
  >>-ok,
}

handle-Handled :
    (office : Office) (now : ℕ) (ctx : AuthContext) (id : String) (r : DeskRequest) (b : Book)
    (w' : Work)
    → handle office now ctx id r b ≡ ok w'
    → Handled ctx id b w'
unfolding handle resolve remark field_visit inspection work_order coordination_note progress
handle-Handled office now ctx id (do_update_status target remarks) b w' h =
    update_status-Handled office now ctx id b target remarks h
handle-Handled office now ctx id (do_resolve notes) b w' h =
    update_status-Handled office now ctx id b resolved (some notes) h
handle-Handled office now ctx id (do_assign officer_id) b w' h =
    assign-Handled office now ctx id b officer_id h
handle-Handled office now ctx id (do_triage department) b w' h =
    triage-Handled office now ctx id b department h
handle-Handled office now ctx id (do_remark text internal) b w' h =
    typed_event-Handled office now ctx id b complaint_remark "remark" (some text) none internal
      (>>-ok (given text) _ h)
handle-Handled office now ctx id (do_field_visit notes) b w' h =
    typed_event-Handled office now ctx id b complaint_field_action "field_visit" notes
      (some inspection_scheduled) false h
handle-Handled office now ctx id (do_inspection findings notes) b w' h =
    typed_event-Handled office now ctx id b complaint_field_action "inspection" notes none false
      (>>-ok (given findings) _ h)
handle-Handled office now ctx id (do_work_order ref description) b w' h =
    typed_event-Handled office now ctx id b complaint_field_action "work_order" (some description)
      (some in_progress) false (>>-ok (given ref >> given description) _ h)
handle-Handled office now ctx id (do_coordination_note note) b w' h =
    typed_event-Handled office now ctx id b complaint_field_action "coordination" (some note) none
      true (>>-ok (given note) _ h)
handle-Handled office now ctx id (do_progress percent notes) b w' h =
    typed_event-Handled office now ctx id b complaint_field_action "progress" notes
      (some in_progress) false (>>-ok (raise_if (ltb 100 percent) bad_percent) _ h)
handle-Handled office now ctx id (do_correct_category category) b w' h =
    correct_category-Handled office now ctx id b category h
handle-Handled office now ctx id (do_transfer department reason) b w' h =
    transfer-Handled office now ctx id b department reason h
handle-Handled office now ctx id (do_escalate reason) b w' h =
    escalate-Handled office now ctx id b reason h

module _ (office : Office) (now : ℕ) (ctx : AuthContext) (id : String) (r : DeskRequest) (b : Book)
    (w' : Work) where
  -- A call that changes a complaint, with all rules that it sets off, only adds to the history, and
  -- the events that it adds lead along allowed transitions from the status that the complaint's row
  -- had to the one that its row has afterwards.
  pub events_tell_status :
      handle office now ctx id r b ≡ ok w'
      → (c c' : Complaint) × (es : List Event) × (get id b.complaints ≡ some c)
        × (get id w'.1.complaints ≡ some c')
        × (w'.1.events ≡ b.events ++ es)
        × Explains id c.status es c'.status
  events_tell_status h =
      let d = handle-Handled office now ctx id r b w' h in
      let s = Handled-IsStored ctx id b w' d in
      (
        d.complaint,
        s.row,
        d.kept.history.0,
        d.found,
        rw (Handled-id ctx id b w' d) at s.row_found,
        d.kept.history.1,
        rw (Handled-own ctx id b w' d, sym s.row_status) at d.kept.history.2,
      )

  -- Only someone who may write a complaint changes it, or an administrator who routes one that no
  -- department has; and no other complaint is changed.
  pub writes_one_allowed :
      handle office now ctx id r b ≡ ok w'
      → (c : Complaint) × (get id b.complaints ≡ some c)
        × ((can_access_complaint ctx c.citizen_id c.department_code true ≡ true)
            ⊎ ((c.department_code ≡ none) × (is_administrator ctx.role ≡ true)))
        × ((i : String) → c.id ≢ i → get i w'.1.complaints ≡ get i b.complaints)
  writes_one_allowed h =
      let d = handle-Handled office now ctx id r b w' h in
      (d.complaint, d.found, d.access, d.kept.others)

  -- The escalation level of a complaint's row never falls through a call and all rules that it sets
  -- off, and stays at most 3 if it was.
  pub level_stays_bounded :
      handle office now ctx id r b ≡ ok w'
      → (c c' : Complaint) × (get id b.complaints ≡ some c)
        × (get id w'.1.complaints ≡ some c')
        × (c.escalation_level ≤ c'.escalation_level)
        × (c.escalation_level ≤ 3 → c'.escalation_level ≤ 3)
  level_stays_bounded h =
      let d = handle-Handled office now ctx id r b w' h in
      let s = Handled-IsStored ctx id b w' d in
      (
        d.complaint,
        s.row,
        d.found,
        rw (Handled-id ctx id b w' d) at s.row_found,
        rw (sym s.row_level) at d.kept.level_kept,
        rw (sym s.row_level) at d.kept.level_bounded,
      )
