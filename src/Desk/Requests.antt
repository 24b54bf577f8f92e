-- ===== src/Desk/Requests.antt =====
-- The calls of `OfficerService` (app/services/officer_service.py) that change a complaint, as values.
use civiclens.Desk.{Book, Work}
use civiclens.Access.{AuthContext}
use civiclens.Desk.Matching.{Office}
use civiclens.Desk.Handover.{correct_category, transfer, escalate_complaint}
use civiclens.Desk.Fieldwork.{
  remark, field_visit, inspection, work_order, coordination_note, progress,
}
use civiclens.Desk.Officer.{update_status, resolve, assign, triage, DeskError}
use civiclens.Complaint.Status.{Status}
use civiclens.Prelude.{ℕ, String, Bool, Option, Result}

pub data DeskRequest : Type 0 where
  do_update_status : (target : Status) (remarks : Option String) → DeskRequest
  do_resolve : (notes : String) → DeskRequest
  do_assign : (officer_id : String) → DeskRequest
  do_triage : (department : String) → DeskRequest
  do_remark : (text : String) (internal : Bool) → DeskRequest
  do_field_visit : (notes : Option String) → DeskRequest
  do_inspection : (findings : String) (notes : Option String) → DeskRequest
  do_work_order : (order_ref description : String) → DeskRequest
  do_coordination_note : (note : String) → DeskRequest
  do_progress : (percent : ℕ) (notes : Option String) → DeskRequest
  do_correct_category : (category : String) → DeskRequest
  do_transfer : (department reason : String) → DeskRequest
  do_escalate : (reason : String) → DeskRequest

-- A call by `ctx` on the complaint `id`.
unfoldable pub handle :
    Office → ℕ → AuthContext → String → DeskRequest → Book → Result DeskError Work
unfolding update_status resolve assign triage remark field_visit inspection work_order
    coordination_note progress correct_category transfer escalate_complaint
handle office now ctx id (do_update_status target remarks) b =
    update_status office now ctx id target remarks b
handle office now ctx id (do_resolve notes) b = resolve office now ctx id notes b
handle office now ctx id (do_assign officer_id) b = assign office now ctx id officer_id b
handle office now ctx id (do_triage department) b = triage office now ctx id department b
handle office now ctx id (do_remark text internal) b = remark office now ctx id text internal b
handle office now ctx id (do_field_visit notes) b = field_visit office now ctx id notes b
handle office now ctx id (do_inspection findings notes) b =
    inspection office now ctx id findings notes b
handle office now ctx id (do_work_order ref description) b =
    work_order office now ctx id ref description b
handle office now ctx id (do_coordination_note note) b = coordination_note office now ctx id note b
handle office now ctx id (do_progress percent notes) b = progress office now ctx id percent notes b
handle office now ctx id (do_correct_category category) b = correct_category now ctx id category b
handle office now ctx id (do_transfer department reason) b =
    transfer office now ctx id department reason b
handle office now ctx id (do_escalate reason) b = escalate_complaint office now ctx id reason b
