-- ===== src/Desk/Fieldwork.antt =====
-- The entries that an officer makes while the work goes on: `_typed_event` and its callers in
-- app/services/officer_service.py.
use civiclens.Desk.Officer.{
  load, transition, permitted, DeskError, finished_complaint, text_missing, bad_percent,
}
use civiclens.Desk.{Work, add_event, Book, save, audited}
use civiclens.Desk.Matching.{Office, same_status}
use civiclens.Access.{AuthContext, Permission, complaint_remark, complaint_field_action}
use civiclens.Complaint.Status.{
  Status, inspection_scheduled, in_progress, can_transition, is_finished,
}
use civiclens.Prelude.{
  ℕ, String, Bool, true, false, not, ◌&&◌, Option, none, some, ltb, if◌then◌else◌, Result, ok,
  ◌>>=◌, ◌>>◌, raise_if, has_text, str_append,
}

-- `move_to is not None and c.status is not move_to and can_transition(c.status, move_to)`
abbrev pub moves : Status → Option Status → Option Status
moves s none = none
moves s (some t) = if not (same_status s t) && can_transition s t then some t else none

abbrev pub typed_step :
    Office
    → ℕ
    → String
    → String
    → Option String
    → Bool
    → Option Status
    → Work
    → Result DeskError Work
typed_step office now actor kind remarks internal (some target) w =
    transition office now actor target remarks kind w
typed_step office now actor kind remarks internal none (c, b) =
    let w1 = add_event kind (some actor) none none remarks internal now (c, b) in
    ok (
      audited (str_append "complaint." kind) (some actor)
        (save (record w1.0 { updated_at = now }, w1.1)))

-- `_typed_event`
unfoldable pub typed_event :
    Office
    → ℕ
    → AuthContext
    → String
    → Permission
    → String
    → Option String
    → Option Status
    → Bool
    → Book
    → Result DeskError Work
unfolding load is_finished transition can_transition
typed_event office now ctx id permission kind remarks move_to internal b =
    permitted ctx permission >> load ctx id b >>= λ c.
    raise_if (is_finished c.status) finished_complaint
    >> typed_step office now ctx.user_id kind remarks internal (moves c.status move_to) (c, b)

-- `if not (text or "").strip(): raise ValidationFailed(…)`
abbrev pub given : String → Result DeskError (Unit {0})
given text = raise_if (not (has_text (some text))) text_missing

unfoldable pub remark :
    Office → ℕ → AuthContext → String → String → Bool → Book → Result DeskError Work
unfolding typed_event
remark office now ctx id text internal b =
    given text
    >> typed_event office now ctx id complaint_remark "remark" (some text) none internal b

unfoldable pub field_visit :
    Office → ℕ → AuthContext → String → Option String → Book → Result DeskError Work
unfolding typed_event
field_visit office now ctx id notes b =
    typed_event office now ctx id complaint_field_action "field_visit" notes
      (some inspection_scheduled) false b

unfoldable pub inspection :
    Office → ℕ → AuthContext → String → String → Option String → Book → Result DeskError Work
unfolding typed_event
inspection office now ctx id findings notes b =
    given findings
    >> typed_event office now ctx id complaint_field_action "inspection" notes none false b

unfoldable pub work_order :
    Office → ℕ → AuthContext → String → String → String → Book → Result DeskError Work
unfolding typed_event
work_order office now ctx id order_ref description b =
    given order_ref
    >> given description
    >> typed_event office now ctx id complaint_field_action "work_order" (some description)
        (some in_progress) false b

unfoldable pub coordination_note :
    Office → ℕ → AuthContext → String → String → Book → Result DeskError Work
unfolding typed_event
coordination_note office now ctx id note b =
    given note
    >> typed_event office now ctx id complaint_field_action "coordination" (some note) none true b

unfoldable pub progress :
    Office → ℕ → AuthContext → String → ℕ → Option String → Book → Result DeskError Work
unfolding typed_event
progress office now ctx id percent notes b =
    raise_if (ltb 100 percent) bad_percent
    >> typed_event office now ctx id complaint_field_action "progress" notes (some in_progress)
        false b
