-- ===== src/Complaint/Status.antt =====
-- app/services/complaint_status.py, lines 20 to 82: the statuses of a complaint, the graph of the
-- allowed transitions, and the history event that an accepted transition yields.
pub mod Rules
pub mod Lifecycle
use civiclens.Prelude.{
  ℕ, String, Bool, true, false, not, ◌&&◌, Option, some, Result, ok, ◌>>◌, raise_if, has_text,
  strip_or_none,
}

pub data Status : Type 0 where
  submitted ai_routed assigned under_review inspection_scheduled : Status
  in_progress resolved closed rejected : Status

-- `TRANSITIONS[current]` as a test on the target.
unfoldable pub can_transition : Status → Status → Bool
can_transition submitted ai_routed = true
can_transition submitted rejected = true
can_transition ai_routed assigned = true
can_transition ai_routed rejected = true
can_transition assigned under_review = true
can_transition assigned ai_routed = true
can_transition assigned rejected = true
can_transition under_review inspection_scheduled = true
can_transition under_review in_progress = true
can_transition under_review resolved = true
can_transition under_review rejected = true
can_transition under_review assigned = true
can_transition inspection_scheduled under_review = true
can_transition inspection_scheduled in_progress = true
can_transition inspection_scheduled resolved = true
can_transition in_progress under_review = true
can_transition in_progress inspection_scheduled = true
can_transition in_progress resolved = true
can_transition resolved closed = true
can_transition resolved in_progress = true
can_transition _ _ = false

-- `TERMINAL`
unfoldable pub is_terminal : Status → Bool
is_terminal closed = true
is_terminal rejected = true
is_terminal _ = false

-- `FINISHED`
unfoldable pub is_finished : Status → Bool
is_finished resolved = true
is_finished closed = true
is_finished rejected = true
is_finished _ = false

-- `REMARK_REQUIRED`
unfoldable pub remark_required : Status → Bool
remark_required rejected = true
remark_required resolved = true
remark_required _ = false

-- `current is S.RESOLVED and target is S.IN_PROGRESS`
unfoldable pub is_reopen : Status → Status → Bool
is_reopen resolved in_progress = true
is_reopen _ _ = false

-- The three `ValidationFailed` that `validate_transition` raises, with what each names.
pub data TransitionError : Type 0 where
  not_allowed : Status → Status → TransitionError
  remark_missing : Status → TransitionError
  reopen_remark_missing : TransitionError

pub record HistoryEvent : Type 0 where
  pub complaint_id : String
  pub action : String
  pub from_status : Option Status
  pub to_status : Option Status
  pub actor_id : Option String
  pub actor_label : Option String
  pub remarks : Option String
  pub at : ℕ

unfoldable pub validate_transition :
    Status → Status → Option String → Result TransitionError (Unit {0})
unfolding can_transition remark_required is_reopen
validate_transition current target remarks =
    raise_if (not (can_transition current target)) (not_allowed current target)
    >> raise_if (remark_required target && not (has_text remarks)) (remark_missing target)
    >> raise_if (is_reopen current target && not (has_text remarks)) reopen_remark_missing

unfoldable pub apply_transition :
    String
    → Status
    → Status
    → Option String
    → Option String
    → Option String
    → ℕ
    → Result TransitionError HistoryEvent
apply_transition complaint_id current target actor_id actor_label remarks at =
    validate_transition current target remarks
    >> ok (record {
      complaint_id = complaint_id;
      action = "status_change";
      from_status = some current;
      to_status = some target;
      actor_id = actor_id;
      actor_label = actor_label;
      remarks = strip_or_none remarks;
      at = at;
    })
