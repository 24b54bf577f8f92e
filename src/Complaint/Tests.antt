-- ===== src/Complaint/Tests.antt =====
-- Runs of the status graph and of the tracker, and the theorems at concrete complaints.
use civiclens.Prelude.{has_text, ◌≡◌, none, List, some, strip_or_none, ◌∷◌, refl, ok, err, []}
use civiclens.Complaint.Status.{
  submitted, ai_routed, assigned, under_review, resolved, closed, in_progress, validate_transition,
  apply_transition, HistoryEvent, remark_missing,
}
use civiclens.Complaint.Status.Lifecycle.{
  Trace, start, move, Visits, IsResolvedWithText, no_trace_skips_review, closed_was_resolved,
}
use civiclens.Complaint.Timeline.{TimelineEvent, reached, assigned_stage, in_stage}

resolve_needs_remark :
    validate_transition in_progress resolved (some "  ") ≡ err (remark_missing resolved)
unfolding validate_transition has_text
resolve_needs_remark = refl

abbrev reopened : HistoryEvent
reopened = record {
  complaint_id = "c1";
  action = "status_change";
  from_status = some resolved;
  to_status = some in_progress;
  actor_id = some "u1";
  actor_label = some "Citizen";
  remarks = some "not fixed";
  at = 70;
}

reopened-apply :
    apply_transition "c1" resolved in_progress (some "u1") (some "Citizen") (some " not fixed ") 70
    ≡ ok reopened
unfolding apply_transition validate_transition has_text strip_or_none
reopened-apply = refl

-- A complaint from its submission to its closure.
abbrev to_review : Trace submitted under_review
unfolding validate_transition
to_review = move (move (move start ai_routed none refl) assigned none refl) under_review none refl

to_closed : Trace submitted closed
unfolding validate_transition has_text
to_closed = move (move to_review resolved (some "repaired") refl) closed none refl

closed_was_resolved_example : IsResolvedWithText to_closed
closed_was_resolved_example = closed_was_resolved to_closed

no_trace_skips_review_example : Visits under_review to_closed
no_trace_skips_review_example =
    no_trace_skips_review to_closed (λ e. cc) (λ e. cc) (λ e. cc) (λ e. cc)

-- Recorded out of order, with a second assignment.
abbrev some_events : List TimelineEvent
some_events =
    record { to_status = some assigned; at = 30 }
    ∷ record { to_status = some submitted; at = 10 }
    ∷ record { to_status = none; at = 5 }
    ∷ record { to_status = some assigned; at = 20 }
    ∷ []

reached_assigned : reached some_events assigned_stage ≡ some 20
unfolding reached in_stage
reached_assigned = refl
