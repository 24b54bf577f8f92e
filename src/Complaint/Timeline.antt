-- ===== src/Complaint/Timeline.antt =====
-- app/services/complaint_status.py, lines 38 to 46 and 85 to 161: the tracker view of a complaint
-- and the tracker's filters. Times are microseconds since the epoch.
pub mod Laws
use civiclens.Prelude.{
  ℕ, suc, String, Bool, true, false, not, Option, none, some, List, [], ◌∷◌, ltb, leb, ◌==◌,
  if◌then◌else◌, is_some, str_eq, lower, any, Result, ok, err,
}
use civiclens.Complaint.Status.{
  Status, submitted, ai_routed, assigned, under_review, inspection_scheduled, in_progress, resolved,
  closed, rejected, is_finished,
}

-- The stages of `TIMELINE_STAGES`, by their labels.
pub data Stage : Type 0 where
  submitted_stage ai_routed_stage assigned_stage under_review_stage : Stage
  in_progress_stage resolved_stage : Stage

abbrev pub label : Stage → String
label submitted_stage = "Submitted"
label ai_routed_stage = "AI Routed"
label assigned_stage = "Assigned"
label under_review_stage = "Under Review"
label in_progress_stage = "In Progress"
label resolved_stage = "Resolved"

abbrev pub timeline_stages : List Stage
timeline_stages =
    submitted_stage ∷ ai_routed_stage ∷ assigned_stage ∷ under_review_stage ∷ in_progress_stage
    ∷ resolved_stage ∷ []

-- `status in statuses` for the statuses of a stage
unfoldable pub in_stage : Status → Stage → Bool
in_stage submitted submitted_stage = true
in_stage ai_routed ai_routed_stage = true
in_stage assigned assigned_stage = true
in_stage under_review under_review_stage = true
in_stage inspection_scheduled under_review_stage = true
in_stage in_progress in_progress_stage = true
in_stage resolved resolved_stage = true
in_stage closed resolved_stage = true
in_stage _ _ = false

-- What `build_timeline` reads of an event (the protocol `_TimelineEvent`).
pub record TimelineEvent : Type 0 where
  pub to_status : Option Status
  pub at : ℕ

pub data StepState : Type 0 where
  done current upcoming skipped rejected_state : StepState

pub record TimelineStep : Type 0 where
  pub label : String
  pub state : StepState
  pub at : Option ℕ

-- `sorted(events, key=lambda e: e.at)`, a stable sort
insert_event : TimelineEvent → List TimelineEvent → List TimelineEvent
insert_event e [] = e ∷ []
insert_event e (x ∷ xs) = if leb e.at x.at then e ∷ x ∷ xs else x ∷ insert_event e xs

pub sort_events : List TimelineEvent → List TimelineEvent
unfolding insert_event
sort_events [] = []
sort_events (e ∷ es) = insert_event e (sort_events es)

-- `ev.to_status is not None and ev.to_status in statuses`
abbrev pub reaches_status : Option Status → Stage → Bool
reaches_status none stage = false
reaches_status (some s) stage = in_stage s stage

abbrev pub reaches : TimelineEvent → Stage → Bool
reaches e stage = reaches_status e.to_status stage

-- The loop that fills `reached`, for one label: `setdefault` keeps the first time.
set_default : Option ℕ → ℕ → Option ℕ
set_default none t = some t
set_default (some old) t = some old

fill : Stage → Option ℕ → List TimelineEvent → Option ℕ
unfolding set_default
fill stage acc [] = acc
fill stage acc (e ∷ es) = fill stage (if reaches e stage then set_default acc e.at else acc) es

-- `reached.get(label)`
unfoldable pub reached : List TimelineEvent → Stage → Option ℕ
unfolding fill sort_events
reached events stage = fill stage none (sort_events events)

-- `next((e.at for e in events if e.to_status is S.REJECTED), None)`
is_rejected : Option Status → Bool
is_rejected (some rejected) = true
is_rejected _ = false

pub rejected_at : List TimelineEvent → Option ℕ
unfolding is_rejected
rejected_at [] = none
rejected_at (e ∷ es) =
    let rest = rejected_at es in if is_rejected e.to_status then some e.at else rest

-- `next(i for i, (_, sts) in enumerate(TIMELINE_STAGES) if current in sts)`; `none` stands for the
-- `StopIteration` of an exhausted `next`.
find_index : Status → ℕ → List Stage → Option ℕ
find_index s i [] = none
find_index s i (stage ∷ rest) =
    let later = find_index s (suc i) rest in if in_stage s stage then some i else later

passed_step : List TimelineEvent → Stage → TimelineStep
passed_step events stage =
    let t = reached events stage in
    record { label = label stage; state = if is_some t then done else skipped; at = t }

-- `current in {S.RESOLVED, S.CLOSED}`
pub is_resolved_or_closed : Status → Bool
is_resolved_or_closed resolved = true
is_resolved_or_closed closed = true
is_resolved_or_closed _ = false

-- One round of the loop over `enumerate(TIMELINE_STAGES)`.
step_at : Status → List TimelineEvent → ℕ → ℕ → Stage → TimelineStep
unfolding passed_step is_resolved_or_closed
step_at s events current_idx i stage =
    if ltb i current_idx
    then passed_step events stage
    else if i == current_idx
    then record {
      label = label stage;
      state = if is_resolved_or_closed s then done else current;
      at = reached events stage;
    }
    else record { label = label stage; state = upcoming; at = none }

steps_from : Status → List TimelineEvent → ℕ → ℕ → List Stage → List TimelineStep
unfolding step_at
steps_from s events current_idx i [] = []
steps_from s events current_idx i (stage ∷ rest) =
    step_at s events current_idx i stage ∷ steps_from s events current_idx (suc i) rest

rejected_view : List TimelineEvent → List TimelineStep
unfolding passed_step rejected_at
rejected_view events =
    passed_step events submitted_stage
    ∷ record { label = "Rejected"; state = rejected_state; at = rejected_at events }
    ∷ []

pub build_timeline : Status → List TimelineEvent → Option (List TimelineStep)
unfolding rejected_view find_index steps_from
build_timeline rejected events = some (rejected_view events)
build_timeline s events = elim (find_index s 0 timeline_stages) [
  | none ↦ none
  | some current_idx ↦ some (steps_from s events current_idx 0 timeline_stages)
]

abbrev pub tracker_filters : List String
tracker_filters = "all" ∷ "active" ∷ "resolved" ∷ "rti" ∷ "municipal" ∷ "utility" ∷ "legal" ∷ []

-- The `ValidationFailed` of an unknown filter, with the name as it was given.
pub data FilterError : Type 0 where
  unknown_filter : String → FilterError

unfoldable pub matches_filter : String → Status → String → Result FilterError Bool
unfolding lower is_resolved_or_closed
matches_filter filter_name status complaint_type =
    let f = lower filter_name in
    if not (any (str_eq f) tracker_filters)
    then err (unknown_filter filter_name)
    else if str_eq f "all"
    then ok true
    else if str_eq f "active"
    then ok (not (is_finished status))
    else if str_eq f "resolved"
    then ok (is_resolved_or_closed status)
    else ok (str_eq (lower complaint_type) f)
